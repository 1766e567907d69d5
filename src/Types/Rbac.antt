-- ===== src/Types/Rbac.antt =====
-- packages/types/src/rbac.ts: the permissions, and what the seeded roles are granted.
use tax_professional_managem.Common.{ℕ, Bool, List, [], ◌∷◌, any, ◌==◌}

-- `SYSTEM_ROLES`
pub data SystemRole : Type 0 where
  super_admin firm_admin ca manager accountant staff read_only : SystemRole

-- `PERMISSIONS`
pub data Permission : Type 0 where
  clients_view clients_create clients_update clients_delete credentials_view : Permission
  credentials_create credentials_update credentials_delete credentials_use : Permission
  credentials_reveal documents_view documents_upload documents_delete tasks_view : Permission
  tasks_create tasks_assign tasks_complete compliance_view compliance_manage : Permission
  employees_manage reports_view audit_logs_view settings_manage : Permission

-- Two values are the same where their places in the list are.
abbrev pub permission_index : Permission → ℕ
permission_index Permission.clients_view = 0
permission_index Permission.clients_create = 1
permission_index Permission.clients_update = 2
permission_index Permission.clients_delete = 3
permission_index Permission.credentials_view = 4
permission_index Permission.credentials_create = 5
permission_index Permission.credentials_update = 6
permission_index Permission.credentials_delete = 7
permission_index Permission.credentials_use = 8
permission_index Permission.credentials_reveal = 9
permission_index Permission.documents_view = 10
permission_index Permission.documents_upload = 11
permission_index Permission.documents_delete = 12
permission_index Permission.tasks_view = 13
permission_index Permission.tasks_create = 14
permission_index Permission.tasks_assign = 15
permission_index Permission.tasks_complete = 16
permission_index Permission.compliance_view = 17
permission_index Permission.compliance_manage = 18
permission_index Permission.employees_manage = 19
permission_index Permission.reports_view = 20
permission_index Permission.audit_logs_view = 21
permission_index Permission.settings_manage = 22

abbrev pub has_permission_code : Permission → List Permission → Bool
has_permission_code p ps = any (λ q. permission_index q == permission_index p) ps

-- `PERMISSIONS`
abbrev pub permissions : List Permission
permissions =
    clients_view ∷ clients_create ∷ clients_update ∷ clients_delete ∷ credentials_view
    ∷ credentials_create ∷ credentials_update ∷ credentials_delete ∷ credentials_use
    ∷ credentials_reveal ∷ documents_view ∷ documents_upload ∷ documents_delete ∷ tasks_view
    ∷ tasks_create ∷ tasks_assign ∷ tasks_complete ∷ compliance_view ∷ compliance_manage
    ∷ employees_manage ∷ reports_view ∷ audit_logs_view ∷ settings_manage ∷ []

-- `DEFAULT_ROLE_PERMISSIONS`
unfoldable pub default_role_permissions : SystemRole → List Permission
default_role_permissions SystemRole.super_admin = permissions
default_role_permissions SystemRole.firm_admin = permissions
default_role_permissions SystemRole.ca =
    clients_view ∷ clients_create ∷ clients_update ∷ credentials_view ∷ credentials_create
    ∷ credentials_update ∷ credentials_use ∷ credentials_reveal ∷ documents_view ∷ documents_upload
    ∷ documents_delete ∷ tasks_view ∷ tasks_create ∷ tasks_assign ∷ tasks_complete ∷ compliance_view
    ∷ compliance_manage ∷ employees_manage ∷ reports_view ∷ audit_logs_view ∷ []
default_role_permissions SystemRole.manager =
    clients_view ∷ clients_create ∷ clients_update ∷ credentials_view ∷ credentials_create
    ∷ credentials_update ∷ credentials_use ∷ documents_view ∷ documents_upload ∷ documents_delete
    ∷ tasks_view ∷ tasks_create ∷ tasks_assign ∷ tasks_complete ∷ compliance_view
    ∷ compliance_manage ∷ reports_view ∷ []
default_role_permissions SystemRole.accountant =
    clients_view ∷ clients_update ∷ credentials_view ∷ credentials_use ∷ documents_view
    ∷ documents_upload ∷ tasks_view ∷ tasks_create ∷ tasks_complete ∷ compliance_view
    ∷ compliance_manage ∷ []
default_role_permissions SystemRole.staff =
    clients_view ∷ credentials_view ∷ credentials_use ∷ documents_view ∷ documents_upload
    ∷ tasks_view ∷ tasks_complete ∷ compliance_view ∷ []
default_role_permissions SystemRole.read_only =
    clients_view ∷ documents_view ∷ tasks_view ∷ compliance_view ∷ reports_view ∷ []
