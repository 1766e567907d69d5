-- ===== src/Types.antt =====
-- packages/types/src/enums.ts: the values of the columns, each in the order of its list.
pub mod Rbac
use tax_professional_managem.Common.{ℕ}

-- `ENTITY_TYPES`
pub data EntityType : Type 0 where
  individual proprietorship partnership llp private_limited public_limited trust : EntityType
  society huf other : EntityType

-- `CLIENT_STATUSES`
pub data ClientStatus : Type 0 where
  active inactive onboarding offboarded : ClientStatus

-- Two values are the same where their places in the list are.
abbrev pub entity_type_index : EntityType → ℕ
entity_type_index EntityType.individual = 0
entity_type_index EntityType.proprietorship = 1
entity_type_index EntityType.partnership = 2
entity_type_index EntityType.llp = 3
entity_type_index EntityType.private_limited = 4
entity_type_index EntityType.public_limited = 5
entity_type_index EntityType.trust = 6
entity_type_index EntityType.society = 7
entity_type_index EntityType.huf = 8
entity_type_index EntityType.other = 9

abbrev pub client_status_index : ClientStatus → ℕ
client_status_index ClientStatus.active = 0
client_status_index ClientStatus.inactive = 1
client_status_index ClientStatus.onboarding = 2
client_status_index ClientStatus.offboarded = 3

-- `TASK_STATUSES`
pub data TaskStatus : Type 0 where
  todo in_progress waiting completed cancelled : TaskStatus

-- Two values are the same where their places in the list are.
abbrev pub task_status_index : TaskStatus → ℕ
task_status_index TaskStatus.todo = 0
task_status_index TaskStatus.in_progress = 1
task_status_index TaskStatus.waiting = 2
task_status_index TaskStatus.completed = 3
task_status_index TaskStatus.cancelled = 4

-- `TASK_PRIORITIES`
pub data TaskPriority : Type 0 where
  low medium high urgent : TaskPriority

-- Two values are the same where their places in the list are.
abbrev pub task_priority_index : TaskPriority → ℕ
task_priority_index TaskPriority.low = 0
task_priority_index TaskPriority.medium = 1
task_priority_index TaskPriority.high = 2
task_priority_index TaskPriority.urgent = 3

-- `COMPLIANCE_STATUSES`
pub data ComplianceStatus : Type 0 where
  upcoming in_progress filed verified overdue not_applicable : ComplianceStatus

-- Two values are the same where their places in the list are.
abbrev pub compliance_status_index : ComplianceStatus → ℕ
compliance_status_index ComplianceStatus.upcoming = 0
compliance_status_index ComplianceStatus.in_progress = 1
compliance_status_index ComplianceStatus.filed = 2
compliance_status_index ComplianceStatus.verified = 3
compliance_status_index ComplianceStatus.overdue = 4
compliance_status_index ComplianceStatus.not_applicable = 5

-- `CREDENTIAL_STATUSES`
pub data CredentialStatus : Type 0 where
  active needs_rotation revoked : CredentialStatus

-- `AUDIT_ACTIONS`
pub data AuditAction : Type 0 where
  user_login user_logout login_failed password_reset_requested password_reset_completed :
      AuditAction
  organization_created member_invited member_role_changed member_removed client_created :
      AuditAction
  client_updated client_deleted client_assigned credential_created credential_updated : AuditAction
  credential_accessed credential_used credential_revealed credential_rotated : AuditAction
  credential_deleted portal_opened portal_session_started portal_session_completed : AuditAction
  portal_session_failed document_uploaded document_downloaded document_deleted : AuditAction
  task_created task_updated task_assigned task_completed task_deleted : AuditAction
  compliance_item_created compliance_item_updated compliance_status_changed : AuditAction
  compliance_calendar_generated compliance_marked_overdue compliance_item_deleted : AuditAction
  audit_log_viewed settings_changed : AuditAction

-- Two values are the same where their places in the list are.
abbrev pub audit_action_index : AuditAction → ℕ
audit_action_index AuditAction.user_login = 0
audit_action_index AuditAction.user_logout = 1
audit_action_index AuditAction.login_failed = 2
audit_action_index AuditAction.password_reset_requested = 3
audit_action_index AuditAction.password_reset_completed = 4
audit_action_index AuditAction.organization_created = 5
audit_action_index AuditAction.member_invited = 6
audit_action_index AuditAction.member_role_changed = 7
audit_action_index AuditAction.member_removed = 8
audit_action_index AuditAction.client_created = 9
audit_action_index AuditAction.client_updated = 10
audit_action_index AuditAction.client_deleted = 11
audit_action_index AuditAction.client_assigned = 12
audit_action_index AuditAction.credential_created = 13
audit_action_index AuditAction.credential_updated = 14
audit_action_index AuditAction.credential_accessed = 15
audit_action_index AuditAction.credential_used = 16
audit_action_index AuditAction.credential_revealed = 17
audit_action_index AuditAction.credential_rotated = 18
audit_action_index AuditAction.credential_deleted = 19
audit_action_index AuditAction.portal_opened = 20
audit_action_index AuditAction.portal_session_started = 21
audit_action_index AuditAction.portal_session_completed = 22
audit_action_index AuditAction.portal_session_failed = 23
audit_action_index AuditAction.document_uploaded = 24
audit_action_index AuditAction.document_downloaded = 25
audit_action_index AuditAction.document_deleted = 26
audit_action_index AuditAction.task_created = 27
audit_action_index AuditAction.task_updated = 28
audit_action_index AuditAction.task_assigned = 29
audit_action_index AuditAction.task_completed = 30
audit_action_index AuditAction.task_deleted = 31
audit_action_index AuditAction.compliance_item_created = 32
audit_action_index AuditAction.compliance_item_updated = 33
audit_action_index AuditAction.compliance_status_changed = 34
audit_action_index AuditAction.compliance_calendar_generated = 35
audit_action_index AuditAction.compliance_marked_overdue = 36
audit_action_index AuditAction.compliance_item_deleted = 37
audit_action_index AuditAction.audit_log_viewed = 38
audit_action_index AuditAction.settings_changed = 39
