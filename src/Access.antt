-- ===== src/Access.antt =====
-- Who may do what: apps/api/src/rbac/rbac.service.ts, and the three guards of
-- apps/api/src/common/guards that every request passes, in the order JwtAuthGuard,
-- TenantScopeGuard, PermissionsGuard.
pub mod Laws
use tax_professional_managem.Common.{
  ℕ, Bool, true, false, not, ◌&&◌, ◌||◌, List, [], Option, none, some, ◌==◌, if◌then◌else◌, is_none,
  String,
}
use tax_professional_managem.Common.Table.{find_first}
use tax_professional_managem.Types.Rbac.{Permission, has_permission_code}
use tax_professional_managem.Db.{Db, Member, MemberStatus, Role}
use tax_professional_managem.Db.Action.{
  Action, unauthorized, forbidden, internal, unauthorized_request, no_organization_context,
  forbidden_request, pure, throw, gets, or_throw, throw_if, ◌>>=◌, ◌>>◌,
}
use tax_professional_managem.Tokens.{Claims}
use tax_professional_managem.Auth.{is_active_member}

abbrev pub is_membership : ℕ → ℕ → Member → Bool
is_membership user organization m = (m.organization_id == organization) && (m.user_id == user)

-- The join of a membership with its role's permissions; the foreign key gives every member a role.
abbrev pub role_permissions : Option Role → List Permission
role_permissions none = []
role_permissions (some r) = r.permissions

abbrev pub granted : Db → Option Member → List Permission
granted db none = []
granted db (some m) =
    if is_active_member m.status
    then role_permissions (find_first (λ (r : Role). r.id == m.role_id) db.roles)
    else []

unfoldable pub get_permissions_for_member : ℕ → ℕ → Action (List Permission)
get_permissions_for_member user organization =
    gets (λ db. granted db (find_first (is_membership user organization) db.members))

unfoldable pub has_permission : ℕ → ℕ → Permission → Action Bool
has_permission user organization permission = do
  ps ← get_permissions_for_member user organization
  pure (has_permission_code permission ps)

-- `AuthContext`
pub record AuthContext : Type 0 where
  pub user_id : ℕ
  pub organization_id : Option ℕ
  pub session_id : ℕ

-- The decorators of a handler (or of its class): `@Public`, `@SkipTenantScope`,
-- `@RequirePermission`.
pub record Route : Type 0 where
  pub is_public : Bool
  pub skips_tenant_scope : Bool
  pub required : Option Permission

-- `bearer` is what follows `Bearer ` in the header, and `verify` is `jwt.verify` with the
-- deployment's public key, the algorithm and the issuer: `none` where it throws.
unfoldable pub jwt_auth_guard :
    (String → Option Claims) → Route → Option String → Action (Option AuthContext)
jwt_auth_guard verify route bearer = if route.is_public then pure none else (do
  token ← or_throw bearer (unauthorized unauthorized_request)
  payload ← or_throw (verify token) (unauthorized unauthorized_request)
  pure (
      some (record {
        user_id = payload.sub;
        organization_id = payload.org_id;
        session_id = payload.session_id;
      })))

abbrev pub context_organization : Option AuthContext → Option ℕ
context_organization none = none
context_organization (some c) = c.organization_id

unfoldable pub tenant_scope_guard : Route → Option AuthContext → Action (Unit {0})
tenant_scope_guard route context =
    if route.is_public || route.skips_tenant_scope
    then pure tt
    else throw_if (is_none (context_organization context)) (forbidden no_organization_context)

abbrev pub require_permission : Permission → Option AuthContext → Action (Unit {0})
require_permission permission none = throw (forbidden forbidden_request)
require_permission permission (some c) = do
  organization ← or_throw c.organization_id (forbidden forbidden_request)
  allowed ← has_permission c.user_id organization permission
  throw_if (not allowed) (forbidden forbidden_request)

abbrev pub check_required : Option Permission → Option AuthContext → Action (Unit {0})
check_required none context = pure tt
check_required (some permission) context = require_permission permission context

unfoldable pub permissions_guard : Route → Option AuthContext → Action (Unit {0})
permissions_guard route context = check_required route.required context

-- The three in their order, and what the handler gets as `request.authContext`.
unfoldable pub admit :
    (String → Option Claims) → Route → Option String → Action (Option AuthContext)
admit verify route bearer = do
  context ← jwt_auth_guard verify route bearer
  tenant_scope_guard route context
  permissions_guard route context
  pure context
