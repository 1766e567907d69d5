-- ===== src/Auth.antt =====
-- apps/api/src/auth/auth.service.ts and apps/api/src/auth/password.service.ts: registration, login
-- with its lockout, logout, and the reset of a password. Argon2 is a parameter; what a method does
-- outside of the database, the sending of an email, is part of what it returns.
pub mod Login
pub mod Profile
pub mod Reset
use Prim.Native.String.{◌++◌ as str_append}
use tax_professional_managem.Common.{
  ℕ, ◌+◌, ◌-◌, Bool, true, false, not, ◌&&◌, ◌||◌, List, [], ◌∷◌, ◌++◌, map, Option, none, some,
  ltb, leb, ◌==◌, if◌then◌else◌, keep, is_some, is_none, opt_eq, String, str_eq,
}
use tax_professional_managem.Common.Table.{find_first, update_where, count_where, order_by}
use tax_professional_managem.Types.{AuditAction, audit_action_index}
use tax_professional_managem.Db.{
  Db, User, UserStatus, Organization, Role, Member, MemberStatus, PasswordResetToken, AuditLog,
}
use tax_professional_managem.Db.Action.{
  Action, ok, err, AppError, conflict, unauthorized, forbidden, not_found, internal,
  email_already_exists, organization_slug_taken, invalid_credentials, not_a_member,
  invalid_reset_token, user_not_found, pure, throw, gets, or_throw, throw_if, transaction, ◌>>=◌,
  ◌>>◌, RequestMeta, log, entry,
}
use tax_professional_managem.Tokens.{
  TokenEnv, IssuedTokens, create_session, rotate_refresh_token, revoke_session,
  revoke_all_sessions_for_user, reissue_access_token_for_organization,
}

-- Argon2id with the deployment's pepper. `argon2_hash` takes its random salt first.
pub record AuthEnv : Type 0 where
  pub tokens : TokenEnv
  pub argon2_hash : String → String → String
  pub argon2_verify : String → String → Bool
  pub pepper : String
  pub web_app_origin : String

-- `PasswordService.hash` and `PasswordService.verify`
unfoldable pub hash_password : AuthEnv → String → String → String
hash_password env salt plain = env.argon2_hash salt (str_append plain env.pepper)

unfoldable pub verify_password : AuthEnv → String → String → Bool
verify_password env hash plain = env.argon2_verify hash (str_append plain env.pepper)

abbrev pub lockout_window_ms : ℕ
lockout_window_ms = 900000

abbrev pub lockout_max_failures : ℕ
lockout_max_failures = 10

abbrev pub reset_token_ttl_ms : ℕ
reset_token_ttl_ms = 1800000

abbrev pub is_active_user : UserStatus → Bool
is_active_user UserStatus.active = true
is_active_user _ = false

abbrev pub is_active_member : MemberStatus → Bool
is_active_member MemberStatus.active = true
is_active_member _ = false

pub record AuthResult : Type 0 where
  pub user_id : ℕ
  pub email : String
  pub full_name : String
  pub organization_id : Option ℕ
  pub access_token : String
  pub refresh_token : String
  pub expires_in : ℕ

abbrev pub to_auth_result : User → Option ℕ → IssuedTokens → AuthResult
to_auth_result user organization issued = record {
  user_id = user.id;
  email = user.email;
  full_name = user.full_name;
  organization_id = organization;
  access_token = issued.access_token;
  refresh_token = issued.refresh_token;
  expires_in = issued.expires_in;
}

pub record RegisterDto : Type 0 where
  pub email : String
  pub password : String
  pub full_name : String
  pub organization_name : String
  pub organization_slug : String

-- The three rows of a registration, with their new identifiers.
unfoldable pub insert_user : String → String → String → Action User
insert_user email password_hash full_name db =
    let row : User = record {
      id = db.next_id;
      email = email;
      password_hash = password_hash;
      full_name = full_name;
      status = UserStatus.active;
      last_login_at = none;
    } in
    (ok row, record db { next_id = db.next_id + 1; users = db.users ++ (row ∷ []) })

unfoldable pub insert_organization : String → String → Action Organization
insert_organization name slug db =
    let row : Organization = record { id = db.next_id; name = name; slug = slug } in
    (ok row, record db { next_id = db.next_id + 1; organizations = db.organizations ++ (row ∷ []) })

unfoldable pub insert_member : ℕ → ℕ → ℕ → MemberStatus → Option ℕ → Option ℕ → Action Member
insert_member organization user role status invited_by joined_at db =
    let row : Member = record {
      id = db.next_id;
      organization_id = organization;
      user_id = user;
      role_id = role;
      status = status;
      invited_by = invited_by;
      joined_at = joined_at;
    } in
    (ok row, record db { next_id = db.next_id + 1; members = db.members ++ (row ∷ []) })

abbrev pub is_firm_admin_role : Role → Bool
is_firm_admin_role r = is_none r.organization_id && str_eq r.name "FIRM_ADMIN" && r.is_system

unfoldable pub register :
    AuthEnv → ℕ → String → String → ℕ → RegisterDto → RequestMeta → Action AuthResult
register env now salt raw family dto meta = do
  existing ← gets (λ db. find_first (λ (u : User). str_eq u.email dto.email) db.users)
  throw_if (is_some existing) (conflict email_already_exists)
  existing_slug ← gets (λ db.
      find_first (λ (o : Organization). str_eq o.slug dto.organization_slug) db.organizations)
  throw_if (is_some existing_slug) (conflict organization_slug_taken)
  found ← gets (λ db. find_first is_firm_admin_role db.roles)
  role ← or_throw found internal
  (user, organization) ← transaction (do
    user ← insert_user dto.email (hash_password env salt dto.password) dto.full_name
    organization ← insert_organization dto.organization_name dto.organization_slug
    insert_member organization.id user.id role.id MemberStatus.active none (some now)
    pure (user, organization))
  log now meta (
      entry (some organization.id) (some user.id) AuditAction.organization_created "organization"
        (some organization.id) true)
  issued ← create_session env.tokens now user.id (some organization.id) raw family
  log now meta (
      entry (some organization.id) (some user.id) AuditAction.user_login "user" (some user.id) true)
  pure (to_auth_result user (some organization.id) issued)

-- The audit rows that count towards the lockout of a user.
abbrev pub is_recent_failure : ℕ → ℕ → AuditLog → Bool
is_recent_failure now user row =
    opt_eq row.actor_user_id user
    && (audit_action_index row.action == audit_action_index AuditAction.login_failed)
    && leb (now - lockout_window_ms) row.created_at

abbrev pub login_failure : Option ℕ → Option ℕ → ℕ → RequestMeta → Action (Unit {0})
login_failure actor resource now meta =
    log now meta (entry none actor AuditAction.login_failed "user" resource false)

-- `orderBy: { joinedAt: "desc" }`, where a missing date comes first.
abbrev pub joined_ge : Option ℕ → Option ℕ → Bool
joined_ge none b = true
joined_ge (some t) none = false
joined_ge (some t) (some u) = leb u t

abbrev pub joined_no_later : Member → Member → Bool
joined_no_later a b = joined_ge a.joined_at b.joined_at

abbrev pub sole_organization : List Member → Option ℕ
sole_organization (m ∷ []) = some m.organization_id
sole_organization _ = none

unfoldable pub set_last_login : ℕ → ℕ → Action (Unit {0})
set_last_login now id db = (
  ok tt,
  record db {
    users = update_where (λ u. u.id == id) (λ u. record u { last_login_at = some now }) db.users;
  },
)

-- The part of a login that no wrong password gets to.
unfoldable pub complete_login :
    AuthEnv → ℕ → String → ℕ → User → RequestMeta → Action (AuthResult × List ℕ)
complete_login env now raw family user meta = do
  memberships ← gets (λ db.
      order_by joined_no_later
        (keep (λ (m : Member). (m.user_id == user.id) && is_active_member m.status) db.members))
  issued ← create_session env.tokens now user.id (sole_organization memberships) raw family
  set_last_login now user.id
  log now meta (
      entry (sole_organization memberships) (some user.id) AuditAction.user_login "user"
        (some user.id) true)
  pure (
    to_auth_result user (sole_organization memberships) issued,
    map (λ (m : Member). m.organization_id) memberships,
  )

abbrev pub refuse_login : {A : Type 0} → Option ℕ → ℕ → RequestMeta → Action A
refuse_login actor now meta =
    login_failure actor actor now meta >> throw (unauthorized invalid_credentials)

-- The part of a login once the account is known.
unfoldable pub login_as :
    AuthEnv → ℕ → String → ℕ → String → RequestMeta → User → Action (AuthResult × List ℕ)
login_as env now raw family password meta user = do
  recent_failures ← gets (λ db. count_where (is_recent_failure now user.id) db.audit_logs)
  if leb lockout_max_failures recent_failures
      then refuse_login (some user.id) now meta
      else if not (verify_password env user.password_hash password)
          || not (is_active_user user.status)
      then refuse_login (some user.id) now meta
      else complete_login env now raw family user meta

abbrev pub login_found :
    AuthEnv → ℕ → String → ℕ → String → RequestMeta → Option User → Action (AuthResult × List ℕ)
login_found env now raw family password meta none = refuse_login none now meta
login_found env now raw family password meta (some user) =
    login_as env now raw family password meta user

unfoldable pub login :
    AuthEnv → ℕ → String → ℕ → String → String → RequestMeta → Action (AuthResult × List ℕ)
login env now raw family email password meta = do
  found ← gets (λ db. find_first (λ (u : User). str_eq u.email email) db.users)
  login_found env now raw family password meta found

abbrev pub refresh : AuthEnv → ℕ → String → String → Action IssuedTokens
refresh env now raw new_raw = rotate_refresh_token env.tokens now raw new_raw

unfoldable pub logout : ℕ → ℕ → ℕ → RequestMeta → Action (Unit {0})
logout now session user meta = do
  revoke_session now session
  log now meta (entry none (some user) AuditAction.user_logout "session" (some session) true)

unfoldable pub logout_all : ℕ → ℕ → RequestMeta → Action (Unit {0})
logout_all now user meta = do
  revoke_all_sessions_for_user now user
  log now meta (entry none (some user) AuditAction.user_logout "user" (some user) true)

abbrev pub is_member_of : ℕ → ℕ → Member → Bool
is_member_of organization user m = (m.organization_id == organization) && (m.user_id == user)

abbrev pub is_active_membership : Option Member → Bool
is_active_membership none = false
is_active_membership (some m) = is_active_member m.status

unfoldable pub switch_organization : AuthEnv → ℕ → ℕ → ℕ → ℕ → Action (String × ℕ)
switch_organization env now user session organization = do
  membership ← gets (λ db. find_first (is_member_of organization user) db.members)
  throw_if (not (is_active_membership membership)) (forbidden not_a_member)
  reissue_access_token_for_organization env.tokens now session organization
