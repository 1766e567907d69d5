-- ===== src/Db/Action.antt =====
-- The body of a service method: state and exceptions. The database comes back after a throw too,
-- since what was written before it stays written. `AppError` is apps/api/src/common/errors, and
-- `log` is the writer of apps/api/src/audit/audit.service.ts.
pub mod Effects
use tax_professional_managem.Common.{
  ℕ, suc, Bool, true, false, [], ◌∷◌, ◌++◌, Option, none, some, String,
}
use tax_professional_managem.Types.{AuditAction}
use tax_professional_managem.Db.{Db, AuditLog}

-- The codes that the services throw.
pub data ErrorCode : Type 0 where
  invalid_refresh_token refresh_token_expired session_revoked refresh_token_reuse_detected :
      ErrorCode
  email_already_exists organization_slug_taken invalid_credentials not_a_member : ErrorCode
  invalid_reset_token user_not_found : ErrorCode
  client_not_found portal_account_not_found no_active_credential portal_session_not_found :
      ErrorCode
  invalid_session_token session_token_expired token_already_used : ErrorCode
  credential_not_found credential_reveal_disabled reauthentication_failed : ErrorCode
  compliance_item_not_found compliance_type_not_found member_not_found invalid_financial_year :
      ErrorCode
  unauthorized_request no_organization_context forbidden_request : ErrorCode
  role_not_found already_a_member organization_not_found : ErrorCode
  task_not_found notification_not_found assignment_not_found client_data_integrity : ErrorCode
  document_not_found document_category_not_found empty_file file_too_large : ErrorCode
  unsupported_file_type upload_rejected portal_not_found : ErrorCode

-- `internal` is any other exception: `throw new Error(…)`, or a failure of a library.
pub data AppError : Type 0 where
  not_found conflict unauthorized forbidden bad_request : ErrorCode → AppError
  server_error : ErrorCode → AppError
  internal : AppError

pub data Result {ℓ} (A : Type ℓ) : Type ℓ where
  ok : A → Result A
  err : AppError → Result A

abbrev pub Action : Type 0 → Type 0
Action A = Db → Result A × Db

module _ {A : Type 0} where
  unfoldable pub pure : A → Action A
  pure a db = (ok a, db)

  unfoldable pub throw : AppError → Action A
  throw e db = (err e, db)

  unfoldable pub gets : (Db → A) → Action A
  gets f db = (ok (f db), db)

  -- `if (!row) throw e`
  unfoldable pub or_throw : Option A → AppError → Action A
  or_throw none e db = (err e, db)
  or_throw (some a) e db = (ok a, db)

unfoldable pub throw_if : Bool → AppError → Action (Unit {0})
throw_if true e db = (err e, db)
throw_if false e db = (ok tt, db)

unfoldable pub modify : (Db → Db) → Action (Unit {0})
modify f db = (ok tt, f db)

-- The identifier of a row to be created.
unfoldable pub fresh_id : Action ℕ
fresh_id db = (ok db.next_id, record db { next_id = suc db.next_id })

abbrev proceed : {A B : Type 0} → Result A → (A → Action B) → Action B
proceed (ok a) f db = f a db
proceed (err e) f db = (err e, db)

-- `$transaction`: what throws half-way is rolled back.
abbrev roll_back : {A : Type 0} → Db → Result A × Db → Result A × Db
roll_back db (ok a, db') = (ok a, db')
roll_back db (err e, db') = (err e, db)

unfoldable pub transaction : {A : Type 0} → Action A → Action A
transaction m db = roll_back db (m db)

-- `try { … } catch { throw e; }`
abbrev replace_error : {A : Type 0} → AppError → Result A × Db → Result A × Db
replace_error e (ok a, db) = (ok a, db)
replace_error e (err _, db) = (err e, db)

unfoldable pub rethrow : {A : Type 0} → AppError → Action A → Action A
rethrow e m db = replace_error e (m db)

-- Whoever unfolds this sees through the other actions too.
infixl 5 ◌>>=◌ ◌>>◌
unfoldable pub ◌>>=◌ : {A B : Type 0} → Action A → (A → Action B) → Action B
unfolding pure throw gets or_throw throw_if modify fresh_id transaction rethrow
◌>>=◌ m f db = let (r, db') = m db in proceed r f db'

abbrev pub ◌>>◌ : {A B : Type 0} → Action A → Action B → Action B
m >> k = m >>= λ _. k

-- `RequestMeta`
pub record RequestMeta : Type 0 where
  pub ip : Option String
  pub user_agent : Option String

-- An entry of the audit log, but for its metadata.
pub record AuditEntry : Type 0 where
  pub organization_id : Option ℕ
  pub actor_user_id : Option ℕ
  pub action : AuditAction
  pub resource_type : String
  pub resource_id : Option ℕ
  pub succeeded : Bool

abbrev pub audit_row : ℕ → RequestMeta → AuditEntry → AuditLog
audit_row now meta e = record {
  organization_id = e.organization_id;
  actor_user_id = e.actor_user_id;
  action = e.action;
  resource_type = e.resource_type;
  resource_id = e.resource_id;
  succeeded = e.succeeded;
  ip_address = meta.ip;
  user_agent = meta.user_agent;
  created_at = now;
}

-- `AuditService.log`: the log is only ever appended to.
unfoldable pub log : ℕ → RequestMeta → AuditEntry → Action (Unit {0})
log now meta e db = (ok tt, record db { audit_logs = db.audit_logs ++ (audit_row now meta e ∷ []) })

abbrev pub entry : Option ℕ → Option ℕ → AuditAction → String → Option ℕ → Bool → AuditEntry
entry organization actor action kind resource succeeded = record {
  organization_id = organization;
  actor_user_id = actor;
  action = action;
  resource_type = kind;
  resource_id = resource;
  succeeded = succeeded;
}
