-- ===== src/Auth/Reset.antt =====
-- `forgotPassword` and `resetPassword` of apps/api/src/auth/auth.service.ts. `reset_check` and
-- `reset_apply` are the stretches of a reset before and after the new password is hashed, between
-- which another request may come.
pub mod Laws
use mathlib.Core.Path.{subst}
use Prim.Native.String.{◌++◌ as str_append}
use tax_professional_managem.Common.{
  ℕ, ◌+◌, ◌≡◌, refl, arith, Bool, true, false, not, ◌&&◌, ◌||◌, List, [], ◌∷◌, ◌++◌, Option, none,
  some, inl, inr, ltb, ◌==◌, if◌then◌else◌, is_some, is_none, String, str_eq, Option-cases,
  Bool-cases, ap,
}
use tax_professional_managem.Common.Table.{find_first, update_where, find_first-update}
use tax_professional_managem.Types.{AuditAction}
use tax_professional_managem.Db.{Db, User, PasswordResetToken}
use tax_professional_managem.Db.Action.{
  Action, ok, err, unauthorized, internal, invalid_reset_token, pure, throw, gets, or_throw, modify,
  transaction, ◌>>=◌, ◌>>◌, RequestMeta, log, entry,
}
use tax_professional_managem.Tokens.{revoke_all_sessions_for_user}
use tax_professional_managem.Auth.{AuthEnv, hash_password, reset_token_ttl_ms}

-- The email that carries the link; the rest of its text is fixed.
pub record Email : Type 0 where
  pub to : String
  pub subject : String
  pub reset_url : String

unfoldable pub insert_reset_token : ℕ → String → ℕ → Action PasswordResetToken
insert_reset_token user token_hash expires_at db =
    let row : PasswordResetToken = record {
      id = db.next_id;
      user_id = user;
      token_hash = token_hash;
      expires_at = expires_at;
      used_at = none;
    } in
    (ok row, record db { next_id = db.next_id + 1; reset_tokens = db.reset_tokens ++ (row ∷ []) })

abbrev pub forgot_found : AuthEnv → ℕ → String → RequestMeta → Option User → Action (Option Email)
forgot_found env now raw meta none = do
  log now meta (entry none none AuditAction.password_reset_requested "user" none false)
  pure none
forgot_found env now raw meta (some user) = do
  insert_reset_token user.id (env.tokens.hash raw) (now + reset_token_ttl_ms)
  log now meta
      (entry none (some user.id) AuditAction.password_reset_requested "user" (some user.id) true)
  pure (
      some (record {
        to = user.email;
        subject = "Reset your Tax Practice Platform password";
        reset_url = str_append env.web_app_origin (str_append "/reset-password?token=" raw);
      }))

-- Returns the email that is sent; the caller of the endpoint is answered the same either way.
unfoldable pub forgot_password : AuthEnv → ℕ → String → String → RequestMeta → Action (Option Email)
forgot_password env now raw email meta = do
  found ← gets (λ db. find_first (λ (u : User). str_eq u.email email) db.users)
  forgot_found env now raw meta found

abbrev pub token_owner : Option PasswordResetToken → Option ℕ
token_owner none = none
token_owner (some t) = some t.user_id

-- Unknown, used, or too old.
abbrev pub is_refused : ℕ → Option PasswordResetToken → Bool
is_refused now none = true
is_refused now (some t) = is_some t.used_at || ltb t.expires_at now

unfoldable pub reset_check : AuthEnv → ℕ → String → RequestMeta → Action PasswordResetToken
reset_check env now raw meta = do
  found ← gets (λ db.
      find_first (λ (t : PasswordResetToken). str_eq t.token_hash (env.tokens.hash raw))
        db.reset_tokens)
  if is_refused now found
      then log now meta
          (entry none (token_owner found) AuditAction.password_reset_completed "user" none false)
        >> throw (unauthorized invalid_reset_token)
      else or_throw found internal

-- `user.update` and `passwordResetToken.update` of one row, which fail where there is none.
unfoldable pub set_password : ℕ → String → Action (Unit {0})
set_password id password_hash = do
  found ← gets (λ db. find_first (λ (u : User). u.id == id) db.users)
  or_throw found internal
  modify (λ db. record db {
    users =
        update_where (λ u. u.id == id) (λ u. record u { password_hash = password_hash }) db.users;
  })

unfoldable pub set_used : ℕ → ℕ → Action (Unit {0})
set_used id now = do
  found ← gets (λ db. find_first (λ (t : PasswordResetToken). t.id == id) db.reset_tokens)
  or_throw found internal
  modify (λ db. record db {
    reset_tokens =
        update_where (λ t. t.id == id) (λ t. record t { used_at = some now }) db.reset_tokens;
  })

unfoldable pub reset_apply :
    AuthEnv → ℕ → String → String → RequestMeta → PasswordResetToken → Action (Unit {0})
reset_apply env now salt new_password meta token = do
  transaction
      (do set_password token.user_id (hash_password env salt new_password); set_used token.id now)
  revoke_all_sessions_for_user now token.user_id
  log now meta (
      entry none (some token.user_id) AuditAction.password_reset_completed "user"
        (some token.user_id) true)

unfoldable pub reset_password :
    AuthEnv → ℕ → String → String → String → RequestMeta → Action (Unit {0})
reset_password env now salt raw new_password meta = do
  token ← reset_check env now raw meta
  reset_apply env now salt new_password meta token
