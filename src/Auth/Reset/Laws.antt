-- ===== src/Auth/Reset/Laws.antt =====
-- A reset link is good for one reset and ends every session, but two requests that have both been
-- checked before either is applied both change the password.
use mathlib.Core.Path.{subst, sym, ◌∙◌}
use mathlib.Core.Option.{map as map_option}
use tax_professional_managem.Common.{
  ℕ, ◌≤◌, ◌≡◌, ◌⊎◌, refl, arith, Bool, true, false, ◌&&◌, List, Option, none, some, inl, inr, ◌==◌,
  ==_self, is_none, String, str_eq, Option-cases, Bool-cases, ap, any,
}
use tax_professional_managem.Common.Table.{
  find_first, update_where, updated, find_first-update, find_first_sound, any-update_self,
}
use tax_professional_managem.Types.{AuditAction}
use tax_professional_managem.Db.{Db, User, PasswordResetToken, Session}
use tax_professional_managem.Db.Action.{
  ok, err, unauthorized, invalid_reset_token, ◌>>=◌, RequestMeta, log, entry,
}
use tax_professional_managem.Tokens.{
  revoke_all_sessions_for_user, update_sessions, revoke_tokens, revoke_session_row,
}
use tax_professional_managem.Auth.{AuthEnv, hash_password}
use tax_professional_managem.Auth.Reset.{
  is_refused, reset_check, set_password, set_used, reset_apply, reset_password,
}

abbrev pub user_of : ℕ → List User → Option User
user_of id users = find_first (λ (u : User). u.id == id) users

abbrev pub token_of : ℕ → List PasswordResetToken → Option PasswordResetToken
token_of id tokens = find_first (λ (t : PasswordResetToken). t.id == id) tokens

abbrev pub link_of : AuthEnv → String → List PasswordResetToken → Option PasswordResetToken
link_of env raw tokens =
    find_first (λ (t : PasswordResetToken). str_eq t.token_hash (env.tokens.hash raw)) tokens

abbrev with_password : String → User → User
with_password hash u = record u { password_hash = hash }

abbrev with_use : ℕ → PasswordResetToken → PasswordResetToken
with_use now t = record t { used_at = some now }

-- The database when both rows of the transaction have been written.
abbrev written : ℕ → ℕ → ℕ → String → Db → Db
written now user token hash db = record db {
  users = update_where (λ u. u.id == user) (with_password hash) db.users;
  reset_tokens = update_where (λ t. t.id == token) (with_use now) db.reset_tokens;
}

abbrev applied : ℕ → ℕ → ℕ → String → RequestMeta → Db → Db
applied now user token hash meta db =
    (log now meta
      (entry none (some user) AuditAction.password_reset_completed "user" (some user) true)
      (revoke_all_sessions_for_user now user (written now user token hash db)).1).1

revoke_all_ok :
    (now user : ℕ) (db : Db)
    → revoke_all_sessions_for_user now user db
      ≡ (ok tt, (revoke_all_sessions_for_user now user db).1)
unfolding revoke_all_sessions_for_user ◌>>=◌ update_sessions revoke_tokens
revoke_all_ok now user db = refl

reset_apply_lem :
    (env : AuthEnv) (now : ℕ) (salt password : String) (meta : RequestMeta)
    (t t' : PasswordResetToken) (u : User) (db : Db)
    → user_of t.user_id db.users ≡ some u
    → token_of t.id db.reset_tokens ≡ some t'
    → reset_apply env now salt password meta t db
      ≡ (ok tt, applied now t.user_id t.id (hash_password env salt password) meta db)
unfolding reset_apply ◌>>=◌ set_password set_used log
reset_apply_lem env now salt password meta t t' u db known there = rw (
  known,
  there,
  revoke_all_ok now t.user_id (written now t.user_id t.id (hash_password env salt password) db),
)

-- What is left of the database by a reset: the rest of the tables are as `written` left them.
applied-tables :
    (now user token : ℕ) (hash : String) (meta : RequestMeta) (db : Db)
    → let done = applied now user token hash meta db in
      (done.users ≡ update_where (λ u. u.id == user) (with_password hash) db.users)
      × (done.reset_tokens ≡ update_where (λ t. t.id == token) (with_use now) db.reset_tokens)
      × (done.sessions
          ≡ (revoke_all_sessions_for_user now user (written now user token hash db)).1.sessions)
unfolding revoke_all_sessions_for_user ◌>>=◌ update_sessions revoke_tokens log
applied-tables now user token hash meta db = (refl, refl, refl)

-- The row that a link finds, once it is checked.
pub record IsUsable (env : AuthEnv) (now : ℕ) (raw : String) (db : Db) (t : PasswordResetToken)
    : Type 0 where
  pub found : link_of env raw db.reset_tokens ≡ some t
  pub unused : t.used_at ≡ none
  pub in_time : now ≤ t.expires_at

reset_password-cases :
    (env : AuthEnv) (now : ℕ) (salt raw password : String) (meta : RequestMeta) (db : Db)
    → ((reset_password env now salt raw password meta db).0
        ≡ err (unauthorized invalid_reset_token))
      ⊎ ((t : PasswordResetToken) × (reset_password env now salt raw password meta db
            ≡ reset_apply env now salt password meta t db)
          × IsUsable env now raw db t)
unfolding reset_password reset_check ◌>>=◌ log
reset_password-cases env now salt raw password meta db =
    elim (Option-cases (link_of env raw db.reset_tokens)) [
      | inl unknown ↦ inl (rw unknown)
      | inr (t, found) ↦ elim (Bool-cases (is_refused now (some t))) [
        | inl refused ↦ inl (rw (found, refused))
        | inr good ↦ inr (
          t,
          rw (found, good),
          record { found = found; unused = ground arith; in_time = ground arith },
        )
      ]
    ]

-- The columns that a reset is about.
abbrev pub password_of : ℕ → Db → Option String
password_of id db = map_option (λ (u : User). u.password_hash) (user_of id db.users)

abbrev pub has_live_session : ℕ → Db → Bool
has_live_session user db =
    any (λ (s : Session). (s.user_id == user) && is_none s.revoked_at) db.sessions

applied-password :
    (now user token : ℕ) (hash : String) (meta : RequestMeta) (db : Db) (u : User)
    → user_of user db.users ≡ some u
    → password_of user (applied now user token hash meta db) ≡ some hash
applied-password now user token hash meta db u known =
    rw
      (
        (applied-tables now user token hash meta db).0,
        find_first-update (λ (x : User). x.id == user) _ (with_password hash) db.users (λ x. refl),
        known,
      )
      (ground (arith, find_first_sound (λ (x : User). x.id == user) db.users u known))

applied-user :
    (now user token : ℕ) (hash : String) (meta : RequestMeta) (db : Db) (u : User)
    → user_of user db.users ≡ some u
    → user_of user (applied now user token hash meta db).users
      ≡ some (updated (λ x. x.id == user) (with_password hash) u)
applied-user now user token hash meta db u known = rw (
  (applied-tables now user token hash meta db).0,
  find_first-update (λ (x : User). x.id == user) _ (with_password hash) db.users (λ x. refl),
  known,
)

applied-token :
    (now user token : ℕ) (hash : String) (meta : RequestMeta) (db : Db) (t : PasswordResetToken)
    → token_of token db.reset_tokens ≡ some t
    → token_of token (applied now user token hash meta db).reset_tokens
      ≡ some (updated (λ x. x.id == token) (with_use now) t)
applied-token now user token hash meta db t there = rw (
  (applied-tables now user token hash meta db).1,
  find_first-update (λ (x : PasswordResetToken). x.id == token) _ (with_use now) db.reset_tokens
      (λ x. refl),
  there,
)

applied_ends_sessions :
    (now user token : ℕ) (hash : String) (meta : RequestMeta) (db : Db)
    → has_live_session user (applied now user token hash meta db) ≡ false
unfolding revoke_all_sessions_for_user ◌>>=◌ update_sessions revoke_tokens log
applied_ends_sessions now user token hash meta db =
    any-update_self (λ (s : Session). (s.user_id == user) && is_none s.revoked_at)
      (revoke_session_row now) db.sessions (λ s. ground arith)

applied-link :
    (env : AuthEnv) (raw : String) (now later user : ℕ) (hash : String) (meta : RequestMeta)
    (db : Db) (t : PasswordResetToken)
    → link_of env raw db.reset_tokens ≡ some t
    → is_refused later (link_of env raw (applied now user t.id hash meta db).reset_tokens) ≡ true
applied-link env raw now later user hash meta db t found = rw (
  (applied-tables now user t.id hash meta db).1,
  find_first-update (λ (x : PasswordResetToken). str_eq x.token_hash (env.tokens.hash raw)) _
      (with_use now) db.reset_tokens (λ x. refl),
  found,
  ==_self t.id,
)

reset_apply_ok :
    (env : AuthEnv) (now : ℕ) (salt password : String) (meta : RequestMeta) (t : PasswordResetToken)
    (db db' : Db)
    → reset_apply env now salt password meta t db ≡ (ok tt, db')
    → ((u : User) × (user_of t.user_id db.users ≡ some u))
      × ((t' : PasswordResetToken) × (token_of t.id db.reset_tokens ≡ some t'))
unfolding reset_apply ◌>>=◌ set_password set_used
reset_apply_ok env now salt password meta t db db' e =
    elim (Option-cases (user_of t.user_id db.users)) [
      | inl gone ↦ absurd (ground arith)
      | inr user ↦ elim (Option-cases (token_of t.id db.reset_tokens)) [
        | inl gone ↦ absurd (ground arith)
        | inr token ↦ (user, token)
      ]
    ]

refused_again :
    (env : AuthEnv) (now : ℕ) (salt raw password : String) (meta : RequestMeta) (db : Db)
    → is_refused now (link_of env raw db.reset_tokens) ≡ true
    → (reset_password env now salt raw password meta db).0 ≡ err (unauthorized invalid_reset_token)
unfolding reset_password reset_check ◌>>=◌ log
refused_again env now salt raw password meta db h = rw h

-- A reset that succeeds was made with a link that is on record, not used before and in time. It
-- sets the new password, leaves the user without a live session, and the same link is refused from
-- then on.
pub reset_password_ok :
    (env : AuthEnv) (now later : ℕ) (salt salt' raw password password' : String)
    (meta : RequestMeta) (db db' : Db)
    → reset_password env now salt raw password meta db ≡ (ok tt, db')
    → (t : PasswordResetToken) × IsUsable env now raw db t
      × (password_of t.user_id db' ≡ some (hash_password env salt password))
      × (has_live_session t.user_id db' ≡ false)
      × ((reset_password env later salt' raw password' meta db').0
          ≡ err (unauthorized invalid_reset_token))
reset_password_ok env now later salt salt' raw password password' meta db db' e =
    elim (reset_password-cases env now salt raw password meta db) [
      | inl refused ↦ absurd (cc (ap (λ p. p.0) e))
      | inr (t, same, usable) ↦
          let ((u, known), (t', there)) =
            reset_apply_ok env now salt password meta t db db' (sym same ∙ e) in
          let hash = hash_password env salt password in
          let done : applied now t.user_id t.id hash meta db ≡ db' =
            ap (λ p. p.1)
              (sym (reset_apply_lem env now salt password meta t t' u db known there)
                ∙ sym same
                ∙ e) in
          (
            t,
            usable,
            subst (λ d. password_of t.user_id d ≡ some hash) done
                (applied-password now t.user_id t.id hash meta db u known),
            subst (λ d. has_live_session t.user_id d ≡ false) done
                (applied_ends_sessions now t.user_id t.id hash meta db),
            refused_again env later salt' raw password' meta db' (
                subst (λ (d : Db). is_refused later (link_of env raw d.reset_tokens) ≡ true) done
                  (applied-link env raw now later t.user_id hash meta db t usable.found)),
          )
    ]

-- Two requests with one link that were both checked before either was applied both succeed: the
-- second overwrites the password that the first has set.
pub reset_race :
    (env : AuthEnv) (now later : ℕ) (salt salt' raw first second : String) (meta : RequestMeta)
    (t t' : PasswordResetToken) (u : User) (db : Db)
    → reset_check env now raw meta db ≡ (ok t, db)
    → user_of t.user_id db.users ≡ some u
    → token_of t.id db.reset_tokens ≡ some t'
    → let (r1, db1) = reset_apply env now salt first meta t db in
      let (r2, db2) = reset_apply env later salt' second meta t db1 in
      (r1 ≡ ok tt)
      × (password_of t.user_id db1 ≡ some (hash_password env salt first))
      × (r2 ≡ ok tt)
      × (password_of t.user_id db2 ≡ some (hash_password env salt' second))
reset_race env now later salt salt' raw first second meta t t' u db checked known there =
    let hash = hash_password env salt first in
    let hash' = hash_password env salt' second in
    let db1 = applied now t.user_id t.id hash meta db in
    let known' = applied-user now t.user_id t.id hash meta db u known in
    let there' = applied-token now t.user_id t.id hash meta db t' there in
    rw
      (
        reset_apply_lem env now salt first meta t t' u db known there,
        reset_apply_lem env later salt' second meta t _ _ db1 known' there',
      )
      (
        refl,
        applied-password now t.user_id t.id hash meta db u known,
        refl,
        applied-password later t.user_id t.id hash' meta db1 _ known',
      )
