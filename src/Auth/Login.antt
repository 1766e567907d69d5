-- ===== src/Auth/Login.antt =====
-- Who may log in, and the lockout of an account.
use tax_professional_managem.Common.{
  ℕ, ◌+◌, ◌-◌, ◌≤◌, ◌≡◌, refl, arith, Bool, true, false, ◌&&◌, List, [], ◌∷◌, ◌++◌, Option, none,
  some, inl, inr, ◌⊎◌, ltb, if◌then◌else◌, String, str_eq, Option-cases, All, length,
}
use tax_professional_managem.Common.Table.{find_first, count_where}
use tax_professional_managem.Types.{AuditAction}
use tax_professional_managem.Db.{Db, User, AuditLog}
use tax_professional_managem.Db.Action.{
  Result, ok, err, unauthorized, invalid_credentials, ◌>>=◌, RequestMeta, log, entry, audit_row,
}
use tax_professional_managem.Tokens.{create_session, insert_session, insert_token}
use tax_professional_managem.Auth.{
  AuthEnv, AuthResult, verify_password, is_active_user, lockout_window_ms, lockout_max_failures,
  is_recent_failure, set_last_login, complete_login, login_as, login_found, login, refuse_login,
}

abbrev pub is_ok {ℓ} : {A : Type ℓ} → Result A → Bool
is_ok (ok a) = true
is_ok (err e) = false

-- A login that is refused says no more than this.
abbrev pub refused {ℓ} : {A : Type ℓ} → Result A
refused = err (unauthorized invalid_credentials)

complete_login-is_ok :
    (env : AuthEnv) (now : ℕ) (raw : String) (family : ℕ) (user : User) (meta : RequestMeta)
    (db : Db)
    → is_ok (complete_login env now raw family user meta db).0 ≡ true
unfolding complete_login ◌>>=◌ create_session insert_session insert_token set_last_login log
complete_login-is_ok env now raw family user meta db = refl

-- The account is known, not locked and active, and the password is the right one.
abbrev pub may_log_in : AuthEnv → ℕ → String → List AuditLog → Option User → Bool
may_log_in env now password logs none = false
may_log_in env now password logs (some u) =
    ltb (count_where (is_recent_failure now u.id) logs) lockout_max_failures
    && verify_password env u.password_hash password
    && is_active_user u.status

abbrev pub account : String → Db → Option User
account email db = find_first (λ (u : User). str_eq u.email email) db.users

abbrev pub actor : Option User → Option ℕ
actor none = none
actor (some u) = some u.id

-- A refused login leaves one more audit row, and nothing else.
abbrev pub noted : ℕ → RequestMeta → Option ℕ → Db → Db
noted now meta who db = record db {
  audit_logs =
      db.audit_logs
      ++ (audit_row now meta (entry none who AuditAction.login_failed "user" who false) ∷ []);
}

login_as-cases :
    (env : AuthEnv) (now : ℕ) (raw : String) (family : ℕ) (password : String) (meta : RequestMeta)
    (u : User) (db : Db)
    → login_as env now raw family password meta u db ≡ (
        if may_log_in env now password db.audit_logs (some u)
        then complete_login env now raw family u meta db
        else (refused, noted now meta (some u.id) db))
unfolding login_as ◌>>=◌ log
login_as-cases env now raw family password meta u db = ground arith

login-cases :
    (env : AuthEnv) (now : ℕ) (raw : String) (family : ℕ) (email password : String)
    (meta : RequestMeta) (db : Db) (o : Option User)
    → account email db ≡ o
    → login env now raw family email password meta db
      ≡ login_found env now raw family password meta o db
unfolding login ◌>>=◌
login-cases env now raw family email password meta db o e = rw e

pub login_answers :
    (env : AuthEnv) (now : ℕ) (raw : String) (family : ℕ) (email password : String)
    (meta : RequestMeta) (db : Db)
    → let may = may_log_in env now password db.audit_logs (account email db) in
      let result = login env now raw family email password meta db in
      (is_ok result.0 ≡ may)
      × ((may ≡ true) ⊎ (result ≡ (refused, noted now meta (actor (account email db)) db)))
unfolding ◌>>=◌ log
login_answers env now raw family email password meta db = elim (Option-cases (account email db)) [
  | inl unknown ↦
      rw (login-cases env now raw family email password meta db none unknown, unknown)
        (refl, inr (unknown_refused now meta db))
  | inr (u, known) ↦
      rw
        (
          login-cases env now raw family email password meta db (some u) known,
          known,
          login_as-cases env now raw family password meta u db,
        )
        (decided (may_log_in env now password db.audit_logs (some u)) u)
]
  where
    unknown_refused :
        (now : ℕ) (meta : RequestMeta) (db : Db)
        → refuse_login none now meta db
          ≡ (refused {A = AuthResult × List ℕ}, noted now meta none db)
    unknown_refused now meta db = refl

    decided :
        (may : Bool) (u : User)
        → let result =
            if may
            then complete_login env now raw family u meta db
            else (refused, noted now meta (some u.id) db) in
          (is_ok result.0 ≡ may)
          × ((may ≡ true) ⊎ (result ≡ (refused, noted now meta (some u.id) db)))
    decided true u = (complete_login-is_ok env now raw family u meta db, inl refl)
    decided false u = (refl, inr refl)

count-append :
    (p : AuditLog → Bool) (xs ys : List AuditLog)
    → count_where p (xs ++ ys) ≡ count_where p xs + count_where p ys
count-append p [] ys = omega arith
count-append p (x ∷ xs) ys = omega (arith, count-append p xs ys)

-- Attempts with wrong passwords, each at its time.
abbrev pub attempt_all : AuthEnv → String → RequestMeta → List (ℕ × String) → Db → Db
attempt_all env email meta [] db = db
attempt_all env email meta ((now, password) ∷ tries) db =
    attempt_all env email meta tries (login env now "" 0 email password meta db).1

abbrev pub IsWrong : AuthEnv → ℕ → User → ℕ × String → Type 0
IsWrong env now u (at_time, password) =
    (verify_password env u.password_hash password ≡ false) × (now - lockout_window_ms ≤ at_time)

wrong_refused :
    (env : AuthEnv) (now : ℕ) (email password : String) (meta : RequestMeta) (db : Db) (u : User)
    → account email db ≡ some u
    → verify_password env u.password_hash password ≡ false
    → (login env now "" 0 email password meta db).1 ≡ noted now meta (some u.id) db
wrong_refused env now email password meta db u known wrong =
    rw
      (
        login-cases env now "" 0 email password meta db (some u) known,
        login_as-cases env now "" 0 password meta u db,
      )
      (ground arith)

failure_counts :
    (now t user : ℕ) (meta : RequestMeta)
    → now - lockout_window_ms ≤ t
    → is_recent_failure now user (
        audit_row t meta (entry none (some user) AuditAction.login_failed "user" (some user) false))
      ≡ true
failure_counts now t user meta h = ground arith

failure_counted :
    (now t user : ℕ) (meta : RequestMeta) (logs : List AuditLog)
    → now - lockout_window_ms ≤ t
    → count_where (is_recent_failure now user) (
        logs
        ++ (audit_row t meta
              (entry none (some user) AuditAction.login_failed "user" (some user) false)
            ∷ []))
      ≡ count_where (is_recent_failure now user) logs + 1
failure_counted now t user meta logs h = rw (count-append, failure_counts now t user meta h)

attempts_count :
    (env : AuthEnv) (now : ℕ) (email : String) (meta : RequestMeta) (u : User)
    (tries : List (ℕ × String)) (db : Db)
    → account email db ≡ some u
    → All (IsWrong env now u) tries
    → (account email (attempt_all env email meta tries db) ≡ some u)
      × (count_where (is_recent_failure now u.id) db.audit_logs + length tries
          ≤ count_where
              (is_recent_failure now u.id)
              (attempt_all env email meta tries db).audit_logs)
attempts_count env now email meta u [] db known wrong = (known, omega arith)
attempts_count env now email meta u ((t, password) ∷ tries) db known wrong =
    let step = wrong_refused env t email password meta db u known wrong.0.0 in
    let next = noted t meta (some u.id) db in
    let (same, more) = attempts_count env now email meta u tries next known wrong.1 in
    let one = failure_counted now t u.id meta db.audit_logs wrong.0.1 in
    rw (step, attempt_all) (same, omega arith)

-- After ten wrong passwords within the window, the account is locked: even the right password is
-- refused.
pub login_lockout :
    (env : AuthEnv) (now : ℕ) (raw : String) (family : ℕ) (email password : String)
    (meta : RequestMeta) (u : User) (tries : List (ℕ × String)) (db : Db)
    → account email db ≡ some u
    → All (IsWrong env now u) tries
    → lockout_max_failures ≤ length tries
    → (login env now raw family email password meta (attempt_all env email meta tries db)).0
      ≡ refused
login_lockout env now raw family email password meta u tries db known wrong many =
    let db' = attempt_all env email meta tries db in
    let (same, more) = attempts_count env now email meta u tries db known wrong in
    rw
      (
        login-cases env now raw family email password meta db' (some u) same,
        login_as-cases env now raw family password meta u db',
      )
      (ground arith)
