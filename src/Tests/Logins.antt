-- ===== src/Tests/Logins.antt =====
-- Logging in and resetting the password, as the firm's one user.
use tax_professional_managem.Common.{
  ℕ, ◌≡◌, refl, true, false, List, [], ◌∷◌, some, arith, ◌⊎◌, All, String,
}
use tax_professional_managem.Db.{Db, PasswordResetToken}
use tax_professional_managem.Db.Action.{ok, err, unauthorized, invalid_reset_token, ◌>>=◌, log}
use tax_professional_managem.Tokens.{revoke_all_sessions_for_user, revoke_tokens, update_sessions}
use tax_professional_managem.Auth.{verify_password, hash_password, login}
use tax_professional_managem.Auth.Login.{
  is_ok, refused, may_log_in, noted, attempt_all, IsWrong, login_answers, login_lockout,
}
use tax_professional_managem.Auth.Reset.{
  reset_password, reset_check, reset_apply, set_password, set_used,
}
use tax_professional_managem.Auth.Reset.Laws.{
  IsUsable, password_of, has_live_session, reset_password_ok, reset_race,
}
use tax_professional_managem.Tests.{auth_env, meta, firm, user, reset_token}

login_answers_example :
    (is_ok (login auth_env 10 "raw" 7 "a@example.test" "guess" meta firm).0
      ≡ may_log_in auth_env 10 "guess" [] (some user))
    × ((may_log_in auth_env 10 "guess" [] (some user) ≡ true)
        ⊎ (login auth_env 10 "raw" 7 "a@example.test" "guess" meta firm
            ≡ (refused, noted 10 meta (some 1) firm)))
login_answers_example = login_answers auth_env 10 "raw" 7 "a@example.test" "guess" meta firm

abbrev guesses : List (ℕ × String)
guesses =
    (10, "1")
    ∷ (11, "2")
    ∷ (12, "3")
    ∷ (13, "4")
    ∷ (14, "5")
    ∷ (15, "6")
    ∷ (16, "7")
    ∷ (17, "8")
    ∷ (18, "9")
    ∷ (19, "10")
    ∷ []

All-IsWrong : All (IsWrong auth_env 20 user) guesses
unfolding verify_password
All-IsWrong = (
  (refl, omega arith),
  (
    (refl, omega arith),
    (
      (refl, omega arith),
      (
        (refl, omega arith),
        (
          (refl, omega arith),
          (
            (refl, omega arith),
            (
              (refl, omega arith),
              ((refl, omega arith), ((refl, omega arith), ((refl, omega arith), tt))),
            ),
          ),
        ),
      ),
    ),
  ),
)

login_lockout_example :
    (login auth_env 20 "raw" 7 "a@example.test" "right" meta
      (attempt_all auth_env "a@example.test" meta guesses firm)).0
    ≡ refused
login_lockout_example =
    login_lockout auth_env 20 "raw" 7 "a@example.test" "right" meta user guesses firm refl
      All-IsWrong (omega arith)

abbrev reset : Db
reset = (reset_password auth_env 10 "salt" "link" "fresh" meta firm).1

resets : reset_password auth_env 10 "salt" "link" "fresh" meta firm ≡ (ok tt, reset)
unfolding reset_password reset_check reset_apply set_password set_used revoke_all_sessions_for_user
    revoke_tokens update_sessions log ◌>>=◌
resets = refl

reset_password_ok_example :
    (t : PasswordResetToken) × IsUsable auth_env 10 "link" firm t
    × (password_of t.user_id reset ≡ some (hash_password auth_env "salt" "fresh"))
    × (has_live_session t.user_id reset ≡ false)
    × ((reset_password auth_env 12 "salt" "link" "again" meta reset).0
        ≡ err (unauthorized invalid_reset_token))
reset_password_ok_example =
    reset_password_ok auth_env 10 12 "salt" "salt" "link" "fresh" "again" meta firm reset resets

checks : reset_check auth_env 10 "link" meta firm ≡ (ok reset_token, firm)
unfolding reset_check ◌>>=◌ log
checks = refl

reset_race_example :
    ((reset_apply auth_env 10 "salt" "first" meta reset_token firm).0 ≡ ok tt)
    × (password_of 1 (reset_apply auth_env 10 "salt" "first" meta reset_token firm).1
        ≡ some (hash_password auth_env "salt" "first"))
    × ((reset_apply auth_env 11 "salt" "second" meta reset_token
          (reset_apply auth_env 10 "salt" "first" meta reset_token firm).1).0
        ≡ ok tt)
    × (password_of 1
          (reset_apply auth_env 11 "salt" "second" meta reset_token
            (reset_apply auth_env 10 "salt" "first" meta reset_token firm).1).1
        ≡ some (hash_password auth_env "salt" "second"))
reset_race_example =
    reset_race auth_env 10 11 "salt" "salt" "link" "first" "second" meta reset_token reset_token
      user firm checks refl refl
