-- ===== src/Tokens/Schedule.antt =====
-- Requests that interleave: a schedule is the sequence in which the stretches of the token service
-- happen to run, each at its own time, whoever makes them. A stretch is what a method does to the
-- database between two awaits, which is one statement or one transaction; what only reads is left
-- out. A schedule may hold stretches in orders in which no method has them.
use tax_professional_managem.Common.{ℕ, List, [], ◌∷◌, Option, String}
use tax_professional_managem.Db.{Db, RefreshToken}
use tax_professional_managem.Tokens.{
  TokenEnv, insert_session, insert_token, claim_token, kill_tokens, kill_session, issue_token,
  link_token, revoke_session, revoke_listed, update_session, move_session,
}
use tax_professional_managem.Tokens.Rows.{
  Advances, Advances-IsEffect, insert_session-Advances, insert_token-Advances, claim_token-Advances,
  kill_tokens-Advances, kill_session-Advances, issue_token-Advances, link_token-Advances,
  revoke_session-Advances, revoke_listed-Advances, move_session-Advances,
}

-- `createSession` opens and adds; `rotateRefreshToken` claims and, on the one branch, issues and
-- links, on the others ends the tokens of the family and then the session; a logout revokes, one from
-- all devices revokes what has been listed; a reissue moves a session to an organization.
pub data Call : Type 0 where
  opens : ℕ → Option ℕ → ℕ → Call
  adds : ℕ → String → ℕ → ℕ → Call
  claims : ℕ → Call
  ends_tokens ends_session : ℕ → Call
  issues : String → RefreshToken → Call
  links : ℕ → RefreshToken → Call
  revokes : ℕ → Call
  revokes_listed : ℕ → List ℕ → Call
  moves : ℕ → ℕ → Call

unfoldable pub step : TokenEnv → ℕ × Call → Db → Db
step env (now, opens user organization expires_at) db =
    (insert_session user organization now expires_at db).1
step env (now, adds session token_hash family expires_at) db =
    (insert_token session token_hash family expires_at db).1
step env (now, claims id) db = (claim_token now id db).1
step env (now, ends_tokens family) db = (kill_tokens now family db).1
step env (now, ends_session session) db = (kill_session now session db).1
step env (now, issues raw t) db = (issue_token env raw t db).1
step env (now, links id t) db = (link_token now id t db).1
step env (now, revokes session) db = (revoke_session now session db).1
step env (now, revokes_listed user ids) db = (revoke_listed now user ids db).1
step env (now, moves session organization) db =
    (update_session session (move_session organization) db).1

unfoldable pub run : TokenEnv → List (ℕ × Call) → Db → Db
run env [] db = db
run env (c ∷ cs) db = run env cs (step env c db)

step-Advances : (env : TokenEnv) (c : ℕ × Call) (db : Db) → Advances db (step env c db)
unfolding step
step-Advances env (now, opens user organization expires_at) db =
    (insert_session-Advances user organization now expires_at).at db
step-Advances env (now, adds session token_hash family expires_at) db =
    (insert_token-Advances session token_hash family expires_at).at db
step-Advances env (now, claims id) db = (claim_token-Advances now id).at db
step-Advances env (now, ends_tokens family) db = (kill_tokens-Advances now family).at db
step-Advances env (now, ends_session session) db = (kill_session-Advances now session).at db
step-Advances env (now, issues raw t) db = (issue_token-Advances env raw t).at db
step-Advances env (now, links id t) db = (link_token-Advances now id t).at db
step-Advances env (now, revokes session) db = (revoke_session-Advances now session).at db
step-Advances env (now, revokes_listed user ids) db = (revoke_listed-Advances now user ids).at db
step-Advances env (now, moves session organization) db =
    (move_session-Advances session organization).at db

pub run-Advances : (env : TokenEnv) (cs : List (ℕ × Call)) (db : Db) → Advances db (run env cs db)
unfolding run
run-Advances env [] db = Advances-IsEffect.unchanged db
run-Advances env (c ∷ cs) db =
    Advances-IsEffect.after db (step env c db) (run env cs (step env c db)) (step-Advances env c db)
      (run-Advances env cs (step env c db))
