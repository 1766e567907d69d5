-- ===== src/Tokens/Reuse.antt =====
-- A refresh token that is presented more than once to `rotateRefreshToken` of
-- apps/api/src/auth/token.service.ts, while other requests come between any two of its awaits.
use tax_professional_managem.Common.{
  ℕ, suc, ◌<◌, ◌≡◌, refl, ap, true, false, List, [], ◌∷◌, some, arith, ◌==◌, if◌then◌else◌,
  Bool-cases, inl, inr, String,
}
use mathlib.Core.Path.{subst}
use tax_professional_managem.Common.Table.{find_first, any_of_count, update_where}
use tax_professional_managem.Db.{Db, Session, RefreshToken}
use tax_professional_managem.Db.Action.{
  Action, Result, ok, err, unauthorized, refresh_token_reuse_detected, session_revoked, pure, throw,
  ◌>>=◌, ◌>>◌,
}
use tax_professional_managem.Tokens.{
  TokenEnv, is_session, is_claimable, claim_token, revoke_tokens, kill_tokens, kill_session,
  update_session, revoke_session_row, rotate_refresh_token, reissue_access_token_for_organization,
}
use tax_professional_managem.Tokens.Rows.{
  IsSpent, is_there, is_revoked, claim_token-Advances, kill_tokens-Advances,
}
use tax_professional_managem.Tokens.Schedule.{Call, run, run-Advances}
use tax_professional_managem.Tokens.Rotation.{claimed-IsSpent, revoke_row-is_revoked}
use tax_professional_managem.Tokens.Revocation.{is_issued_for, not_issued, not_reissued}

-- What the other requests do in the meantime.
abbrev others : TokenEnv → List (ℕ × Call) → Action (Unit {0})
others env cs db = (ok tt, run env cs db)

-- The claim of a rotation that has read the token `t`, and what follows if it changed no row:
-- `first` comes after the claim, and `second` between the two statements of `killFamily`.
unfoldable pub claim_among :
    TokenEnv → ℕ → List (ℕ × Call) → List (ℕ × Call) → RefreshToken → Action (Unit {0})
claim_among env now first second t = do
  count ← claim_token now t.id
  others env first
  if count == 0
      then kill_tokens now t.family_id
        >> (others env second
            >> (kill_session now t.session_id >> throw (unauthorized refresh_token_reuse_detected)))
      else pure tt

claim_token_ok :
    (now id : ℕ) (db db' : Db) (count : ℕ)
    → claim_token now id db ≡ (ok count, db')
    → IsSpent id db'.refresh_tokens
unfolding claim_token ◌>>=◌ revoke_tokens
claim_token_ok now id db db' count e =
    let table : update_where (is_claimable id) _ db.refresh_tokens ≡ db'.refresh_tokens =
      ap (λ (r : Result ℕ × Db). r.1.refresh_tokens) e in
    subst (IsSpent id) table (claimed-IsSpent now id db.refresh_tokens)

claim_token_spent :
    (now id : ℕ) (db : Db)
    → IsSpent id db.refresh_tokens
    → claim_token now id db ≡ (ok 0, (claim_token now id db).1)
unfolding claim_token ◌>>=◌ revoke_tokens
claim_token_spent now id db spent = rw (any_of_count (is_claimable id) db.refresh_tokens spent) refl

there-found :
    (id : ℕ) (xs : List Session)
    → is_there id xs ≡ true
    → (s : Session) × (find_first (is_session id) xs ≡ some s)
there-found id [] h = cc
there-found id (x ∷ xs) h = elim (Bool-cases (is_session id x)) [
  | inl hit ↦ (x, rw hit refl)
  | inr miss ↦ let (s, found) = there-found id xs (ground arith) in (s, rw miss found)
]

kill_session_ok :
    (now id : ℕ) (db : Db)
    → is_there id db.sessions ≡ true
    → (db' : Db) × (kill_session now id db ≡ (ok tt, db')) × (is_revoked id db'.sessions ≡ true)
unfolding update_session ◌>>=◌
kill_session_ok now id db h =
    let (s, found) = there-found id db.sessions h in
    (
      record db { sessions = update_where (is_session id) (revoke_session_row now) db.sessions },
      rw found refl,
      revoke_row-is_revoked now id db.sessions s found,
    )

kill_tokens_lem :
    (now family : ℕ) (db : Db) → kill_tokens now family db ≡ (ok tt, (kill_tokens now family db).1)
unfolding revoke_tokens
kill_tokens_lem now family db = refl

-- A claim on a token that is spent is answered as reuse, whoever comes between, and its session is
-- revoked.
claim_among_spent :
    (env : TokenEnv) (now : ℕ) (first second : List (ℕ × Call)) (t : RefreshToken) (db : Db)
    → IsSpent t.id db.refresh_tokens
    → is_there t.session_id db.sessions ≡ true
    → ((claim_among env now first second t db).0 ≡ err (unauthorized refresh_token_reuse_detected))
      × (is_revoked t.session_id (claim_among env now first second t db).1.sessions ≡ true)
unfolding claim_among ◌>>=◌
claim_among_spent env now first second t db spent there =
    let d1 = (claim_token now t.id db).1 in
    let d2 = run env first d1 in
    let d3 = (kill_tokens now t.family_id d2).1 in
    let d4 = run env second d3 in
    let there4 = (run-Advances env second d3).kept t.session_id (
      ((kill_tokens-Advances now t.family_id).at d2).kept t.session_id (
        (run-Advances env first d1).kept t.session_id
          (((claim_token-Advances now t.id).at db).kept t.session_id there))) in
    let (d5, killed, revoked) = kill_session_ok now t.session_id d4 there4 in
    rw (claim_token_spent now t.id db spent)
      (rw (kill_tokens_lem now t.family_id d2) (rw killed (refl, revoked)))

pub claim_once :
    (env : TokenEnv) (now later last organization count : ℕ) (raw new_raw : String)
    (t : RefreshToken) (between first second after : List (ℕ × Call)) (db db' : Db)
    → t.id < db.next_id
    → claim_token now t.id db ≡ (ok (suc count), db')
    → is_there t.session_id db'.sessions ≡ true
    → let lost = claim_among env later first second t (run env between db') in
      (lost.0 ≡ err (unauthorized refresh_token_reuse_detected))
      × (is_issued_for t.session_id
            (rotate_refresh_token env last raw new_raw (run env after lost.1)).0
          ≡ false)
      × ((reissue_access_token_for_organization env last t.session_id organization
            (run env after lost.1)).0
          ≡ err (unauthorized session_revoked))
claim_once env now later last organization count raw new_raw t between first second after db db' old
      claimed there =
    let spent = claim_token_ok now t.id db db' (suc count) claimed in
    let claim = (claim_token-Advances now t.id).at db in
    let step : (claim_token now t.id db).1 ≡ db' = ap (λ (r : Result ℕ × Db). r.1) claimed in
    let given : t.id < db'.next_id =
      subst (λ (d : Db). t.id < d.next_id) step (omega (arith, claim.ids, old)) in
    let meantime = run-Advances env between db' in
    let mid = run env between db' in
    let (answer, dead) =
      claim_among_spent env later first second t mid (meantime.spent t.id given spent)
        (meantime.kept t.session_id there) in
    let lost = (claim_among env later first second t mid).1 in
    let still = (run-Advances env after lost).revoked t.session_id dead in
    (
      answer,
      not_issued env last t.session_id raw new_raw (run env after lost) still,
      not_reissued env last t.session_id organization (run env after lost) still,
    )
