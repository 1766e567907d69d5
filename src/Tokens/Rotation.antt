-- ===== src/Tokens/Rotation.antt =====
-- `rotateRefreshToken` of apps/api/src/auth/token.service.ts, run in one go.
use mathlib.Core.Path.{subst}
use tax_professional_managem.Common.{
  ℕ, ◌≤◌, ◌<◌, ◌≡◌, refl, ap, Bool, true, ◌&&◌, List, [], ◌∷◌, ◌++◌, none, some, arith, any,
  is_none, ◌==◌, ==_self, String, All, str_eq, str_eq_refl,
}
use tax_professional_managem.Common.Table.{
  find_first, update_where, any-update_self, find_first-update, find_first_sound, find_first-All,
  any-update_true, any-append_last,
}
use tax_professional_managem.Db.{Db, Session, RefreshToken}
use tax_professional_managem.Db.Action.{ok, ◌>>=◌}
use tax_professional_managem.Db.Action.Effects.{bind_ok}
use tax_professional_managem.Tokens.{
  TokenEnv, IssuedTokens, is_session, is_claimable, insert_token, update_session, update_tokens,
  sign_access_token, set_replaced_by, revoke_token, revoke_session_row, revoke_tokens, claim_token,
  issue_token, link_token, rotate_check, rotate_claim, rotate_issue, rotate_refresh_token,
}
use tax_professional_managem.Tokens.Rows.{
  is_revoked, IsSpent, rotate_claim-Advances, rotate_issue-Advances,
}

-- What a rotation has seen when its reading part lets it go on; that part writes nothing then.
pub record IsPresented (env : TokenEnv) (now : ℕ) (raw : String) (db : Db) (t : RefreshToken)
    (s : Session) : Type 0 where
  pub token : find_first (λ x. str_eq x.token_hash (env.hash raw)) db.refresh_tokens ≡ some t
  pub session : find_first (is_session t.session_id) db.sessions ≡ some s
  pub live : s.revoked_at ≡ none
  pub in_time : now ≤ t.expires_at

rotate_check-IsPresented :
    (env : TokenEnv) (now : ℕ) (raw : String) (db db' : Db) (t : RefreshToken) (s : Session)
    → rotate_check env now raw db ≡ (ok (t, s), db')
    → IsPresented env now raw db t s × (db' ≡ db)
unfolding rotate_check ◌>>=◌
rotate_check-IsPresented env now raw db db' t s e = (
  record {
    token = ground arith;
    session = ground arith;
    live = ground arith;
    in_time = ground arith;
  },
  ground arith,
)

pub claimed-IsSpent :
    (now id : ℕ) (xs : List RefreshToken)
    → IsSpent id (update_where (is_claimable id) (revoke_token now) xs)
claimed-IsSpent now id xs =
    any-update_self (is_claimable id) (revoke_token now) xs (λ x. ground arith)

rotate_claim_ok :
    (now : ℕ) (t : RefreshToken) (db db' : Db)
    → rotate_claim now t db ≡ (ok tt, db')
    → (db' ≡ (revoke_tokens now (λ x. x.id == t.id) db).1) × IsSpent t.id db'.refresh_tokens
unfolding rotate_claim claim_token ◌>>=◌ revoke_tokens
rotate_claim_ok now t db db' e =
    let same : db' ≡ (revoke_tokens now (λ x. x.id == t.id) db).1 = ground arith in
    (same, rw same (claimed-IsSpent now t.id db.refresh_tokens))

pub revoke_row-is_revoked :
    (now id : ℕ) (xs : List Session) (s : Session)
    → find_first (is_session id) xs ≡ some s
    → is_revoked id (update_where (is_session id) (revoke_session_row now) xs) ≡ true
revoke_row-is_revoked now id xs s found =
    rw
      (
        find_first-update (is_session id) (is_session id) (revoke_session_row now) xs (λ x. refl),
        found,
      )
      (ground (arith, find_first_sound (is_session id) xs s found))

-- The three stretches of a rotation that answers with tokens.
pub record IsRotated (env : TokenEnv) (now : ℕ) (raw new_raw : String) (db db' : Db)
    (issued : IssuedTokens) : Type 0 where
  pub token : RefreshToken
  pub session : Session
  pub claimed : Db
  pub presented : IsPresented env now raw db token session
  pub claim : rotate_claim now token db ≡ (ok tt, claimed)
  pub issue : rotate_issue env now new_raw (token, session) claimed ≡ (ok issued, db')

pub rotate-IsRotated :
    (env : TokenEnv) (now : ℕ) (raw new_raw : String) (db db' : Db) (issued : IssuedTokens)
    → rotate_refresh_token env now raw new_raw db ≡ (ok issued, db')
    → IsRotated env now raw new_raw db db' issued
unfolding rotate_refresh_token
rotate-IsRotated env now raw new_raw db db' issued e =
    let ((t, s), db1, checked, rest) = bind_ok _ _ db db' e in
    let (_, db2, claimed, issue) = bind_ok _ _ db1 db' rest in
    let (presented, same) = rotate_check-IsPresented env now raw db db1 t s checked in
    record {
      token = t;
      session = s;
      claimed = db2;
      presented = presented;
      claim = subst (λ d. rotate_claim now t d ≡ (ok tt, db2)) same claimed;
      issue = issue;
    }

-- The row of a successor: in the old token's family and session, and good for no longer.
abbrev pub is_successor : TokenEnv → String → RefreshToken → RefreshToken → Bool
is_successor env raw t x =
    str_eq x.token_hash (env.hash raw)
    && (x.family_id == t.family_id)
    && (x.session_id == t.session_id)
    && (x.expires_at == t.expires_at)
    && is_none x.revoked_at

pub rotate_issue_lem :
    (env : TokenEnv) (now : ℕ) (new_raw : String) (t : RefreshToken) (s : Session) (db db' : Db)
    (issued : IssuedTokens)
    → rotate_issue env now new_raw (t, s) db ≡ (ok issued, db')
    → (issued.refresh_token ≡ new_raw)
      × (issued.session_id ≡ t.session_id)
      × (issued.access_token
          ≡ env.sign
              (record { sub = s.user_id; org_id = s.organization_id; session_id = t.session_id }))
      × (any (is_successor env new_raw t) db'.refresh_tokens ≡ true)
unfolding rotate_issue issue_token link_token ◌>>=◌ insert_token update_tokens update_session
    sign_access_token
rotate_issue_lem env now new_raw t s db db' issued e = (
  ground arith,
  ground arith,
  ground arith,
  rw table (
      any-update_true (is_successor env new_raw t) _ (set_replaced_by db.next_id) _ (λ x h. h)
        (any-append_last (is_successor env new_raw t) db.refresh_tokens row succeeds)),
)
  where
    row : RefreshToken
    row = record {
      id = db.next_id;
      session_id = t.session_id;
      token_hash = env.hash new_raw;
      family_id = t.family_id;
      expires_at = t.expires_at;
      revoked_at = none;
      replaced_by_id = none;
    }

    succeeds : is_successor env new_raw t row ≡ true
    succeeds = rw (str_eq_refl, ==_self t.family_id, ==_self t.session_id, ==_self t.expires_at)

    table :
        db'.refresh_tokens
        ≡ update_where
            (λ x. x.id == t.id)
            (set_replaced_by db.next_id)
            (db.refresh_tokens ++ (row ∷ []))
    table = ground arith

-- A rotation that answers does so for a token that was found, of a live session, and in time. It
-- hands out the new token with an access token for the session's user and organization; the new
-- row is of the old one's family, session and expiry, and the old token is spent.
pub rotate_refresh_token_ok :
    (env : TokenEnv) (now : ℕ) (raw new_raw : String) (db db' : Db) (issued : IssuedTokens)
    → All (λ t. t.id < db.next_id) db.refresh_tokens
    → rotate_refresh_token env now raw new_raw db ≡ (ok issued, db')
    → (t : RefreshToken) × (s : Session) × IsPresented env now raw db t s
      × (issued.refresh_token ≡ new_raw)
      × (issued.session_id ≡ t.session_id)
      × (issued.access_token
          ≡ env.sign
              (record { sub = s.user_id; org_id = s.organization_id; session_id = t.session_id }))
      × (any (is_successor env new_raw t) db'.refresh_tokens ≡ true)
      × IsSpent t.id db'.refresh_tokens
rotate_refresh_token_ok env now raw new_raw db db' issued numbered e =
    let r = rotate-IsRotated env now raw new_raw db db' issued e in
    let (a, b, c, d) =
      rotate_issue_lem env now new_raw r.token r.session r.claimed db' issued r.issue in
    let (same, spent) = rotate_claim_ok now r.token db r.claimed r.claim in
    let kept = (rotate_issue-Advances env now new_raw r.token r.session).at r.claimed in
    let first = (rotate_claim-Advances now r.token).at db in
    let old = find_first-All _ _ db.refresh_tokens r.token numbered r.presented.token in
    let claimed_at : (rotate_claim now r.token db).1 ≡ r.claimed = ap (λ p. p.1) r.claim in
    let issued_at : (rotate_issue env now new_raw (r.token, r.session) r.claimed).1 ≡ db' =
      ap (λ p. p.1) r.issue in
    let bound : r.token.id < r.claimed.next_id =
      subst (λ d. r.token.id < d.next_id) claimed_at (omega (arith, first.ids, old)) in
    (
      r.token,
      r.session,
      r.presented,
      a,
      b,
      c,
      d,
      subst (λ d. IsSpent r.token.id d.refresh_tokens) issued_at
          (kept.spent r.token.id bound spent),
    )
