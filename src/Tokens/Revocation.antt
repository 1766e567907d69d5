-- ===== src/Tokens/Revocation.antt =====
-- Logging out: once a session is revoked, nothing that happens later gets a token out of it.
use mathlib.Core.Path.{subst, sym}
use tax_professional_managem.Common.{
  ℕ, ◌≡◌, refl, Bool, true, false, List, some, arith, is_some, ◌==◌, inl, inr, Bool-cases,
  Option-cases, String,
}
use tax_professional_managem.Common.Table.{find_first, update_where, find_first-update}
use tax_professional_managem.Db.{Db, Session}
use tax_professional_managem.Db.Action.{unauthorized, session_revoked, Result, ok, err, ◌>>=◌}
use tax_professional_managem.Tokens.{
  TokenEnv, IssuedTokens, is_session, update_session, update_tokens, update_sessions, revoke_tokens,
  revoke_session_row, revoke_session, revoke_all_sessions_for_user, rotate_refresh_token,
  reissue_access_token_for_organization,
}
use tax_professional_managem.Tokens.Rows.{is_revoked}
use tax_professional_managem.Tokens.Schedule.{Call, run, run-Advances}
use tax_professional_managem.Tokens.Rotation.{
  rotate-IsRotated, rotate_issue_lem, revoke_row-is_revoked,
}

-- The answer hands out tokens of session `id`.
abbrev pub is_issued_for : ℕ → Result IssuedTokens → Bool
is_issued_for id (ok issued) = issued.session_id == id
is_issued_for id (err _) = false

pub not_issued :
    (env : TokenEnv) (now id : ℕ) (raw new_raw : String) (db : Db)
    → is_revoked id db.sessions ≡ true
    → is_issued_for id (rotate_refresh_token env now raw new_raw db).0 ≡ false
not_issued env now id raw new_raw db dead = go (rotate_refresh_token env now raw new_raw db) refl
  where
    go :
        (r : Result IssuedTokens × Db)
        → rotate_refresh_token env now raw new_raw db ≡ r
        → is_issued_for id r.0 ≡ false
    go (err x, db') e = refl
    go (ok issued, db') e =
        let r = rotate-IsRotated env now raw new_raw db db' issued e in
        let (_, same, _, _) =
          rotate_issue_lem env now new_raw r.token r.session r.claimed db' issued r.issue in
        elim (Bool-cases (issued.session_id == id)) [
          | inl hit ↦
              let owner : r.token.session_id ≡ id = ground arith in
              let dead' : is_revoked r.token.session_id db.sessions ≡ true =
                subst (λ k. is_revoked k db.sessions ≡ true) (sym owner) dead in
              let revoked : is_some r.session.revoked_at ≡ true = rw r.presented.session at dead' in
              cc (rw r.presented.live at revoked)
          | inr other ↦ other
        ]

pub not_reissued :
    (env : TokenEnv) (now id organization : ℕ) (db : Db)
    → is_revoked id db.sessions ≡ true
    → (reissue_access_token_for_organization env now id organization db).0
      ≡ err (unauthorized session_revoked)
unfolding reissue_access_token_for_organization ◌>>=◌
not_reissued env now id organization db dead =
    elim (Option-cases (find_first (is_session id) db.sessions)) [
      | inl missing ↦ rw missing (refl)
      | inr (s, found) ↦
          let revoked : is_some s.revoked_at ≡ true = rw found at dead in rw found (ground arith)
    ]

revoke_session-is_revoked :
    (now id : ℕ) (db db' : Db)
    → revoke_session now id db ≡ (ok tt, db')
    → is_revoked id db'.sessions ≡ true
unfolding revoke_session ◌>>=◌ update_session revoke_tokens update_tokens
revoke_session-is_revoked now id db db' e =
    elim (Option-cases (find_first (is_session id) db.sessions)) [
      | inl missing ↦ ground arith
      | inr (s, found) ↦
          let table : db'.sessions
              ≡ update_where (is_session id) (revoke_session_row now) db.sessions =
            ground arith in
          rw table (revoke_row-is_revoked now id db.sessions s found)
    ]

pub revoke_all-is_revoked :
    (now user id : ℕ) (db : Db) (s : Session)
    → find_first (is_session id) db.sessions ≡ some s
    → s.user_id ≡ user
    → is_revoked id (revoke_all_sessions_for_user now user db).1.sessions ≡ true
unfolding revoke_all_sessions_for_user ◌>>=◌ update_sessions revoke_tokens update_tokens
revoke_all-is_revoked now user id db s found owner =
    rw (find_first-update (is_session id) _ (revoke_session_row now) db.sessions (λ x. refl), found)
      (ground arith)

-- After a logout, whatever requests follow, in whatever order: no rotation hands out tokens of the
-- session, and no access token is signed anew for it.
pub revoke_session_final :
    (env : TokenEnv) (now later id organization : ℕ) (raw new_raw : String) (cs : List (ℕ × Call))
    (db db' : Db)
    → revoke_session now id db ≡ (ok tt, db')
    → (is_issued_for id (rotate_refresh_token env later raw new_raw (run env cs db')).0 ≡ false)
      × ((reissue_access_token_for_organization env later id organization (run env cs db')).0
          ≡ err (unauthorized session_revoked))
revoke_session_final env now later id organization raw new_raw cs db db' e =
    let dead = (run-Advances env cs db').revoked id (revoke_session-is_revoked now id db db' e) in
    (
      not_issued env later id raw new_raw (run env cs db') dead,
      not_reissued env later id organization (run env cs db') dead,
    )

-- The same after a logout everywhere, for each session that the user had.
pub revoke_all_final :
    (env : TokenEnv) (now later user id organization : ℕ) (raw new_raw : String)
    (cs : List (ℕ × Call)) (db : Db) (s : Session)
    → find_first (is_session id) db.sessions ≡ some s
    → s.user_id ≡ user
    → let db' = run env cs (revoke_all_sessions_for_user now user db).1 in
      (is_issued_for id (rotate_refresh_token env later raw new_raw db').0 ≡ false)
      × ((reissue_access_token_for_organization env later id organization db').0
          ≡ err (unauthorized session_revoked))
revoke_all_final env now later user id organization raw new_raw cs db s found owner =
    let start = (revoke_all_sessions_for_user now user db).1 in
    let dead =
      (run-Advances env cs start).revoked id (revoke_all-is_revoked now user id db s found owner) in
    (
      not_issued env later id raw new_raw (run env cs start) dead,
      not_reissued env later id organization (run env cs start) dead,
    )
