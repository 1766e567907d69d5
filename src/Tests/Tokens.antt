-- ===== src/Tests/Tokens.antt =====
-- The rotation and the revocation of refresh tokens, on the firm's one session.
use tax_professional_managem.Common.{ℕ, ◌≡◌, refl, true, false, List, [], ◌∷◌, arith, any}
use tax_professional_managem.Db.{Db, RefreshToken, Session}
use tax_professional_managem.Db.Action.{
  Result, ok, err, unauthorized, refresh_token_reuse_detected, session_revoked, ◌>>=◌,
}
use tax_professional_managem.Tokens.{
  IssuedTokens, claim_token, issue_token, link_token, rotate_claim, rotate_refresh_token,
  rotate_check, rotate_issue, revoke_session, revoke_all_sessions_for_user,
  reissue_access_token_for_organization, revoke_tokens, update_sessions, update_tokens,
  update_session, insert_token, sign_access_token,
}
use tax_professional_managem.Tokens.Rows.{IsSpent, is_there}
use tax_professional_managem.Tokens.Schedule.{Call, run}
use tax_professional_managem.Tokens.Rotation.{IsPresented, is_successor, rotate_refresh_token_ok}
use tax_professional_managem.Tokens.Reuse.{claim_among, claim_once}
use tax_professional_managem.Tokens.Revocation.{
  is_issued_for, revoke_session_final, revoke_all_final,
}
use tax_professional_managem.Tests.{token_env, firm, session, refresh_token}

abbrev claimed : Db
claimed = (claim_token 10 6 firm).1

claims_first : claim_token 10 6 firm ≡ (ok 1, claimed)
unfolding claim_token ◌>>=◌ revoke_tokens
claims_first = refl

there : is_there 5 claimed.sessions ≡ true
unfolding claim_token ◌>>=◌ revoke_tokens
there = refl

-- The winner issues its successor and links it.
abbrev issuing : List (ℕ × Call)
issuing = (11, Call.issues "new" refresh_token) ∷ []

abbrev linking : List (ℕ × Call)
linking = (12, Call.links 20 refresh_token) ∷ []

abbrev between : List (ℕ × Call)
between = (11, Call.issues "new" refresh_token) ∷ (12, Call.links 20 refresh_token) ∷ []

-- The loser's request, whose second statement comes after the winner's insertion.
abbrev lost : Result (Unit {0}) × Db
lost = claim_among token_env 13 [] issuing refresh_token (run token_env [] claimed)

claim_once_example :
    (lost.0 ≡ err (unauthorized refresh_token_reuse_detected))
    × (is_issued_for 5
          (rotate_refresh_token token_env 15 "new" "newer" (run token_env linking lost.1)).0
        ≡ false)
    × ((reissue_access_token_for_organization token_env 15 5 2 (run token_env linking lost.1)).0
        ≡ err (unauthorized session_revoked))
claim_once_example =
    claim_once token_env 10 13 15 2 0 "new" "newer" refresh_token [] [] issuing linking firm claimed
      (omega arith) claims_first there

abbrev rotated : Db
rotated = (rotate_refresh_token token_env 10 "old" "new" firm).1

abbrev issued : IssuedTokens
issued = record { access_token = "signed"; refresh_token = "new"; expires_in = 900; session_id = 5 }

rotates : rotate_refresh_token token_env 10 "old" "new" firm ≡ (ok issued, rotated)
unfolding rotate_refresh_token rotate_check rotate_issue issue_token link_token rotate_claim
    claim_token ◌>>=◌ revoke_tokens update_tokens update_session update_sessions insert_token
    sign_access_token
rotates = refl

rotate_refresh_token_ok_example :
    (t : RefreshToken) × (s : Session) × IsPresented token_env 10 "old" firm t s
    × (issued.refresh_token ≡ "new")
    × (issued.session_id ≡ t.session_id)
    × (issued.access_token
        ≡ token_env.sign
            (record { sub = s.user_id; org_id = s.organization_id; session_id = t.session_id }))
    × (any (is_successor token_env "new" t) rotated.refresh_tokens ≡ true)
    × IsSpent t.id rotated.refresh_tokens
rotate_refresh_token_ok_example =
    rotate_refresh_token_ok token_env 10 "old" "new" firm rotated issued (omega arith, tt) rotates

abbrev logged_out : Db
logged_out = (revoke_session 10 5 firm).1

logs_out : revoke_session 10 5 firm ≡ (ok tt, logged_out)
unfolding revoke_session ◌>>=◌ revoke_tokens update_session update_sessions
logs_out = refl

revoke_session_final_example :
    (is_issued_for 5
        (rotate_refresh_token token_env 13 "old" "newer" (run token_env between logged_out)).0
      ≡ false)
    × ((reissue_access_token_for_organization token_env 13 5 2 (run token_env between logged_out)).0
        ≡ err (unauthorized session_revoked))
revoke_session_final_example =
    revoke_session_final token_env 10 13 5 2 "old" "newer" between firm logged_out logs_out

revoke_all_final_example :
    (is_issued_for 5
        (rotate_refresh_token token_env 13 "old" "newer"
          (run token_env between (revoke_all_sessions_for_user 10 1 firm).1)).0
      ≡ false)
    × ((reissue_access_token_for_organization token_env 13 5 2
          (run token_env between (revoke_all_sessions_for_user 10 1 firm).1)).0
        ≡ err (unauthorized session_revoked))
revoke_all_final_example =
    revoke_all_final token_env 10 13 1 5 2 "old" "newer" between firm session refl refl
