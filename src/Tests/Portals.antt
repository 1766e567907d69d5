-- ===== src/Tests/Portals.antt =====
-- The guards, the stored credential and the portal session of the firm.
use tax_professional_managem.Common.{
  ℕ, ◌≡◌, refl, true, false, any, inr, List, [], ◌∷◌, ◌++◌, Option, none, some, arith, String,
}
use tax_professional_managem.Types.Rbac.{Permission, default_role_permissions}
use tax_professional_managem.Db.{Db, PortalSession, AuditLog}
use tax_professional_managem.Db.Action.{
  ok, err, AppError, unauthorized, not_found, token_already_used, credential_not_found, log, ◌>>=◌,
}
use tax_professional_managem.Tokens.{Claims}
use tax_professional_managem.Auth.{verify_password}
use tax_professional_managem.Access.{
  Route, AuthContext, admit, jwt_auth_guard, tenant_scope_guard, permissions_guard, has_permission,
  get_permissions_for_member,
}
use tax_professional_managem.Access.Laws.{IsAuthenticated, IsPermitted, admit-IsPermitted}
use tax_professional_managem.Credentials.{
  Plaintext, Metadata, RotateDto, create, get_metadata, rotate, remove, reveal, reveal_check,
  decrypt_for_portal_session, require_portal_account, insert_credential, record_access,
  require_full_record, update_credential, assert_reveal_allowed, mark_used,
}
use tax_professional_managem.Credentials.Laws.{
  IsDecrypted, IsProved, IsAbsent, revealed_row, absent_refused, remove_final, create-decrypt,
  reveal_ok,
}
use tax_professional_managem.PortalSessions.{
  redeem_claim, redeem_credential, redeem_check, redeem_release, claim_unused,
}
use tax_professional_managem.PortalSessions.Schedule.{Call, run, IsSpent}
use tax_professional_managem.PortalSessions.Redemption.{
  IsPresented, used_row, redeem_once, redeem_credential_ok,
}
use tax_professional_managem.Organizations.{
  change_role, require_member, require_assignable_role, update_member,
}
use tax_professional_managem.Organizations.Laws.{IsAssignable, has_role, given_role-IsAssignable}
use tax_professional_managem.Tests.{member, crypto_env, meta, firm, credential, portal_session}

abbrev verify : String → Option Claims
verify token = some (record { sub = 1; org_id = some 2; session_id = 5 })

abbrev view_clients : Route
view_clients = record {
  is_public = false;
  skips_tenant_scope = false;
  required = some Permission.clients_view;
}

abbrev context : AuthContext
context = record { user_id = 1; organization_id = some 2; session_id = 5 }

admitted : admit verify view_clients (some "token") firm ≡ (ok (some context), firm)
unfolding admit jwt_auth_guard tenant_scope_guard permissions_guard has_permission
    get_permissions_for_member ◌>>=◌ default_role_permissions
admitted = refl

admit-IsPermitted_example :
    (c : AuthContext) × (organization : ℕ) × (some context ≡ some c)
    × IsAuthenticated verify (some "token") c
    × (c.organization_id ≡ some organization)
    × IsPermitted c.user_id organization Permission.clients_view firm
    × (firm ≡ firm)
admit-IsPermitted_example =
    admit-IsPermitted verify view_clients (some "token") Permission.clients_view firm firm
      (some context) refl refl admitted

abbrev change : RotateDto
change = record { username = none; password = some "newer" }

absent_refused_example :
    (get_metadata 10 99 11 1 meta firm ≡ (err (not_found credential_not_found), firm))
    × (rotate crypto_env 10 "n" 99 11 change 1 meta firm
        ≡ (err (not_found credential_not_found), firm))
    × (remove 10 99 11 1 meta firm ≡ (err (not_found credential_not_found), firm))
    × (decrypt_for_portal_session crypto_env 99 11 firm
        ≡ (err (not_found credential_not_found), firm))
    × ((e : AppError) × (logs : List AuditLog) × (reveal crypto_env 10 99 11 1 "guess" meta firm
          ≡ (err e, record firm { audit_logs = logs })))
absent_refused_example = absent_refused crypto_env 10 99 11 1 "n" change "guess" meta firm refl

abbrev removed : Db
removed = (remove 10 2 11 1 meta firm).1

removes : remove 10 2 11 1 meta firm ≡ (ok tt, removed)
unfolding remove require_full_record update_credential record_access log ◌>>=◌
removes = refl

remove_final_example : IsAbsent 2 11 removed
remove_final_example = remove_final 10 2 11 1 meta firm removed removes

abbrev secret : Plaintext
secret = record { username = "c"; password = "hidden" }

abbrev added : Db
added = (create crypto_env 10 "n" 2 10 secret 1 meta firm).1

abbrev stored : Metadata
stored = record {
  id = 20;
  portal_account_id = 10;
  status = credential.status;
  last_used_at = none;
  last_rotated_at = none;
}

creates : create crypto_env 10 "n" 2 10 secret 1 meta firm ≡ (ok stored, added)
unfolding create require_portal_account insert_credential record_access log ◌>>=◌
creates = refl

create-decrypt_example :
    decrypt_for_portal_session crypto_env 2 stored.id added ≡ (ok secret, added)
create-decrypt_example =
    create-decrypt crypto_env 10 "n" 2 10 secret 1 meta firm added stored (λ r p e h. cc)
      (omega arith, tt) creates

abbrev shown : Plaintext
shown = record { username = "b"; password = "secret" }

abbrev revealed : Db
revealed = (reveal crypto_env 10 2 11 1 "right" meta firm).1

reveals : reveal crypto_env 10 2 11 1 "right" meta firm ≡ (ok shown, revealed)
unfolding reveal reveal_check assert_reveal_allowed verify_password decrypt_for_portal_session
    require_full_record record_access log ◌>>=◌
reveals = refl

reveal_ok_example :
    IsProved crypto_env 2 1 "right" firm
    × IsDecrypted crypto_env 2 11 firm shown
    × (revealed.access_logs ≡ [] ++ (revealed_row 2 11 1 ∷ []))
reveal_ok_example = reveal_ok crypto_env 10 2 11 1 "right" meta firm revealed shown reveals

abbrev claimed : Db
claimed = (redeem_claim 10 12 firm).1

claims_first : redeem_claim 10 12 firm ≡ (ok tt, claimed)
unfolding redeem_claim claim_unused ◌>>=◌
claims_first = refl

redeem_once_example :
    (redeem_claim 13 12 (
      run crypto_env meta
        ((11, Call.checks 12 "once") ∷ (12, Call.releases portal_session) ∷ [])
        claimed)).0
    ≡ err (unauthorized token_already_used)
redeem_once_example =
    redeem_once crypto_env meta 10 13 12
      ((11, Call.checks 12 "once") ∷ (12, Call.releases portal_session) ∷ []) firm claimed
      (omega arith) claims_first

abbrev redeemed : Db
redeemed = (redeem_credential crypto_env 10 12 "once" meta firm).1

redeems : redeem_credential crypto_env 10 12 "once" meta firm ≡ (ok shown, redeemed)
unfolding redeem_credential redeem_check redeem_claim redeem_release claim_unused
    decrypt_for_portal_session require_full_record mark_used update_credential record_access log
    ◌>>=◌
redeems = refl

redeem_credential_ok_example :
    (s : PortalSession) × IsPresented crypto_env 10 12 "once" firm s
    × IsDecrypted crypto_env s.organization_id s.credential_id firm shown
    × (redeemed.access_logs ≡ [] ++ (used_row s ∷ []))
    × IsSpent 12 redeemed.portal_sessions
redeem_credential_ok_example =
    redeem_credential_ok crypto_env 10 12 "once" meta firm redeemed shown (omega arith) redeems

abbrev promoted : Db
promoted = (change_role 10 2 4 3 1 meta firm).1

promotes : change_role 10 2 4 3 1 meta firm ≡ (ok member, promoted)
unfolding change_role require_member require_assignable_role update_member log ◌>>=◌
promotes = refl

given_role-IsAssignable_example :
    IsAssignable 2 3 firm × (member.role_id ≡ 3) × (any (has_role 4 3) promoted.members ≡ true)
given_role-IsAssignable_example =
    given_role-IsAssignable 10 2 4 3 1 "b@example.test" meta firm promoted member (inr promotes)
