-- ===== src/PortalSessions/Redemption.antt =====
-- The one-time token: it is exchanged for the credential once, also among concurrent requests, and
-- only in time and by who holds it.
use mathlib.Core.Path.{subst}
use tax_professional_managem.Common.{
  ℕ, ◌≤◌, ◌<◌, ◌≡◌, refl, sym, ap, ◌∙◌, true, List, [], ◌∷◌, ◌++◌, some, arith, String, str_eq,
}
use tax_professional_managem.Common.Table.{find_first, any-update_self, any_of_count}
use tax_professional_managem.Db.{Db, PortalSession, CredentialAccessLog}
use tax_professional_managem.Db.Action.{
  unauthorized, token_already_used, Result, ok, err, RequestMeta, AuditEntry, log, pure, ◌>>=◌,
  ◌>>◌,
}
use tax_professional_managem.Db.Action.Effects.{bind_ok}
use tax_professional_managem.Credentials.{
  CryptoEnv, Plaintext, is_live_credential, record_access, mark_used, update_credential,
}
use tax_professional_managem.Credentials.Laws.{IsDecrypted, decrypt-IsDecrypted}
use tax_professional_managem.PortalSessions.{
  is_portal_session, is_unused, set_used, redeem_check, claim_unused, redeem_claim, redeem_release,
  redeem_credential,
}
use tax_professional_managem.PortalSessions.Schedule.{
  IsSpent, Call, run, run-Spends, redeem_claim-Spends, redeem_release-Spends,
}

redeem_claim_ok :
    (now id : ℕ) (db db' : Db)
    → redeem_claim now id db ≡ (ok tt, db')
    → (db' ≡ (claim_unused now id db).1) × IsSpent id db'.portal_sessions
unfolding redeem_claim ◌>>=◌ claim_unused
redeem_claim_ok now id db db' e =
    let same : db' ≡ (claim_unused now id db).1 = ground arith in
    (
      same,
      rw same
          (any-update_self (is_unused id) (set_used now) db.portal_sessions (λ s. ground arith)),
    )

claim_spent :
    (now id : ℕ) (db : Db)
    → IsSpent id db.portal_sessions
    → (redeem_claim now id db).0 ≡ err (unauthorized token_already_used)
unfolding redeem_claim ◌>>=◌ claim_unused
claim_spent now id db spent = rw (any_of_count (is_unused id) db.portal_sessions spent) refl

-- Of the redemptions of one session, however they interleave with each other and with the other
-- calls of a schedule, one at most gets past the claim: once a claim on an id that has been given
-- out has succeeded, every later one is answered `TOKEN_ALREADY_USED`.
pub redeem_once :
    (env : CryptoEnv) (meta : RequestMeta) (now later id : ℕ) (cs : List (ℕ × Call)) (db db' : Db)
    → id < db.next_id
    → redeem_claim now id db ≡ (ok tt, db')
    → (redeem_claim later id (run env meta cs db')).0 ≡ err (unauthorized token_already_used)
redeem_once env meta now later id cs db db' old claimed =
    let (_, spent) = redeem_claim_ok now id db db' claimed in
    let first = (redeem_claim-Spends now id).at db in
    let given : id < db'.next_id =
      subst (λ (d : Db). id < d.next_id) (ap (λ (r : Result (Unit {0}) × Db). r.1) claimed)
        (omega (arith, first.ids)) in
    claim_spent later id (run env meta cs db') ((run-Spends env meta cs db').spent id given spent)

-- What the checks of a redemption have seen when they let it go on; they write nothing then.
pub record IsPresented (env : CryptoEnv) (now id : ℕ) (raw : String) (db : Db) (s : PortalSession)
    : Type 0 where
  pub found : find_first (is_portal_session id) db.portal_sessions ≡ some s
  pub holds : str_eq s.one_time_token_hash (env.auth.tokens.hash raw) ≡ true
  pub in_time : now ≤ s.expires_at

redeem_check-IsPresented :
    (env : CryptoEnv) (now id : ℕ) (raw : String) (db db' : Db) (s : PortalSession)
    → redeem_check env now id raw db ≡ (ok s, db')
    → IsPresented env now id raw db s × (db' ≡ db)
unfolding redeem_check ◌>>=◌
redeem_check-IsPresented env now id raw db db' s e =
    (record { found = ground arith; holds = ground arith; in_time = ground arith }, ground arith)

-- The row of the access log for the use of a credential by a session.
abbrev pub used_row : PortalSession → CredentialAccessLog
used_row s = record {
  credential_id = s.credential_id;
  organization_id = s.organization_id;
  user_id = s.initiated_by_id;
  action = "USED";
  portal_session_id = some s.id;
}

recorded_and_logged :
    (now : ℕ) (meta : RequestMeta) (s : PortalSession) (e : AuditEntry) (q p : Plaintext)
    (db db' : Db)
    → (record_access s.credential_id s.organization_id s.initiated_by_id "USED" (some s.id)
          >> (log now meta e >> pure q))
        db
      ≡ (ok p, db')
    → (q ≡ p) × (db'.access_logs ≡ db.access_logs ++ (used_row s ∷ []))
unfolding ◌>>=◌ record_access log
recorded_and_logged now meta s e q p db db' h = (ground arith, ground arith)

mark_used_frame :
    (now id : ℕ) (db db' : Db)
    → mark_used now id db ≡ (ok tt, db')
    → db'.access_logs ≡ db.access_logs
unfolding mark_used ◌>>=◌ update_credential
mark_used_frame now id db db' e = ground arith

release_ok :
    (env : CryptoEnv) (now : ℕ) (meta : RequestMeta) (s : PortalSession) (db db' : Db)
    (p : Plaintext)
    → redeem_release env now meta s db ≡ (ok p, db')
    → IsDecrypted env s.organization_id s.credential_id db p
      × (db'.access_logs ≡ db.access_logs ++ (used_row s ∷ []))
unfolding redeem_release
release_ok env now meta s db db' p e =
    let (q, db1, opened, rest) = bind_ok _ _ db db' e in
    let (u, db2, used, rest2) = bind_ok _ _ db1 db' rest in
    let (same, logged) = recorded_and_logged now meta s _ q p db2 db' rest2 in
    let (decrypted, db_same) =
      decrypt-IsDecrypted env s.organization_id s.credential_id db db1 q opened in
    let kept = mark_used_frame now s.credential_id db1 db2 used in
    (
      subst (IsDecrypted env s.organization_id s.credential_id db) same decrypted,
      logged ∙ ap (λ xs. xs ++ (used_row s ∷ [])) (kept ∙ ap (λ (d : Db). d.access_logs) db_same),
    )

redeem_claim_frame :
    (now id : ℕ) (db db' : Db)
    → redeem_claim now id db ≡ (ok tt, db')
    → (db'.credentials ≡ db.credentials)
      × (db'.access_logs ≡ db.access_logs)
      × (db'.next_id ≡ db.next_id)
unfolding redeem_claim ◌>>=◌ claim_unused
redeem_claim_frame now id db db' e = (ground arith, ground arith, ground arith)

-- A redemption that hands out a credential does so for a session that was found, to who holds its
-- token, in time. What it hands out is the plaintext of the session's credential, which is not
-- deleted and of the session's organization; the use is recorded in the access log, and the token
-- is spent.
pub redeem_credential_ok :
    (env : CryptoEnv) (now id : ℕ) (raw : String) (meta : RequestMeta) (db db' : Db) (p : Plaintext)
    → id < db.next_id
    → redeem_credential env now id raw meta db ≡ (ok p, db')
    → (s : PortalSession) × IsPresented env now id raw db s
      × IsDecrypted env s.organization_id s.credential_id db p
      × (db'.access_logs ≡ db.access_logs ++ (used_row s ∷ []))
      × IsSpent id db'.portal_sessions
unfolding redeem_credential
redeem_credential_ok env now id raw meta db db' p old e =
    let (s, db1, checked, rest) = bind_ok _ _ db db' e in
    let (u, db2, claimed, released) = bind_ok _ _ db1 db' rest in
    let (presented, same) = redeem_check-IsPresented env now id raw db db1 s checked in
    let (_, spent) = redeem_claim_ok now id db1 db2 claimed in
    let (credentials, logs, ids) = redeem_claim_frame now id db1 db2 claimed in
    let (decrypted, recorded) = release_ok env now meta s db2 db' p released in
    let rows : db2.credentials ≡ db.credentials =
      credentials ∙ ap (λ (d : Db). d.credentials) same in
    let bound : id < db2.next_id =
      subst (λ (n : ℕ). id < n) (sym (ids ∙ ap (λ (d : Db). d.next_id) same)) old in
    let kept = (redeem_release-Spends env now meta s).at db2 in
    (
      s,
      presented,
      record {
        row = decrypted.row;
        live =
            subst
              (λ cs.
                find_first (is_live_credential s.organization_id s.credential_id) cs
                ≡ some decrypted.row)
              rows decrypted.live;
        opened = decrypted.opened;
      },
      recorded ∙ ap (λ xs. xs ++ (used_row s ∷ [])) (logs ∙ ap (λ (d : Db). d.access_logs) same),
      subst (λ (d : Db). IsSpent id d.portal_sessions)
          (ap (λ (r : Result Plaintext × Db). r.1) released) (kept.spent id bound spent),
    )
