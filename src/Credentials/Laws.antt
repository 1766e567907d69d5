-- ===== src/Credentials/Laws.antt =====
-- What the credentials' operations promise: what is stored comes back, what is removed does not,
-- another organization's credential is as good as absent, and who reveals one has proved himself.
use mathlib.Core.Path.{subst}
use tax_professional_managem.Common.{
  ℕ, ◌<◌, ◌≡◌, refl, ap, ◌∙◌, Bool, true, false, List, [], ◌∷◌, ◌++◌, none, some, arith, any, ◌==◌,
  ==_self, inl, inr, Option-cases, Bool-cases, String, All,
}
use tax_professional_managem.Common.Table.{find_first, update_where}
use tax_professional_managem.Types.{CredentialStatus}
use tax_professional_managem.Db.{
  Db, User, AuditLog, Credential, EncryptedCredential, CredentialAccessLog,
}
use tax_professional_managem.Db.Action.{
  ok, err, AppError, not_found, credential_not_found, RequestMeta, AuditEntry, log, pure, ◌>>=◌,
  ◌>>◌,
}
use tax_professional_managem.Db.Action.Effects.{bind_ok}
use tax_professional_managem.Auth.{verify_password}
use tax_professional_managem.Credentials.{
  CryptoEnv, Plaintext, Metadata, is_live_credential, require_full_record, require_portal_account,
  record_access, insert_credential, update_credential, create, RotateDto, set_deleted, rotate,
  remove, get_metadata, is_reveal_setting, is_reveal_disabled, assert_reveal_allowed,
  decrypt_for_portal_session, reveal_check, reveal,
}

-- No credential `id` of this organization is there: it is missing, deleted, or another's.
abbrev pub IsAbsent : ℕ → ℕ → Db → Type 0
IsAbsent organization id db = any (is_live_credential organization id) db.credentials ≡ false

none_found :
    (p : Credential → Bool) (cs : List Credential) → any p cs ≡ false → find_first p cs ≡ none
none_found p [] e = refl
none_found p (c ∷ cs) e = ground (arith, none_found p cs)

require_absent :
    (organization id : ℕ) (db : Db)
    → IsAbsent organization id db
    → require_full_record organization id db ≡ (err (not_found credential_not_found), db)
unfolding require_full_record ◌>>=◌
require_absent organization id db gone =
    rw (none_found (is_live_credential organization id) db.credentials gone) refl

-- A reveal of an absent credential gives nothing, and writes at most to the audit log.
reveal_absent :
    (env : CryptoEnv) (now organization id actor : ℕ) (current_password : String)
    (meta : RequestMeta) (db : Db)
    → IsAbsent organization id db
    → (e : AppError) × (logs : List AuditLog) × (reveal env now organization id actor
          current_password meta db
        ≡ (err e, record db { audit_logs = logs }))
unfolding reveal reveal_check decrypt_for_portal_session assert_reveal_allowed log ◌>>=◌
reveal_absent env now organization id actor current_password meta db gone =
    elim (Bool-cases
      (is_reveal_disabled (find_first (is_reveal_setting organization) db.settings))) [
        | inl off ↦ rw off (_, db.audit_logs, refl)
        | inr on ↦ elim (Option-cases (find_first (λ (u : User). u.id == actor) db.users)) [
          | inl unknown ↦ rw (on, unknown) (_, db.audit_logs, refl)
          | inr (user, known) ↦
              elim (Bool-cases (verify_password env.auth user.password_hash current_password)) [
                | inl right ↦
                    rw (on, known, right, require_absent organization id db gone)
                      (_, db.audit_logs, refl)
                | inr wrong ↦ rw (on, known, wrong) (_, _, refl)
              ]
        ]
      ]

pub absent_refused :
    (env : CryptoEnv) (now organization id actor : ℕ) (random : String) (dto : RotateDto)
    (current_password : String) (meta : RequestMeta) (db : Db)
    → IsAbsent organization id db
    → (get_metadata now organization id actor meta db ≡ (err (not_found credential_not_found), db))
      × (rotate env now random organization id dto actor meta db
          ≡ (err (not_found credential_not_found), db))
      × (remove now organization id actor meta db ≡ (err (not_found credential_not_found), db))
      × (decrypt_for_portal_session env organization id db
          ≡ (err (not_found credential_not_found), db))
      × ((e : AppError) × (logs : List AuditLog) × (reveal env now organization id actor
              current_password meta db
            ≡ (err e, record db { audit_logs = logs })))
unfolding get_metadata rotate remove decrypt_for_portal_session ◌>>=◌
absent_refused env now organization id actor random dto current_password meta db gone =
    let missing = none_found (is_live_credential organization id) db.credentials gone in
    let refused = require_absent organization id db gone in
    (
      rw missing refl,
      rw refused refl,
      rw refused refl,
      rw refused refl,
      reveal_absent env now organization id actor current_password meta db gone,
    )

deleted_absent :
    (now organization id : ℕ) (cs : List Credential)
    → any (is_live_credential organization id) (update_where (λ c. c.id == id) (set_deleted now) cs)
      ≡ false
deleted_absent now organization id [] = refl
deleted_absent now organization id (c ∷ cs) = ground (arith, deleted_absent now organization id cs)

-- After a removal no live credential of this id is left in the organization.
pub remove_final :
    (now organization id actor : ℕ) (meta : RequestMeta) (db db' : Db)
    → remove now organization id actor meta db ≡ (ok tt, db')
    → IsAbsent organization id db'
unfolding remove ◌>>=◌ require_full_record update_credential record_access log
remove_final now organization id actor meta db db' e =
    let same : db'.credentials ≡ update_where (λ c. c.id == id) (set_deleted now) db.credentials =
      ground arith in
    rw same (deleted_absent now organization id db.credentials)

fresh_found :
    (organization : ℕ) (cs : List Credential) (row : Credential)
    → All (λ (c : Credential). c.id < row.id) cs
    → row.organization_id ≡ organization
    → row.deleted_at ≡ none
    → find_first (is_live_credential organization row.id) (cs ++ (row ∷ [])) ≡ some row
fresh_found organization [] row h here live =
    rw (here, live, ==_self row.id, ==_self organization) refl
fresh_found organization (c ∷ cs) row h here live =
    ground (arith, fresh_found organization cs row h.1 here live)

decrypt_lem :
    (env : CryptoEnv) (organization id : ℕ) (db : Db) (row : Credential) (p : Plaintext)
    → find_first (is_live_credential organization id) db.credentials ≡ some row
    → env.decrypt row.encrypted ≡ some p
    → decrypt_for_portal_session env organization id db ≡ (ok p, db)
unfolding decrypt_for_portal_session ◌>>=◌ require_full_record
decrypt_lem env organization id db row p found opened = rw (found, opened) refl

-- What the encryption gives, the decryption opens.
abbrev pub IsLossless : CryptoEnv → Type 0
IsLossless env =
    (random : String) (p : Plaintext) (e : EncryptedCredential)
    → env.encrypt random p ≡ some e
    → env.decrypt e ≡ some p

abbrev pub IsNumbered : Db → Type 0
IsNumbered db = All (λ (c : Credential). c.id < db.next_id) db.credentials

record IsStored (env : CryptoEnv) (random : String) (organization : ℕ) (dto : Plaintext)
    (m : Metadata) (db db' : Db) : Type 0 where
  row : Credential
  encrypted : env.encrypt random dto ≡ some row.encrypted
  stored : db'.credentials ≡ db.credentials ++ (row ∷ [])
  id : m.id ≡ row.id
  fresh : row.id ≡ db.next_id
  of_organization : row.organization_id ≡ organization
  live : row.deleted_at ≡ none

create-IsStored :
    (env : CryptoEnv) (now : ℕ) (random : String) (organization account : ℕ) (dto : Plaintext)
    (actor : ℕ) (meta : RequestMeta) (db db' : Db) (m : Metadata)
    → create env now random organization account dto actor meta db ≡ (ok m, db')
    → IsStored env random organization dto m db db'
unfolding create ◌>>=◌ require_portal_account insert_credential record_access log
create-IsStored env now random organization account dto actor meta db db' m e =
    elim (Option-cases (env.encrypt random dto)) [
      | inl failed ↦ ground arith
      | inr (enc, done) ↦ record {
        row = record {
          id = db.next_id;
          organization_id = organization;
          portal_account_id = account;
          encrypted = enc;
          status = CredentialStatus.active;
          last_used_at = none;
          last_rotated_at = none;
          created_by_id = actor;
          deleted_at = none;
        };
        encrypted = done;
        stored = ground arith;
        id = ground arith;
        fresh = refl;
        of_organization = refl;
        live = refl;
      }
    ]

-- What is stored comes back: the credential that a creation answers with decrypts, in its own
-- organization, to the username and the password that were given. (Ids are given out in
-- increasing order, and decryption inverts encryption.)
pub create-decrypt :
    (env : CryptoEnv) (now : ℕ) (random : String) (organization account : ℕ) (dto : Plaintext)
    (actor : ℕ) (meta : RequestMeta) (db db' : Db) (m : Metadata)
    → IsLossless env
    → IsNumbered db
    → create env now random organization account dto actor meta db ≡ (ok m, db')
    → decrypt_for_portal_session env organization m.id db' ≡ (ok dto, db')
create-decrypt env now random organization account dto actor meta db db' m lossless numbered e =
    let s = create-IsStored env now random organization account dto actor meta db db' m e in
    let old : All (λ (c : Credential). c.id < s.row.id) db.credentials = rw s.fresh numbered in
    decrypt_lem env organization m.id db' s.row dto
      (rw (s.id, s.stored)
        (fresh_found organization db.credentials s.row old s.of_organization s.live))
      (lossless random dto s.row.encrypted s.encrypted)

-- The plaintext of a credential that is not deleted, of this organization.
pub record IsDecrypted (env : CryptoEnv) (organization id : ℕ) (db : Db) (p : Plaintext)
    : Type 0 where
  pub row : Credential
  pub live : find_first (is_live_credential organization id) db.credentials ≡ some row
  pub opened : env.decrypt row.encrypted ≡ some p

pub decrypt-IsDecrypted :
    (env : CryptoEnv) (organization id : ℕ) (db db' : Db) (p : Plaintext)
    → decrypt_for_portal_session env organization id db ≡ (ok p, db')
    → IsDecrypted env organization id db p × (db' ≡ db)
unfolding decrypt_for_portal_session ◌>>=◌ require_full_record
decrypt-IsDecrypted env organization id db db' p e =
    elim (Option-cases (find_first (is_live_credential organization id) db.credentials)) [
      | inl missing ↦ ground arith
      | inr (row, live) ↦ elim (Option-cases (env.decrypt row.encrypted)) [
        | inl shut ↦ ground arith
        | inr (q, opened) ↦ (record { row = row; live = live; opened = ground arith }, ground arith)
      ]
    ]

-- The organization allows it, and the actor has given his own current password.
pub record IsProved (env : CryptoEnv) (organization actor : ℕ) (current_password : String) (db : Db)
    : Type 0 where
  pub user : User
  pub enabled : is_reveal_disabled (find_first (is_reveal_setting organization) db.settings) ≡ false
  pub known : find_first (λ (u : User). u.id == actor) db.users ≡ some user
  pub verified : verify_password env.auth user.password_hash current_password ≡ true

reveal_check_ok :
    (env : CryptoEnv) (now organization id actor : ℕ) (current_password : String)
    (meta : RequestMeta) (db db' : Db)
    → reveal_check env now organization id actor current_password meta db ≡ (ok tt, db')
    → IsProved env organization actor current_password db × (db' ≡ db)
unfolding reveal_check ◌>>=◌ assert_reveal_allowed log
reveal_check_ok env now organization id actor current_password meta db db' e =
    elim (Option-cases (find_first (λ (u : User). u.id == actor) db.users)) [
      | inl missing ↦ ground arith
      | inr (user, known) ↦ (
        record { user = user; enabled = ground arith; known = known; verified = ground arith },
        ground arith,
      )
    ]

abbrev pub revealed_row : ℕ → ℕ → ℕ → CredentialAccessLog
revealed_row organization id actor = record {
  credential_id = id;
  organization_id = organization;
  user_id = actor;
  action = "REVEALED";
  portal_session_id = none;
}

reveal_logged :
    (now organization id actor : ℕ) (meta : RequestMeta) (e : AuditEntry) (q p : Plaintext)
    (db db' : Db)
    → (record_access id organization actor "REVEALED" none >> (log now meta e >> pure q)) db
      ≡ (ok p, db')
    → (q ≡ p) × (db'.access_logs ≡ db.access_logs ++ (revealed_row organization id actor ∷ []))
unfolding ◌>>=◌ record_access log
reveal_logged now organization id actor meta e q p db db' h = (ground arith, ground arith)

-- A reveal that answers was allowed by the organization's setting and proved by the actor's own
-- current password; it gives the plaintext of a credential of the organization that is not
-- deleted, and is recorded in the access log.
pub reveal_ok :
    (env : CryptoEnv) (now organization id actor : ℕ) (current_password : String)
    (meta : RequestMeta) (db db' : Db) (p : Plaintext)
    → reveal env now organization id actor current_password meta db ≡ (ok p, db')
    → IsProved env organization actor current_password db
      × IsDecrypted env organization id db p
      × (db'.access_logs ≡ db.access_logs ++ (revealed_row organization id actor ∷ []))
unfolding reveal
reveal_ok env now organization id actor current_password meta db db' p e =
    let (_, db1, s1, e1) = bind_ok _ _ db db' e in
    let (q, db2, s2, e2) = bind_ok _ _ db1 db' e1 in
    let (proved, same1) =
      reveal_check_ok env now organization id actor current_password meta db db1 s1 in
    let (opened, same2) = decrypt-IsDecrypted env organization id db1 db2 q s2 in
    let (same, logged) = reveal_logged now organization id actor meta _ q p db2 db' e2 in
    (
      proved,
      subst (λ d. IsDecrypted env organization id d p) same1
          (subst (IsDecrypted env organization id db1) same opened),
      logged
          ∙ ap (λ (d : Db). d.access_logs ++ (revealed_row organization id actor ∷ []))
              (same2 ∙ same1),
    )
