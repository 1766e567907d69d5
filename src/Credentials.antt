-- ===== src/Credentials.antt =====
-- apps/api/src/credentials/credentials.service.ts: the stored portal credentials, which leave the
-- service as metadata but for the two decrypting paths. The envelope encryption with the key
-- management service is a parameter, for which Crypto stands.
pub mod Laws
pub mod Crypto
use tax_professional_managem.Common.{
  ℕ, ◌+◌, Bool, true, false, not, ◌&&◌, List, [], ◌∷◌, ◌++◌, map, Option, none, some, ◌==◌,
  if◌then◌else◌, or_else, keep, is_some, is_none, String, str_eq,
}
use tax_professional_managem.Common.Table.{find_first, update_where}
use tax_professional_managem.Types.{AuditAction, CredentialStatus}
use tax_professional_managem.Db.{
  Db, User, Credential, EncryptedCredential, CredentialAccessLog, PortalAccount, Setting,
}
use tax_professional_managem.Db.Action.{
  Action, ok, not_found, forbidden, unauthorized, internal, portal_account_not_found,
  credential_not_found, credential_reveal_disabled, reauthentication_failed, pure, throw, gets,
  or_throw, throw_if, modify, ◌>>=◌, ◌>>◌, RequestMeta, log, entry,
}
use tax_professional_managem.Auth.{AuthEnv, verify_password}

-- `CredentialPlaintext`
pub record Plaintext : Type 0 where
  pub username : String
  pub password : String

-- `CredentialCryptoService`: `encrypt` takes its randomness first, and either is `none` where it
-- throws.
pub record CryptoEnv : Type 0 where
  pub auth : AuthEnv
  pub encrypt : String → Plaintext → Option EncryptedCredential
  pub decrypt : EncryptedCredential → Option Plaintext

-- `METADATA_SELECT`
pub record Metadata : Type 0 where
  pub id : ℕ
  pub portal_account_id : ℕ
  pub status : CredentialStatus
  pub last_used_at : Option ℕ
  pub last_rotated_at : Option ℕ

abbrev pub metadata : Credential → Metadata
metadata c = record {
  id = c.id;
  portal_account_id = c.portal_account_id;
  status = c.status;
  last_used_at = c.last_used_at;
  last_rotated_at = c.last_rotated_at;
}

abbrev pub is_live_credential : ℕ → ℕ → Credential → Bool
is_live_credential organization id c =
    (c.id == id) && (c.organization_id == organization) && is_none c.deleted_at

unfoldable pub require_full_record : ℕ → ℕ → Action Credential
require_full_record organization id = do
  found ← gets (λ db. find_first (is_live_credential organization id) db.credentials)
  or_throw found (not_found credential_not_found)

abbrev pub is_portal_account : ℕ → ℕ → PortalAccount → Bool
is_portal_account organization id a = (a.id == id) && (a.organization_id == organization)

unfoldable pub require_portal_account : ℕ → ℕ → Action (Unit {0})
require_portal_account organization id = do
  found ← gets (λ db. find_first (is_portal_account organization id) db.portal_accounts)
  or_throw found (not_found portal_account_not_found)
  pure tt

unfoldable pub record_access : ℕ → ℕ → ℕ → String → Option ℕ → Action (Unit {0})
record_access id organization user action portal_session = modify (λ db. record db {
  access_logs =
      db.access_logs
      ++ (record {
        credential_id = id;
        organization_id = organization;
        user_id = user;
        action = action;
        portal_session_id = portal_session;
      }
          ∷ []);
})

unfoldable pub insert_credential : ℕ → ℕ → EncryptedCredential → ℕ → Action Credential
insert_credential organization account encrypted actor db =
    let row : Credential = record {
      id = db.next_id;
      organization_id = organization;
      portal_account_id = account;
      encrypted = encrypted;
      status = CredentialStatus.active;
      last_used_at = none;
      last_rotated_at = none;
      created_by_id = actor;
      deleted_at = none;
    } in
    (ok row, record db { next_id = db.next_id + 1; credentials = db.credentials ++ (row ∷ []) })

-- `update` of one row, which fails where there is none.
unfoldable pub update_credential : ℕ → (Credential → Credential) → Action Credential
update_credential id f = do
  found ← gets (λ db. find_first (λ (c : Credential). c.id == id) db.credentials)
  row ← or_throw found internal
  modify (λ db. record db { credentials = update_where (λ c. c.id == id) f db.credentials })
  pure (f row)

unfoldable pub create :
    CryptoEnv → ℕ → String → ℕ → ℕ → Plaintext → ℕ → RequestMeta → Action Metadata
create env now random organization account dto actor meta = do
  require_portal_account organization account
  encrypted ← or_throw (env.encrypt random dto) internal
  row ← insert_credential organization account encrypted actor
  record_access row.id organization actor "CREATED" none
  log now meta (
      entry (some organization) (some actor) AuditAction.credential_created "credential"
        (some row.id) true)
  pure (metadata row)

-- The newest first: rows are in the order of their creation.
abbrev newest : {A B : Type 0} → (A → B) → List A → List B
newest f [] = []
newest f (x ∷ xs) = newest f xs ++ (f x ∷ [])

abbrev pub is_listed : ℕ → ℕ → Credential → Bool
is_listed organization account c =
    (c.organization_id == organization) && (c.portal_account_id == account) && is_none c.deleted_at

unfoldable pub list_metadata : ℕ → ℕ → Action (List Metadata)
list_metadata organization account =
    gets (λ db. newest metadata (keep (is_listed organization account) db.credentials))

unfoldable pub get_metadata : ℕ → ℕ → ℕ → ℕ → RequestMeta → Action Metadata
get_metadata now organization id actor meta = do
  found ← gets (λ db. find_first (is_live_credential organization id) db.credentials)
  row ← or_throw found (not_found credential_not_found)
  record_access id organization actor "VIEWED_METADATA" none
  log now meta (
      entry (some organization) (some actor) AuditAction.credential_accessed "credential" (some id)
        true)
  pure (metadata row)

pub record RotateDto : Type 0 where
  pub username : Option String
  pub password : Option String

abbrev pub set_encrypted : ℕ → EncryptedCredential → Credential → Credential
set_encrypted now encrypted c = record c {
  encrypted = encrypted;
  status = CredentialStatus.active;
  last_rotated_at = some now;
}

abbrev pub merged : RotateDto → Plaintext → Plaintext
merged dto current = record {
  username = or_else dto.username current.username;
  password = or_else dto.password current.password;
}

unfoldable pub rotate :
    CryptoEnv → ℕ → String → ℕ → ℕ → RotateDto → ℕ → RequestMeta → Action Metadata
rotate env now random organization id dto actor meta = do
  row ← require_full_record organization id
  current ← or_throw (env.decrypt row.encrypted) internal
  encrypted ← or_throw (env.encrypt random (merged dto current)) internal
  updated ← update_credential id (set_encrypted now encrypted)
  record_access id organization actor "ROTATED" none
  log now meta (
      entry (some organization) (some actor) AuditAction.credential_rotated "credential" (some id)
        true)
  pure (metadata updated)

abbrev pub set_deleted : ℕ → Credential → Credential
set_deleted now c = record c { deleted_at = some now; status = CredentialStatus.revoked }

unfoldable pub remove : ℕ → ℕ → ℕ → ℕ → RequestMeta → Action (Unit {0})
remove now organization id actor meta = do
  require_full_record organization id
  update_credential id (set_deleted now)
  record_access id organization actor "DELETED" none
  log now meta (
      entry (some organization) (some actor) AuditAction.credential_deleted "credential" (some id)
        true)

abbrev pub is_reveal_setting : ℕ → Setting → Bool
is_reveal_setting organization s =
    (s.organization_id == organization) && str_eq s.key "credentials.revealEnabled"

-- Enabled where there is no row; a row enables it by the literal `true` alone.
abbrev pub is_reveal_disabled : Option Setting → Bool
is_reveal_disabled none = false
is_reveal_disabled (some s) = not s.is_true

unfoldable pub assert_reveal_allowed : ℕ → Action (Unit {0})
assert_reveal_allowed organization = do
  setting ← gets (λ db. find_first (is_reveal_setting organization) db.settings)
  throw_if (is_reveal_disabled setting) (forbidden credential_reveal_disabled)

unfoldable pub decrypt_for_portal_session : CryptoEnv → ℕ → ℕ → Action Plaintext
decrypt_for_portal_session env organization id = do
  row ← require_full_record organization id
  or_throw (env.decrypt row.encrypted) internal

-- What comes before the decryption: the organization's policy, and the actor's own password.
unfoldable pub reveal_check : CryptoEnv → ℕ → ℕ → ℕ → ℕ → String → RequestMeta → Action (Unit {0})
reveal_check env now organization id actor current_password meta = do
  assert_reveal_allowed organization
  found ← gets (λ db. find_first (λ (u : User). u.id == actor) db.users)
  user ← or_throw found internal
  if verify_password env.auth user.password_hash current_password
      then pure tt
      else log now meta (
          entry (some organization) (some actor) AuditAction.credential_revealed "credential"
            (some id) false)
        >> throw (unauthorized reauthentication_failed)

unfoldable pub reveal : CryptoEnv → ℕ → ℕ → ℕ → ℕ → String → RequestMeta → Action Plaintext
reveal env now organization id actor current_password meta = do
  reveal_check env now organization id actor current_password meta
  plaintext ← decrypt_for_portal_session env organization id
  record_access id organization actor "REVEALED" none
  log now meta (
      entry (some organization) (some actor) AuditAction.credential_revealed "credential" (some id)
        true)
  pure plaintext

abbrev pub set_last_used : ℕ → Credential → Credential
set_last_used now c = record c { last_used_at = some now }

unfoldable pub mark_used : ℕ → ℕ → Action (Unit {0})
mark_used now id = do update_credential id (set_last_used now); pure tt
