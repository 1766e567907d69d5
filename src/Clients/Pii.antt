-- ===== src/Clients/Pii.antt =====
-- apps/api/src/clients/client-pii.service.ts: between the plain shape of a client or a contact and
-- the encrypted columns that are stored.
use tax_professional_managem.Common.{
  ℕ, Bool, false, ◌&&◌, ◌||◌, [], ◌++◌, all, Option, none, some, leb, String, if◌then◌else◌, str_eq,
}
use tax_professional_managem.Common.Text.{Text, codes, decimal, is_digit}
use tax_professional_managem.Types.{EntityType, ClientStatus}
use tax_professional_managem.Db.{Client, ClientContact}
use tax_professional_managem.Db.Action.{
  Action, server_error, client_data_integrity, pure, fresh_id, ◌>>=◌,
}
use tax_professional_managem.DataProtection.Keys.{KeyEnv}
use tax_professional_managem.DataProtection.Cipher.{
  Sealed, encrypt, decrypt, blind_index, normalize_identifier,
}

-- `ClientPii`. An address is a JSON value, given by its text.
pub record ClientPii : Type 0 where
  pub pan : Option Text
  pub gstin : Option Text
  pub tan : Option Text
  pub cin : Option Text
  pub address : Option Text
  pub email : Option Text
  pub phone : Option Text
  pub contact_person : Option Text
  pub notes : Option Text

-- `EMPTY_CLIENT_PII`
abbrev pub empty_pii : ClientPii
empty_pii = record {
  pan = none;
  gstin = none;
  tan = none;
  cin = none;
  address = none;
  email = none;
  phone = none;
  contact_person = none;
  notes = none;
}

-- `ContactPii`
pub record ContactPii : Type 0 where
  pub name : Text
  pub role : Option Text
  pub email : Option Text
  pub phone : Option Text

-- `JSON.stringify` and `JSON.parse` on the two shapes; `parse` is `none` where it throws, and gives
-- null for a field that the text has not. `nonce` gives the random bytes of the n-th encryption.
pub record ClientEnv : Type 0 where
  pub keys : KeyEnv
  pub nonce : ℕ → Text
  pub stringify : ClientPii → Text
  pub parse : Text → Option ClientPii
  pub stringify_contact : ContactPii → Text
  pub parse_contact : Text → Option ContactPii

abbrev pub client_context : ℕ → ℕ → Text
client_context organization client =
    codes "client:" ++ (decimal organization ++ (codes ":" ++ decimal client))

abbrev pub contact_context : ℕ → ℕ → ℕ → Text
contact_context organization client contact =
    codes "client-contact:"
    ++ (decimal organization ++ (codes ":" ++ (decimal client ++ (codes ":" ++ decimal contact))))

pub record ClientColumns : Type 0 where
  pub sealed : Sealed
  pub pan_index : Option String
  pub gstin_index : Option String
  pub tan_index : Option String
  pub cin_index : Option String

unfoldable pub encrypt_client : ClientEnv → ℕ → ℕ → ℕ → ClientPii → Action ClientColumns
encrypt_client env now organization client pii = do
  n ← fresh_id
  sealed ←
      encrypt env.keys (env.nonce n) now organization (client_context organization client)
        (env.stringify pii)
  pan ← blind_index env.keys now organization (codes "pan") pii.pan
  gstin ← blind_index env.keys now organization (codes "gstin") pii.gstin
  tan ← blind_index env.keys now organization (codes "tan") pii.tan
  cin ← blind_index env.keys now organization (codes "cin") pii.cin
  pure (record {
    sealed = sealed;
    pan_index = pan;
    gstin_index = gstin;
    tan_index = tan;
    cin_index = cin;
  })

unfoldable pub decrypt_columns : ClientEnv → ℕ → ℕ → ℕ → Option Text → Option ℕ → Action ClientPii
decrypt_columns env now organization client none key = pure empty_pii
decrypt_columns env now organization client (some ciphertext) none = pure empty_pii
decrypt_columns env now organization client (some ciphertext) (some key) =
    decrypt env.keys (server_error client_data_integrity) env.parse now organization
      (client_context organization client) (record { ciphertext = ciphertext; key_id = key })

unfoldable pub decrypt_client : ClientEnv → ℕ → Client → Action ClientPii
decrypt_client env now row =
    decrypt_columns env now row.organization_id row.id row.pii_ciphertext row.pii_key_id

-- `ClientView`: no encrypted column, key reference or index is in it.
pub record ClientView : Type 0 where
  pub id : ℕ
  pub organization_id : ℕ
  pub name : String
  pub entity_type : EntityType
  pub status : ClientStatus
  pub deleted_at : Option ℕ
  pub pii : ClientPii

abbrev pub view_of : Client → ClientPii → ClientView
view_of row pii = record {
  id = row.id;
  organization_id = row.organization_id;
  name = row.name;
  entity_type = row.entity_type;
  status = row.status;
  deleted_at = row.deleted_at;
  pii = pii;
}

unfoldable pub to_client_view : ClientEnv → ℕ → Client → Action ClientView
to_client_view env now row = do pii ← decrypt_client env now row; pure (view_of row pii)

unfoldable pub encrypt_contact : ClientEnv → ℕ → ℕ → ℕ → ℕ → ContactPii → Action Sealed
encrypt_contact env now organization client contact pii = do
  n ← fresh_id
  encrypt env.keys (env.nonce n) now organization (contact_context organization client contact)
      (env.stringify_contact pii)

unfoldable pub decrypt_contact :
    ClientEnv → ℕ → ℕ → ℕ → ℕ → Option Text → Option ℕ → Action ContactPii
decrypt_contact env now organization client contact none key =
    pure (record { name = []; role = none; email = none; phone = none })
decrypt_contact env now organization client contact (some ciphertext) none =
    pure (record { name = []; role = none; email = none; phone = none })
decrypt_contact env now organization client contact (some ciphertext) (some key) =
    decrypt env.keys (server_error client_data_integrity) env.parse_contact now organization
      (contact_context organization client contact)
      (record { ciphertext = ciphertext; key_id = key })

-- `ContactView`
pub record ContactView : Type 0 where
  pub id : ℕ
  pub client_id : ℕ
  pub is_primary : Bool
  pub pii : ContactPii

unfoldable pub to_contact_view : ClientEnv → ℕ → ℕ → ClientContact → Action ContactView
to_contact_view env now organization row = do
  pii ← decrypt_contact env now organization row.client_id row.id row.pii_ciphertext row.pii_key_id
  pure (record { id = row.id; client_id = row.client_id; is_primary = row.is_primary; pii = pii })

-- `/^[A-Z0-9]+$/`, of a text that is not empty.
abbrev pub is_identifier : Text → Bool
is_identifier text = all (λ c. (leb b'A' c && leb c b'Z') || is_digit c) text

-- The values to find in the four index columns.
pub record SearchIndexes : Type 0 where
  pub pan_index : Option String
  pub gstin_index : Option String
  pub tan_index : Option String
  pub cin_index : Option String

unfoldable pub indexes_of : ClientEnv → ℕ → ℕ → Text → Action (Option SearchIndexes)
indexes_of env now organization normalized = do
  pan ← blind_index env.keys now organization (codes "pan") (some normalized)
  gstin ← blind_index env.keys now organization (codes "gstin") (some normalized)
  tan ← blind_index env.keys now organization (codes "tan") (some normalized)
  cin ← blind_index env.keys now organization (codes "cin") (some normalized)
  pure (some (record { pan_index = pan; gstin_index = gstin; tan_index = tan; cin_index = cin }))

unfoldable pub indexes_if : ClientEnv → ℕ → ℕ → Option Text → Action (Option SearchIndexes)
indexes_if env now organization none = pure none
indexes_if env now organization (some normalized) =
    if is_identifier normalized then indexes_of env now organization normalized else pure none

-- `searchIndexes`: no clause at all for what cannot be an identifier.
unfoldable pub search_indexes : ClientEnv → ℕ → ℕ → Text → Action (Option SearchIndexes)
search_indexes env now organization search =
    indexes_if env now organization (normalize_identifier (some search))

abbrev pub is_index : Option String → Option String → Bool
is_index none index = false
is_index (some a) none = false
is_index (some a) (some b) = str_eq a b

abbrev pub matches_index : Option SearchIndexes → Client → Bool
matches_index none c = false
matches_index (some s) c =
    is_index c.pan_index s.pan_index
    || is_index c.gstin_index s.gstin_index
    || is_index c.tan_index s.tan_index
    || is_index c.cin_index s.cin_index
