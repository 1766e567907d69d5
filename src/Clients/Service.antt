-- ===== src/Clients/Service.antt =====
-- `get`, `create`, `update` and `remove` of apps/api/src/clients/clients.service.ts. The columns for
-- the financial year, the assessment year and the tags, which are only copied, are left out.
use tax_professional_managem.Common.{
  ℕ, Bool, true, ◌&&◌, List, [], ◌∷◌, ◌++◌, Option, none, some, ◌==◌, if◌then◌else◌, is_none,
  or_else, keep, String,
}
use tax_professional_managem.Common.Text.{Text}
use tax_professional_managem.Common.Table.{find_first, update_where}
use tax_professional_managem.Types.{EntityType, ClientStatus, AuditAction}
use tax_professional_managem.Db.{Client, ClientContact}
use tax_professional_managem.Db.Action.{
  Action, not_found, client_not_found, pure, gets, or_throw, modify, fresh_id, ◌>>=◌, ◌>>◌,
  RequestMeta, log, entry,
}
use tax_professional_managem.Compliance.{is_live_client}
use tax_professional_managem.Clients.Pii.{
  ClientPii, empty_pii, ClientEnv, ClientColumns, ClientView, ContactView, encrypt_client,
  decrypt_client, to_client_view, to_contact_view,
}

-- `requireClient`, which gives the row.
unfoldable pub require_client_row : ℕ → ℕ → Action Client
require_client_row organization id = do
  found ← gets (λ db. find_first (is_live_client organization id) db.clients)
  or_throw found (not_found client_not_found)

unfoldable pub client_views : ClientEnv → ℕ → List Client → Action (List ClientView)
client_views env now [] = pure []
client_views env now (c ∷ cs) = do
  view ← to_client_view env now c
  views ← client_views env now cs
  pure (view ∷ views)

unfoldable pub contact_views : ClientEnv → ℕ → ℕ → List ClientContact → Action (List ContactView)
contact_views env now organization [] = pure []
contact_views env now organization (c ∷ cs) = do
  view ← to_contact_view env now organization c
  views ← contact_views env now organization cs
  pure (view ∷ views)

abbrev pub is_contact_of : ℕ → ClientContact → Bool
is_contact_of client c = c.client_id == client

-- `get`, with the assignments and the portal accounts that it joins left out.
unfoldable pub get_client : ClientEnv → ℕ → ℕ → ℕ → Action (ClientView × List ContactView)
get_client env now organization id = do
  row ← require_client_row organization id
  contacts ← gets (λ db. keep (is_contact_of id) db.contacts)
  view ← to_client_view env now row
  views ← contact_views env now organization contacts
  pure (view, views)

-- The encrypted fields of a request: missing, null or a text.
pub record PiiPatch : Type 0 where
  pub pan : Option (Option Text)
  pub gstin : Option (Option Text)
  pub tan : Option (Option Text)
  pub cin : Option (Option Text)
  pub address : Option (Option Text)
  pub email : Option (Option Text)
  pub phone : Option (Option Text)
  pub contact_person : Option (Option Text)
  pub notes : Option (Option Text)

-- `{ ...old, ...pii }`
abbrev pub merge_pii : ClientPii → PiiPatch → ClientPii
merge_pii old p = record {
  pan = or_else p.pan old.pan;
  gstin = or_else p.gstin old.gstin;
  tan = or_else p.tan old.tan;
  cin = or_else p.cin old.cin;
  address = or_else p.address old.address;
  email = or_else p.email old.email;
  phone = or_else p.phone old.phone;
  contact_person = or_else p.contact_person old.contact_person;
  notes = or_else p.notes old.notes;
}

-- `Object.keys(pii).length > 0` fails.
abbrev pub is_empty_patch : PiiPatch → Bool
is_empty_patch p =
    is_none p.pan
    && is_none p.gstin
    && is_none p.tan
    && is_none p.cin
    && is_none p.address
    && is_none p.email
    && is_none p.phone
    && is_none p.contact_person
    && is_none p.notes

-- What `splitPii` takes apart.
pub record CreateClientDto : Type 0 where
  pub name : String
  pub entity_type : EntityType
  pub status : Option ClientStatus
  pub pii : PiiPatch

abbrev pub client_row : ℕ → ℕ → CreateClientDto → ClientColumns → Client
client_row id organization dto columns = record {
  id = id;
  organization_id = organization;
  name = dto.name;
  entity_type = dto.entity_type;
  status = or_else dto.status ClientStatus.onboarding;
  pii_ciphertext = some columns.sealed.ciphertext;
  pii_key_id = some columns.sealed.key_id;
  pan_index = columns.pan_index;
  gstin_index = columns.gstin_index;
  tan_index = columns.tan_index;
  cin_index = columns.cin_index;
  deleted_at = none;
}

abbrev pub log_client : ℕ → RequestMeta → ℕ → ℕ → AuditAction → ℕ → Action (Unit {0})
log_client now meta organization actor action id =
    log now meta (entry (some organization) (some actor) action "client" (some id) true)

unfoldable pub create_client :
    ClientEnv → ℕ → ℕ → CreateClientDto → ℕ → RequestMeta → Action ClientView
create_client env now organization dto actor meta = do
  id ← fresh_id
  columns ← encrypt_client env now organization id (merge_pii empty_pii dto.pii)
  modify (λ db. record db { clients = db.clients ++ (client_row id organization dto columns ∷ []) })
  log_client now meta organization actor AuditAction.client_created id
  to_client_view env now (client_row id organization dto columns)

pub record UpdateClientDto : Type 0 where
  pub name : Option String
  pub entity_type : Option EntityType
  pub status : Option ClientStatus
  pub pii : PiiPatch

abbrev pub patch_client : UpdateClientDto → Client → Client
patch_client dto c = record c {
  name = or_else dto.name c.name;
  entity_type = or_else dto.entity_type c.entity_type;
  status = or_else dto.status c.status;
}

abbrev pub set_columns : ClientColumns → Client → Client
set_columns columns c = record c {
  pii_ciphertext = some columns.sealed.ciphertext;
  pii_key_id = some columns.sealed.key_id;
  pan_index = columns.pan_index;
  gstin_index = columns.gstin_index;
  tan_index = columns.tan_index;
  cin_index = columns.cin_index;
}

-- `piiColumns`, as the change that they make to the row.
unfoldable pub pii_change : ClientEnv → ℕ → ℕ → PiiPatch → Client → Action (Client → Client)
pii_change env now organization p existing = if is_empty_patch p then pure (λ c. c) else do
  old ← decrypt_client env now existing
  columns ← encrypt_client env now organization existing.id (merge_pii old p)
  pure (set_columns columns)

unfoldable pub update_client :
    ClientEnv → ℕ → ℕ → ℕ → UpdateClientDto → ℕ → RequestMeta → Action ClientView
update_client env now organization id dto actor meta = do
  existing ← require_client_row organization id
  change ← pii_change env now organization dto.pii existing
  modify (λ db. record db {
    clients =
        update_where (λ (c : Client). c.id == id) (λ c. change (patch_client dto c)) db.clients;
  })
  log_client now meta organization actor AuditAction.client_updated id
  to_client_view env now (change (patch_client dto existing))

abbrev pub set_client_deleted : ℕ → Client → Client
set_client_deleted now c = record c { deleted_at = some now }

unfoldable pub remove_client : ℕ → ℕ → ℕ → ℕ → RequestMeta → Action (Unit {0})
remove_client now organization id actor meta = do
  require_client_row organization id
  modify (λ db. record db {
    clients = update_where (λ (c : Client). c.id == id) (set_client_deleted now) db.clients;
  })
  log_client now meta organization actor AuditAction.client_deleted id
