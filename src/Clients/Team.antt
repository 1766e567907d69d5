-- ===== src/Clients/Team.antt =====
-- The contacts of a client and the members that it is assigned to, in
-- apps/api/src/clients/clients.service.ts.
use tax_professional_managem.Common.{
  ℕ, Bool, false, ◌&&◌, List, [], ◌∷◌, ◌++◌, Option, none, some, ◌==◌, or_else, keep, String,
}
use tax_professional_managem.Common.Table.{find_first, update_where}
use tax_professional_managem.Types.{AuditAction}
use tax_professional_managem.Db.{ClientContact, ClientAssignment}
use tax_professional_managem.Db.Action.{
  Action, not_found, assignment_not_found, member_not_found, pure, gets, or_throw, modify, fresh_id,
  ◌>>=◌, ◌>>◌, RequestMeta,
}
use tax_professional_managem.Compliance.Items.{is_member_of}
use tax_professional_managem.DataProtection.Cipher.{Sealed}
use tax_professional_managem.Clients.Pii.{
  ContactPii, ClientEnv, ContactView, encrypt_contact, to_contact_view,
}
use tax_professional_managem.Clients.Service.{
  require_client_row, contact_views, is_contact_of, log_client,
}

pub record CreateContactDto : Type 0 where
  pub pii : ContactPii
  pub is_primary : Option Bool

abbrev pub contact_row : ℕ → ℕ → CreateContactDto → Sealed → ClientContact
contact_row id client dto sealed = record {
  id = id;
  client_id = client;
  is_primary = or_else dto.is_primary false;
  pii_ciphertext = some sealed.ciphertext;
  pii_key_id = some sealed.key_id;
}

unfoldable pub add_contact : ClientEnv → ℕ → ℕ → ℕ → CreateContactDto → Action ContactView
add_contact env now organization client dto = do
  require_client_row organization client
  id ← fresh_id
  sealed ← encrypt_contact env now organization client id dto.pii
  modify (λ db. record db { contacts = db.contacts ++ (contact_row id client dto sealed ∷ []) })
  to_contact_view env now organization (contact_row id client dto sealed)

unfoldable pub list_contacts : ClientEnv → ℕ → ℕ → ℕ → Action (List ContactView)
list_contacts env now organization client = do
  require_client_row organization client
  contacts ← gets (λ db. keep (is_contact_of client) db.contacts)
  contact_views env now organization contacts

abbrev pub assignment_row : ℕ → ℕ → ℕ → Option String → ClientAssignment
assignment_row id client member role = record {
  id = id;
  client_id = client;
  organization_member_id = member;
  assigned_role = role;
  unassigned_at = none;
}

unfoldable pub assign_client :
    ℕ → ℕ → ℕ → ℕ → Option String → ℕ → RequestMeta → Action ClientAssignment
assign_client now organization client member role actor meta = do
  require_client_row organization client
  found ← gets (λ db. find_first (is_member_of organization member) db.members)
  or_throw found (not_found member_not_found)
  id ← fresh_id
  modify (λ db. record db {
    assignments = db.assignments ++ (assignment_row id client member role ∷ []);
  })
  log_client now meta organization actor AuditAction.client_assigned client
  pure (assignment_row id client member role)

abbrev pub is_assignment_of : ℕ → ℕ → ClientAssignment → Bool
is_assignment_of client id a = (a.id == id) && (a.client_id == client)

abbrev pub set_unassigned : ℕ → ClientAssignment → ClientAssignment
set_unassigned now a = record a { unassigned_at = some now }

unfoldable pub unassign_client : ℕ → ℕ → ℕ → ℕ → ℕ → RequestMeta → Action ClientAssignment
unassign_client now organization client id actor meta = do
  require_client_row organization client
  found ← gets (λ db. find_first (is_assignment_of client id) db.assignments)
  assignment ← or_throw found (not_found assignment_not_found)
  modify (λ db. record db {
    assignments =
        update_where (λ (a : ClientAssignment). a.id == id) (set_unassigned now) db.assignments;
  })
  log_client now meta organization actor AuditAction.client_assigned client
  pure (set_unassigned now assignment)
