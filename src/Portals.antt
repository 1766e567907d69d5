-- ===== src/Portals.antt =====
-- apps/api/src/portals/portals.service.ts: the catalog of government portals, and the accounts that
-- clients have there. The rows that a query joins are left out.
use tax_professional_managem.Common.{
  ℕ, Bool, ◌&&◌, List, [], ◌∷◌, ◌++◌, Option, none, some, ◌==◌, keep, if◌then◌else◌, String,
}
use tax_professional_managem.Common.Table.{find_first, order_by}
use tax_professional_managem.Db.{Portal, PortalAccount}
use tax_professional_managem.Db.Action.{
  Action, not_found, portal_not_found, portal_account_not_found, pure, gets, or_throw, modify,
  fresh_id, ◌>>=◌, ◌>>◌,
}
use tax_professional_managem.Compliance.{require_client}

-- `before` is the database's order of names.
unfoldable pub list_catalog : (String → String → Bool) → Action (List Portal)
list_catalog before = gets (λ db.
    order_by (λ (a b : Portal). before a.name b.name)
      (keep (λ (p : Portal). p.is_active) db.portals))

abbrev pub is_client_account : ℕ → ℕ → PortalAccount → Bool
is_client_account organization client a =
    (a.organization_id == organization) && (a.client_id == client)

unfoldable pub list_accounts_for_client : ℕ → ℕ → Action (List PortalAccount)
list_accounts_for_client organization client = do
  require_client organization client
  gets (λ db. keep (is_client_account organization client) db.portal_accounts)

pub record CreatePortalAccountDto : Type 0 where
  pub portal_id : ℕ
  pub identifier : String
  pub display_username : Option String

abbrev pub account_row : ℕ → ℕ → ℕ → CreatePortalAccountDto → PortalAccount
account_row id organization client dto = record {
  id = id;
  organization_id = organization;
  client_id = client;
  portal_id = dto.portal_id;
  identifier = dto.identifier;
  display_username = dto.display_username;
}

-- `if (!portal || !portal.isActive)`
abbrev pub active_portal : Option Portal → Option Portal
active_portal none = none
active_portal (some p) = if p.is_active then some p else none

unfoldable pub create_account : ℕ → ℕ → CreatePortalAccountDto → Action PortalAccount
create_account organization client dto = do
  require_client organization client
  portal ← gets (λ db. find_first (λ (p : Portal). p.id == dto.portal_id) db.portals)
  or_throw (active_portal portal) (not_found portal_not_found)
  id ← fresh_id
  modify (λ db. record db {
    portal_accounts = db.portal_accounts ++ (account_row id organization client dto ∷ []);
  })
  pure (account_row id organization client dto)

unfoldable pub require_account : ℕ → ℕ → Action PortalAccount
require_account organization id = do
  found ← gets (λ db.
      find_first (λ (a : PortalAccount). (a.id == id) && (a.organization_id == organization))
        db.portal_accounts)
  or_throw found (not_found portal_account_not_found)
