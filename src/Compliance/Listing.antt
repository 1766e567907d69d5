-- ===== src/Compliance/Listing.antt =====
-- `list` and `listCatalog` of apps/api/src/compliance/compliance.service.ts.
use tax_professional_managem.Common.{
  ℕ, ◌≡◌, Bool, ◌&&◌, List, any, Option, none, some, leb, ◌==◌, if◌then◌else◌, keep, String, arith,
  All, All-keep,
}
use mathlib.Core.Path.{subst}
use tax_professional_managem.Common.Table.{order_by, All-order}
use tax_professional_managem.Common.Paging.{Page, page_of}
use tax_professional_managem.Common.Paging.Laws.{All-page}
use tax_professional_managem.Types.{ComplianceStatus, compliance_status_index}
use tax_professional_managem.Db.{Db, ComplianceType, ComplianceItem}
use tax_professional_managem.Db.Action.{Action, ok, gets}
use tax_professional_managem.Db.Action.Effects.{gets_ok}
use tax_professional_managem.Tasks.{given}
use tax_professional_managem.Compliance.Items.{due_before, is_item}

-- `ComplianceItemListFilters`; a date is given by its instant, as `new Date` reads it.
pub record ComplianceItemListFilters : Type 0 where
  pub status : Option ComplianceStatus
  pub client_id : Option ℕ
  pub compliance_type_id : Option ℕ
  pub due_before : Option ℕ
  pub due_after : Option ℕ
  pub cursor : Option ℕ
  pub limit : Option ℕ

abbrev is_listed_item : ℕ → ComplianceItemListFilters → ComplianceItem → Bool
is_listed_item organization filters i =
    (i.organization_id == organization)
    && given filters.status (λ s. compliance_status_index i.status == compliance_status_index s)
    && given filters.client_id (λ client. i.client_id == client)
    && given filters.compliance_type_id (λ type. i.compliance_type_id == type)
    && given filters.due_before (λ date. leb i.due_date date)
    && given filters.due_after (λ date. leb date i.due_date)

abbrev listed_items : ℕ → ComplianceItemListFilters → Db → List ComplianceItem
listed_items organization filters db =
    order_by due_before (keep (is_listed_item organization filters) db.compliance_items)

-- The cursor, if it names a row of the organization.
abbrev known_item_cursor : ℕ → Option ℕ → Db → Option ℕ
known_item_cursor organization none db = none
known_item_cursor organization (some id) db =
    if any (is_item organization id) db.compliance_items then some id else none

unfoldable pub list_items : ℕ → ComplianceItemListFilters → Action (Page ComplianceItem)
list_items organization filters = gets (λ db.
    page_of (λ (i : ComplianceItem). i.id) filters.limit
      (known_item_cursor organization filters.cursor db) (listed_items organization filters db))

-- `before` is the database's order of names.
unfoldable pub list_catalog : (String → String → Bool) → Action (List ComplianceType)
list_catalog before =
    gets (λ db. order_by (λ (a b : ComplianceType). before a.name b.name) db.compliance_types)

abbrev IsOwn : ℕ → ComplianceItem → Type 0
IsOwn organization i = i.organization_id ≡ organization

-- Whatever the filters and the cursor, which may name a filing of another firm: every filing on a
-- page that is returned is one of the organization's own.
list_items-IsOwn :
    (organization : ℕ) (filters : ComplianceItemListFilters) (db db' : Db)
    (page : Page ComplianceItem)
    → list_items organization filters db ≡ (ok page, db')
    → All (IsOwn organization) page.items
unfolding list_items
list_items-IsOwn organization filters db db' page e =
    subst (λ (p : Page ComplianceItem). All (IsOwn organization) p.items) (gets_ok _ e).0
      (All-page (IsOwn organization) (λ (i : ComplianceItem). i.id) filters.limit
        (known_item_cursor organization filters.cursor db) (listed_items organization filters db)
        (All-order (IsOwn organization) _ _ (
          All-keep (IsOwn organization) (is_listed_item organization filters) db.compliance_items
            (λ i e. ground arith))))
