-- ===== src/Compliance/Index/Keeps.antt =====
-- The operations of the compliance service keep the unique index.
use tax_professional_managem.Common.{
  ℕ, ◌≡◌, refl, Bool, false, List, [], ◌∷◌, Option, none, some, arith, any, ◌==◌, inl, inr,
  Bool-cases,
}
use tax_professional_managem.Common.Text.{Text}
use tax_professional_managem.Common.Table.{update_where, delete_where}
use tax_professional_managem.Db.{Db, Client, ComplianceItem}
use tax_professional_managem.Db.Action.{modify, RequestMeta, AuditEntry, log}
use tax_professional_managem.Db.Action.Effects.{IsEffect, Effect, effect_rules}
use tax_professional_managem.Compliance.{
  ComplianceEnv, require_client, require_financial_year, calendar_types, CalendarTotals,
  create_calendar_items, generate_check, generate, generate_each, generate_for_all_clients,
}
use tax_professional_managem.Compliance.Calendar.{
  CalendarType, NewItem, has_key, to_item, insert_row, insert_rows, create_items,
}
use tax_professional_managem.Compliance.Items.{
  CreateItemDto, UpdateItemDto, patch, require_item, require_assignee, item_row, insert_item,
  create, update, remove,
}
use tax_professional_managem.Compliance.Index.{
  conflicts, IsUnique, append-IsUnique, update-IsUnique, delete-IsUnique,
}

pub record KeepsIndex (db db' : Db) : Type 0 where
  pub unique : IsUnique db.compliance_items → IsUnique db'.compliance_items

pub KeepsIndex-IsEffect : IsEffect KeepsIndex
KeepsIndex-IsEffect = record {
  unchanged = λ db. record { unique = λ u. u };
  after = λ a b c h k. record { unique = λ u. k.unique (h.unique u) };
}

log-KeepsIndex :
    (now : ℕ) (meta : RequestMeta) (e : AuditEntry) → Effect KeepsIndex (log now meta e)
unfolding log
log-KeepsIndex now meta e = record { at = λ db. record { unique = λ u. u } }

no_period :
    (xs : List ComplianceItem) (y : ComplianceItem)
    → y.period ≡ none
    → any (λ x. conflicts x y) xs ≡ false
no_period [] y e = refl
no_period (x ∷ xs) y e = ground (arith, e, no_period xs y e)

insert_item-KeepsIndex :
    (organization client : ℕ) (dto : CreateItemDto)
    → Effect KeepsIndex (insert_item organization client dto)
unfolding insert_item
insert_item-KeepsIndex organization client dto = record {
  at = λ db. record {
    unique = λ u.
        append-IsUnique db.compliance_items (item_row db.next_id organization client dto) u
          (no_period db.compliance_items (item_row db.next_id organization client dto) refl);
  };
}

modify_items-KeepsIndex :
    (id : ℕ) (dto : UpdateItemDto)
    → Effect KeepsIndex (
        modify (λ db. record db {
          compliance_items = update_where (λ i. i.id == id) (patch dto) db.compliance_items;
        }))
unfolding modify
modify_items-KeepsIndex id dto = record {
  at = λ db. record {
    unique = λ u. update-IsUnique _ (patch dto) db.compliance_items (λ i j. (refl, refl)) u;
  };
}

delete_items-KeepsIndex :
    (id : ℕ)
    → Effect KeepsIndex (
        modify (λ db. record db {
          compliance_items = delete_where (λ i. i.id == id) db.compliance_items;
        }))
unfolding modify
delete_items-KeepsIndex id = record {
  at = λ db. record { unique = λ u. delete-IsUnique _ db.compliance_items u };
}

insert_row-KeepsIndex : (r : NewItem) (db : Db) → KeepsIndex db (insert_row r db)
unfolding insert_row
insert_row-KeepsIndex r db = elim (Bool-cases (any (has_key r) db.compliance_items)) [
  | inl there ↦ rw there (KeepsIndex-IsEffect.unchanged db)
  | inr new ↦
      rw new
        (record { unique = λ u. append-IsUnique db.compliance_items (to_item db.next_id r) u new })
]

insert_rows-KeepsIndex : (rs : List NewItem) (db : Db) → KeepsIndex db (insert_rows rs db).1
unfolding insert_rows
insert_rows-KeepsIndex [] db = KeepsIndex-IsEffect.unchanged db
insert_rows-KeepsIndex (r ∷ rs) db =
    KeepsIndex-IsEffect.after db (insert_row r db) (insert_rows rs (insert_row r db)).1
      (insert_row-KeepsIndex r db) (insert_rows-KeepsIndex rs (insert_row r db))

create_items-KeepsIndex : (rs : List NewItem) → Effect KeepsIndex (create_items rs)
unfolding create_items
create_items-KeepsIndex rs = record { at = λ db. insert_rows-KeepsIndex rs db }

ruleset item_rules = (
  effect_rules, KeepsIndex-IsEffect, log-KeepsIndex, insert_item-KeepsIndex,
  modify_items-KeepsIndex, delete_items-KeepsIndex, create_items-KeepsIndex,
)

create_calendar_items-KeepsIndex :
    (now organization client : ℕ) (types : List CalendarType) (financial_year : Text)
    (include_past_due : Bool)
    → Effect KeepsIndex
        (create_calendar_items now organization client types financial_year include_past_due)
unfolding create_calendar_items
create_calendar_items-KeepsIndex now organization client types financial_year include_past_due =
    search item_rules depth 12

ruleset calendar_rules = (item_rules, create_calendar_items-KeepsIndex)

pub generate-KeepsIndex :
    (env : ComplianceEnv) (now organization client : ℕ) (financial_year : Text) (type_ids : List ℕ)
    (include_past_due : Bool) (actor : ℕ) (meta : RequestMeta)
    → Effect KeepsIndex
        (generate env now organization client financial_year type_ids include_past_due actor meta)
unfolding generate generate_check require_financial_year require_client calendar_types
generate-KeepsIndex env now organization client financial_year type_ids include_past_due actor
      meta =
    search calendar_rules depth 24

generate_each-KeepsIndex :
    (env : ComplianceEnv) (now organization : ℕ) (types : List CalendarType) (financial_year : Text)
    (include_past_due : Bool) (cs : List Client) (totals : CalendarTotals)
    → Effect KeepsIndex
        (generate_each env now organization types financial_year include_past_due cs totals)
unfolding generate_each
generate_each-KeepsIndex env now organization types financial_year include_past_due [] totals =
    search calendar_rules
generate_each-KeepsIndex env now organization types financial_year include_past_due (c ∷ cs)
      totals =
    search
      (
        calendar_rules,
        generate_each-KeepsIndex env now organization types financial_year include_past_due cs,
      )
      depth 16

pub generate_all-KeepsIndex :
    (env : ComplianceEnv) (now organization : ℕ) (financial_year : Text) (include_past_due : Bool)
    (actor : ℕ) (meta : RequestMeta)
    → Effect KeepsIndex
        (generate_for_all_clients env now organization financial_year include_past_due actor meta)
unfolding generate_for_all_clients require_financial_year calendar_types
generate_all-KeepsIndex env now organization financial_year include_past_due actor meta =
    search (calendar_rules, generate_each-KeepsIndex) depth 24

require_assignee-KeepsIndex :
    (organization : ℕ) (o : Option ℕ) → Effect KeepsIndex (require_assignee organization o)
require_assignee-KeepsIndex organization none = search item_rules
require_assignee-KeepsIndex organization (some id) = search item_rules depth 12

ruleset request_rules = (item_rules, require_assignee-KeepsIndex)

pub create-KeepsIndex :
    (now organization client : ℕ) (dto : CreateItemDto) (actor : ℕ) (meta : RequestMeta)
    → Effect KeepsIndex (create now organization client dto actor meta)
unfolding create require_client
create-KeepsIndex now organization client dto actor meta = search request_rules depth 24

pub update-KeepsIndex :
    (now organization id : ℕ) (dto : UpdateItemDto) (actor : ℕ) (meta : RequestMeta)
    → Effect KeepsIndex (update now organization id dto actor meta)
unfolding update require_item
update-KeepsIndex now organization id dto actor meta = search request_rules depth 24

pub remove-KeepsIndex :
    (now organization id actor : ℕ) (meta : RequestMeta)
    → Effect KeepsIndex (remove now organization id actor meta)
unfolding remove require_item
remove-KeepsIndex now organization id actor meta = search request_rules depth 24
