-- ===== src/Compliance/Index.antt =====
-- The unique index on (organization, client, type, financial year, period) of
-- apps/api/prisma/schema.prisma, as an invariant of every operation of the compliance service.
pub mod Keeps
pub mod Requests
use tax_professional_managem.Common.{
  ℕ, ◌+◌, ◌≡◌, refl, sym, ap, ◌∙◌, Bool, true, false, ◌&&◌, ◌||◌, List, [], ◌∷◌, ◌++◌, Option, none,
  some, arith, any, any-append, ◌==◌, if◌then◌else◌, inl, inr, Bool-cases, keep,
}
use tax_professional_managem.Common.Text.{Text, text_eq}
use tax_professional_managem.Common.Table.{update_where, delete_where}
use tax_professional_managem.Db.{Db, Client, ComplianceItem}
use tax_professional_managem.Db.Action.{
  Action, modify, RequestMeta, AuditEntry, log, or_throw, internal,
}
use tax_professional_managem.Db.Action.Effects.{IsEffect, Effect, effect_rules}
use tax_professional_managem.Compliance.{
  ComplianceEnv, require_client, require_financial_year, calendar_types, CalendarTotals, add_result,
  suggestions_for, is_suggested, create_calendar_items, generate_check, generate, generate_each,
  generate_for_all_clients,
}
use tax_professional_managem.Compliance.Calendar.{
  CalendarType, NewItem, is_period, has_key, to_item, insert_row, insert_rows, create_items,
}
use tax_professional_managem.Compliance.Items.{
  CreateItemDto, UpdateItemDto, patch, require_item, require_assignee, item_row, insert_item,
  create, update, remove,
}

-- A null period equals no other.
abbrev pub same_period : Option Text → Option Text → Bool
same_period o none = false
same_period o (some q) = is_period o q

abbrev pub conflicts : ComplianceItem → ComplianceItem → Bool
conflicts i j =
    (i.organization_id == j.organization_id)
    && (i.client_id == j.client_id)
    && (i.compliance_type_id == j.compliance_type_id)
    && text_eq i.financial_year j.financial_year
    && same_period i.period j.period

abbrev pub IsUnique : List ComplianceItem → Type 0
IsUnique [] = Unit
IsUnique (i ∷ is) = (any (conflicts i) is ≡ false) × IsUnique is

pub append-IsUnique :
    (xs : List ComplianceItem) (y : ComplianceItem)
    → IsUnique xs
    → any (λ x. conflicts x y) xs ≡ false
    → IsUnique (xs ++ (y ∷ []))
append-IsUnique [] y u e = (refl, tt)
append-IsUnique (x ∷ xs) y u e = (
  rw (any-append (conflicts x) xs (y ∷ []), u.0) (ground arith),
  append-IsUnique xs y u.1 (ground arith),
)

-- An update that keeps the columns of the key.
abbrev pub KeepsKey : (ComplianceItem → ComplianceItem) → Type 0
KeepsKey f =
    (i j : ComplianceItem)
    → (conflicts (f i) j ≡ conflicts i j) × (conflicts i (f j) ≡ conflicts i j)

any-updated :
    (i : ComplianceItem) (p : ComplianceItem → Bool) (f : ComplianceItem → ComplianceItem)
    (xs : List ComplianceItem)
    → KeepsKey f
    → any (conflicts i) (update_where p f xs) ≡ any (conflicts i) xs
any-updated i p f [] k = refl
any-updated i p f (x ∷ xs) k = ground (arith, (k i x).1, any-updated i p f xs k)

any_of_updated :
    (i : ComplianceItem) (b : Bool) (f : ComplianceItem → ComplianceItem) (xs : List ComplianceItem)
    → KeepsKey f
    → any (conflicts (if b then f i else i)) xs ≡ any (conflicts i) xs
any_of_updated i true f [] k = refl
any_of_updated i true f (x ∷ xs) k = ground (arith, (k i x).0, any_of_updated i true f xs k)
any_of_updated i false f xs k = refl

pub update-IsUnique :
    (p : ComplianceItem → Bool) (f : ComplianceItem → ComplianceItem) (xs : List ComplianceItem)
    → KeepsKey f
    → IsUnique xs
    → IsUnique (update_where p f xs)
update-IsUnique p f [] k u = tt
update-IsUnique p f (x ∷ xs) k u = (
  any_of_updated x (p x) f (update_where p f xs) k ∙ any-updated x p f xs k ∙ u.0,
  update-IsUnique p f xs k u.1,
)

any-deleted :
    (q p : ComplianceItem → Bool) (xs : List ComplianceItem)
    → any q xs ≡ false
    → any q (delete_where p xs) ≡ false
any-deleted q p [] e = refl
any-deleted q p (x ∷ xs) e = ground (arith, any-deleted q p xs)

pub delete-IsUnique :
    (p : ComplianceItem → Bool) (xs : List ComplianceItem)
    → IsUnique xs
    → IsUnique (delete_where p xs)
delete-IsUnique p [] u = tt
delete-IsUnique p (x ∷ xs) u = elim (Bool-cases (p x)) [
  | inl gone ↦ rw gone (delete-IsUnique p xs u.1)
  | inr kept ↦ rw kept (any-deleted (conflicts x) p xs u.0, delete-IsUnique p xs u.1)
]
