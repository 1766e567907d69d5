-- ===== src/Compliance/Calendar/Asked.antt =====
-- The filings that the rules of a calendar ask for, and the rows that `createCalendarItems` plans for
-- them.
use tax_professional_managem.Common.{
  ℕ, ◌≡◌, refl, sym, ap, ◌∙◌, Bool, true, false, not, ◌&&◌, List, [], ◌∷◌, ◌++◌, map, keep, Option,
  some, arith, any, ◌==◌, ==_self, All, All-imp, or_else, inl, inr, Bool-cases,
}
use tax_professional_managem.Common.Text.{Text, text_eq}
use tax_professional_managem.Common.Text.Laws.{text_eq_self}
use tax_professional_managem.DueRules.{Filing, expand_rule}
use tax_professional_managem.Db.{ComplianceItem}
use tax_professional_managem.Compliance.Calendar.{
  CalendarType, NewItem, PlannedRows, new_item, is_dropped, plan_filings, plan_all, is_period,
  to_item,
}
use tax_professional_managem.Compliance.Calendar.Laws.{plan_all_cons}

-- A filing of a type.
abbrev pub asked_of : ℕ → List Filing → List (ℕ × Filing)
asked_of type fs = map (λ f. (type, f)) fs

-- All that the rules of `types` ask for.
abbrev pub asked : Text → List CalendarType → List (ℕ × Filing)
asked financial_year [] = []
asked financial_year (t ∷ ts) =
    asked_of t.type.id (or_else (expand_rule t.rule financial_year) []) ++ asked financial_year ts

-- A tracked filing of this organization and client, for this type, year and period.
abbrev pub is_filing : ℕ → ℕ → Text → ℕ × Filing → ComplianceItem → Bool
is_filing organization client financial_year (type, f) i =
    (i.organization_id == organization)
    && (i.client_id == client)
    && (i.compliance_type_id == type)
    && text_eq i.financial_year financial_year
    && is_period i.period f.period

-- The row is for the filing, and due when the rule says.
abbrev pub is_for : ComplianceItem → ℕ × Filing → Bool
is_for i (type, f) =
    (i.compliance_type_id == type) && is_period i.period f.period && (i.due_date == f.due_date)

module _ {A B : Type 0} (p : A → Bool) (f : A → B) where
  unfoldable pub picked : List A → List B
  picked xs = map f (keep p xs)

  picked-append : (xs ys : List A) → picked (xs ++ ys) ≡ picked xs ++ picked ys
  unfolding picked
  picked-append [] ys = refl
  picked-append (x ∷ xs) ys = elim (Bool-cases (p x)) [
    | inl hit ↦ rw hit (ap (λ zs. f x ∷ zs) (picked-append xs ys))
    | inr miss ↦ rw miss (picked-append xs ys)
  ]

  pub picked-All {κ} :
      (P : B → Type κ) (xs : List A) → All (λ x. p x ≡ true → P (f x)) xs → All P (picked xs)
  unfolding picked
  picked-All P [] h = tt
  picked-All P (x ∷ xs) h = elim (Bool-cases (p x)) [
    | inl hit ↦ rw hit (h.0 hit, picked-All P xs h.1)
    | inr miss ↦ rw miss (picked-All P xs h.1)
  ]

  pub All-picked {κ} :
      (P : B → Type κ) (xs : List A) → All P (picked xs) → All (λ x. p x ≡ true → P (f x)) xs
  unfolding picked
  All-picked P [] h = tt
  All-picked P (x ∷ xs) h = elim (Bool-cases (p x)) [
    | inl hit ↦ let h' = rw hit at h in (λ e. h'.0, All-picked P xs h'.1)
    | inr miss ↦ (
      λ e. absurd (let clash : true ≡ false = sym e ∙ miss in cc),
      All-picked P xs (rw miss at h),
    )
  ]

module _ (today : ℕ) (include_past_due : Bool) (organization client : ℕ) (financial_year : Text)
    (assessment_year : Option Text) where
  abbrev pub row_for : ℕ × Filing → NewItem
  row_for (type, f) =
      new_item today include_past_due organization client financial_year assessment_year type f

  abbrev pub is_kept : ℕ × Filing → Bool
  is_kept (type, f) =
      not (is_dropped today include_past_due organization client financial_year assessment_year f)

  plan_filings_lem :
      (type : ℕ) (fs : List Filing)
      → (plan_filings today include_past_due organization client financial_year assessment_year type
          fs).rows
        ≡ picked is_kept row_for (asked_of type fs)
  unfolding picked
  plan_filings_lem type [] = refl
  plan_filings_lem type (f ∷ fs) = elim (Bool-cases (is_kept (type, f))) [
    | inl kept ↦
        let here : is_dropped today include_past_due organization client financial_year
              assessment_year f
            ≡ false =
          ground arith in
        rw here (ap (λ zs. row_for (type, f) ∷ zs) (plan_filings_lem type fs))
    | inr gone ↦
        let here : is_dropped today include_past_due organization client financial_year
              assessment_year f
            ≡ true =
          ground arith in
        rw here (plan_filings_lem type fs)
  ]

  -- The plan is a row for each filing asked for that is not dropped.
  pub plan_all_lem :
      (ts : List CalendarType) (planned : PlannedRows)
      → plan_all today include_past_due organization client financial_year assessment_year ts
        ≡ some planned
      → planned.rows ≡ picked is_kept row_for (asked financial_year ts)
  unfolding plan_all picked
  plan_all_lem [] planned e =
      let same : record { skipped = 0; rows = [] } ≡ planned = cc in
      sym (ap (λ (x : PlannedRows). x.rows) same)
  plan_all_lem (t ∷ ts) planned e =
      let j =
        plan_all_cons include_past_due organization client financial_year assessment_year today t ts
          planned e in
      rw j.joined (
        rw j.expanded (
          rw (plan_filings_lem t.type.id j.filings, plan_all_lem ts j.rest j.others)
            (sym (
              picked-append is_kept row_for (asked_of t.type.id j.filings)
                (asked financial_year ts)))))

self_any :
    {A : Type 0} (p : A → A → Bool)
    → ((x : A) → p x x ≡ true)
    → (xs : List A) → All (λ x. any (p x) xs ≡ true) xs
self_any p same [] = tt
self_any p same (x ∷ xs) =
    (ground (arith, same x), All-imp _ _ xs (λ y h. ground arith) (self_any p same xs))

row_for-is_for :
    (today : ℕ) (include_past_due : Bool) (organization client : ℕ) (financial_year : Text)
    (assessment_year : Option Text) (a : ℕ × Filing)
    → is_for
        (to_item 0
          (row_for today include_past_due organization client financial_year assessment_year a))
        a
      ≡ true
row_for-is_for today include_past_due organization client financial_year assessment_year (type, f) =
    rw (==_self type, text_eq_self f.period, ==_self f.due_date) refl

-- The row for a filing asked for is a row for one of them.
pub rows_for :
    (today : ℕ) (include_past_due : Bool) (organization client : ℕ) (financial_year : Text)
    (assessment_year : Option Text) (xs : List (ℕ × Filing))
    → All
        (λ a.
          any
            (is_for (
              to_item 0 (
                row_for today include_past_due organization client financial_year assessment_year
                  a)))
            xs
          ≡ true)
        xs
rows_for today include_past_due organization client financial_year assessment_year xs =
    self_any
      (λ a. is_for (
        to_item 0
          (row_for today include_past_due organization client financial_year assessment_year a)))
      (row_for-is_for today include_past_due organization client financial_year assessment_year) xs
