-- ===== src/Compliance/Calendar/Laws.antt =====
-- What the loops of `createCalendarItems` plan: a row for every filing that is not dropped.
use mathlib.Core.Path.{subst}
use tax_professional_managem.Common.{
  ℕ, ◌+◌, ◌≤◌, ◌≡◌, refl, Bool, true, false, List, [], ◌∷◌, ◌++◌, Option, some, arith, any, length,
  All, All-append, length-append, or_else, inl, inr, Bool-cases, Option-cases,
}
use tax_professional_managem.Common.Text.{Text}
use tax_professional_managem.DueRules.{Filing, expand_rule}
use tax_professional_managem.Db.{ComplianceItem}
use tax_professional_managem.Compliance.Calendar.{
  CalendarType, NewItem, PlannedRows, new_item, is_dropped, plan_filings, join, plan_all, has_key,
}

-- The number of filings that the rules of `types` ask for.
abbrev pub filings_count : Text → List CalendarType → ℕ
filings_count financial_year [] = 0
filings_count financial_year (t ∷ ts) =
    length (or_else (expand_rule t.rule financial_year) []) + filings_count financial_year ts

-- A row with this key is there.
abbrev pub IsHeld : List ComplianceItem → NewItem → Type 0
IsHeld items r = any (has_key r) items ≡ true

pub All-split {ℓ} :
    {A : Type 0} (P : A → Type ℓ) (xs ys : List A) → All P (xs ++ ys) → All P xs × All P ys
All-split P [] ys h = (tt, h)
All-split P (x ∷ xs) ys h = let (hx, hy) = All-split P xs ys h.1 in ((h.0, hx), hy)

module _ (include_past_due : Bool) (organization client : ℕ) (financial_year : Text)
    (assessment_year : Option Text) where
  -- The plan of some types is made of the plan of the first and that of the others.
  pub record IsJoined (today : ℕ) (t : CalendarType) (ts : List CalendarType)
      (planned : PlannedRows) : Type 0 where
    pub filings : List Filing
    pub rest : PlannedRows
    pub expanded : expand_rule t.rule financial_year ≡ some filings
    pub others :
        plan_all today include_past_due organization client financial_year assessment_year ts
        ≡ some rest
    pub joined :
        planned
        ≡ join today include_past_due organization client financial_year assessment_year
            (plan_filings today include_past_due organization client financial_year assessment_year
              t.type.id filings)
            rest

  pub plan_all_cons :
      (today : ℕ) (t : CalendarType) (ts : List CalendarType) (planned : PlannedRows)
      → plan_all today include_past_due organization client financial_year assessment_year (t ∷ ts)
        ≡ some planned
      → IsJoined today t ts planned
  unfolding plan_all
  plan_all_cons today t ts planned e = elim (Option-cases (expand_rule t.rule financial_year)) [
    | inl bad ↦ ground arith
    | inr (fs, good) ↦
        elim (Option-cases
          (plan_all today include_past_due organization client financial_year assessment_year ts)) [
            | inl stop ↦ ground arith
            | inr (rest, others) ↦ record {
              filings = fs;
              rest = rest;
              expanded = good;
              others = others;
              joined = ground arith;
            }
          ]
  ]

  plan_filings_count :
      (today type : ℕ) (fs : List Filing)
      → (plan_filings today include_past_due organization client financial_year assessment_year type
            fs).skipped
          + length
              (plan_filings today include_past_due organization client financial_year
                assessment_year type fs).rows
        ≡ length fs
  plan_filings_count today type [] = refl
  plan_filings_count today type (f ∷ fs) = ground (arith, plan_filings_count today type fs)

  pub plan_all_count :
      (today : ℕ) (ts : List CalendarType) (planned : PlannedRows)
      → plan_all today include_past_due organization client financial_year assessment_year ts
        ≡ some planned
      → planned.skipped + length planned.rows ≡ filings_count financial_year ts
  unfolding plan_all
  plan_all_count today [] planned e = ground arith
  plan_all_count today (t ∷ ts) planned e =
      let j = plan_all_cons today t ts planned e in
      let first =
        plan_filings today include_past_due organization client financial_year assessment_year
          t.type.id j.filings in
      rw (j.joined, j.expanded)
        (omega (
          arith,
          plan_filings_count today t.type.id j.filings,
          plan_all_count today ts j.rest j.others,
          length-append first.rows j.rest.rows,
        ))

  -- A property of the planned rows, from each filing that is not dropped.
  plan_filings-All {κ} :
      (P : NewItem → Type κ) (today type : ℕ)
      → ((f : Filing)
          → is_dropped today include_past_due organization client financial_year assessment_year f
            ≡ false
          → P (
              new_item today include_past_due organization client financial_year assessment_year
                type f))
      → (fs : List Filing)
      → All P
          (plan_filings today include_past_due organization client financial_year assessment_year
            type fs).rows
  plan_filings-All P today type h [] = tt
  plan_filings-All P today type h (f ∷ fs) =
      elim (Bool-cases
        (is_dropped today include_past_due organization client financial_year assessment_year f)) [
          | inl dropped ↦ rw dropped (plan_filings-All P today type h fs)
          | inr kept ↦ rw kept (h f kept, plan_filings-All P today type h fs)
        ]

  pub plan_all-All {κ} :
      (P : NewItem → Type κ) (today : ℕ)
      → ((type : ℕ) (f : Filing)
          → is_dropped today include_past_due organization client financial_year assessment_year f
            ≡ false
          → P (
              new_item today include_past_due organization client financial_year assessment_year
                type f))
      → (ts : List CalendarType) (planned : PlannedRows)
      → plan_all today include_past_due organization client financial_year assessment_year ts
        ≡ some planned
      → All P planned.rows
  unfolding plan_all
  plan_all-All P today h [] planned e =
      let same : record { skipped = 0; rows = [] } ≡ planned = cc in
      subst (λ (p : PlannedRows). All P p.rows) same tt
  plan_all-All P today h (t ∷ ts) planned e =
      let j = plan_all_cons today t ts planned e in
      rw j.joined (
        All-append P _ j.rest.rows (plan_filings-All P today t.type.id (h t.type.id) j.filings)
          (plan_all-All P today h ts j.rest j.others))

  -- A later plan has no row that the earlier one has not, but for its status.
  plan_filings-later :
      (items : List ComplianceItem) (today later type : ℕ) (fs : List Filing)
      → today ≤ later
      → All
          (IsHeld items)
          (plan_filings today include_past_due organization client financial_year assessment_year
            type fs).rows
      → All
          (IsHeld items)
          (plan_filings later include_past_due organization client financial_year assessment_year
            type fs).rows
  plan_filings-later items today later type [] le h = tt
  plan_filings-later items today later type (f ∷ fs) le h =
      elim (Bool-cases
        (is_dropped today include_past_due organization client financial_year assessment_year f)) [
          | inl dropped ↦
              let dropped' : is_dropped later include_past_due organization client financial_year
                    assessment_year f
                  ≡ true =
                ground arith in
              rw dropped' (plan_filings-later items today later type fs le (rw dropped at h))
          | inr kept ↦
              let h' = rw kept at h in
              elim (Bool-cases (
                is_dropped later include_past_due organization client financial_year assessment_year
                  f)) [
                    | inl dropped ↦
                        rw dropped (plan_filings-later items today later type fs le h'.1)
                    | inr still ↦
                        rw still (h'.0, plan_filings-later items today later type fs le h'.1)
                  ]
        ]

  pub plan_all-later :
      (items : List ComplianceItem) (today later : ℕ) (ts : List CalendarType)
      (planned : PlannedRows)
      → today ≤ later
      → plan_all today include_past_due organization client financial_year assessment_year ts
        ≡ some planned
      → All (IsHeld items) planned.rows
      → (again : PlannedRows) × (plan_all later include_past_due organization client financial_year
            assessment_year ts
          ≡ some again)
        × All (IsHeld items) again.rows
  unfolding plan_all
  plan_all-later items today later [] planned le e h = (_, refl, tt)
  plan_all-later items today later (t ∷ ts) planned le e h =
      let j = plan_all_cons today t ts planned e in
      let (h1, h2) = All-split (IsHeld items) _ j.rest.rows (rw j.joined at h) in
      let (again, others, held) = plan_all-later items today later ts j.rest le j.others h2 in
      let first =
        plan_filings later include_past_due organization client financial_year assessment_year
          t.type.id j.filings in
      (
        join later include_past_due organization client financial_year assessment_year first again,
        rw (j.expanded, others) refl,
        All-append (IsHeld items) first.rows again.rows
            (plan_filings-later items today later t.type.id j.filings le h1) held,
      )
