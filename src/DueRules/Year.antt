-- ===== src/DueRules/Year.antt =====
-- Indian financial years, "2025-26": `parseFinancialYear` and `assessmentYearFor` of
-- apps/api/src/compliance/due-rules.ts.
use tax_professional_managem.Common.{
  ℕ, ◌+◌, ◌-◌, ◌*◌, ◌/◌, ◌%◌, ◌≤◌, ◌<◌, ◌≡◌, ◌↔◌, ap, ◌∙◌, ◌&&◌, [], ◌∷◌, ◌++◌, Option, none, some,
  ◌==◌, if◌then◌else◌, arith, all, All, true, false, Bool-cases, inl, inr, and-true→both,
}
use tax_professional_managem.Common.Text.{Text, is_digit, decimal, two_digits}
use tax_professional_managem.Common.Text.Laws.{decimal_four}

abbrev pub digit_value : ℕ → ℕ
digit_value c = c - b'0'

abbrev pub number_of : ℕ → ℕ → ℕ → ℕ → ℕ
number_of a b c d = 1000 * digit_value a + 100 * digit_value b + 10 * digit_value c + digit_value d

-- What is done with the two groups that the regular expression has matched.
unfoldable pub start_year : ℕ → ℕ → Option ℕ
start_year start suffix = if (start + 1) % 100 == suffix then some start else none

-- The text is matched against `^(\d{4})-(\d{2})$`.
unfoldable pub parse_financial_year : Text → Option ℕ
parse_financial_year (a ∷ b ∷ c ∷ d ∷ dash ∷ e ∷ f ∷ []) =
    if all is_digit (a ∷ b ∷ c ∷ d ∷ e ∷ f ∷ []) && (dash == b'-')
    then start_year (number_of a b c d) (number_of b'0' b'0' e f)
    else none
parse_financial_year _ = none

-- `${start + 1}-${String((start + 2) % 100).padStart(2, "0")}`
unfoldable pub assessment_year_for : Text → Option Text
assessment_year_for fy = elim (parse_financial_year fy) [
  | none ↦ none
  | some start ↦ some (decimal (start + 1) ++ (b'-' ∷ two_digits ((start + 2) % 100)))
]

-- The financial year that starts in `start`, written with four digits and two.
abbrev pub financial_year : ℕ → Text
financial_year start =
    (start / 1000 + b'0')
    ∷ (start / 100 % 10 + b'0')
    ∷ (start / 10 % 10 + b'0')
    ∷ (start % 10 + b'0')
    ∷ b'-'
    ∷ two_digits ((start + 1) % 100)

is_digit_add : (d : ℕ) → d < 10 → is_digit (d + b'0') ≡ true
is_digit_add d h = ground arith

is_digit_bounds : (c : ℕ) → is_digit c ≡ true → (b'0' ≤ c) × (c ≤ b'9')
is_digit_bounds c h = (ground arith, ground arith)

start_year-eq : (s x y : ℕ) → start_year s x ≡ some y → (s ≡ y) × ((s + 1) % 100 ≡ x)
unfolding start_year
start_year-eq s x y h = (ground arith, ground arith)

start_year-some : (s s' x : ℕ) → s' ≡ s → x ≡ (s + 1) % 100 → start_year s' x ≡ some s
unfolding start_year
start_year-some s s' x e f = ground arith

-- Every year up to 9999 is read back from its financial year.
pub parse-financial_year :
    (start : ℕ) → start < 10000 → parse_financial_year (financial_year start) ≡ some start
unfolding parse_financial_year two_digits
parse-financial_year start h =
    let suffix = (start + 1) % 100 in
    rw
      (
        is_digit_add (start / 1000) (omega arith),
        is_digit_add (start / 100 % 10) (omega arith),
        is_digit_add (start / 10 % 10) (omega arith),
        is_digit_add (start % 10) (omega arith),
        is_digit_add (suffix / 10) (omega arith),
        is_digit_add (suffix % 10) (omega arith),
      )
      (start_year-some start _ _ (omega arith) (omega arith))

all_digits :
    (a b c d e f : ℕ)
    → all is_digit (a ∷ b ∷ c ∷ d ∷ e ∷ f ∷ []) ≡ true
    → All (λ x. (b'0' ≤ x) × (x ≤ b'9')) (a ∷ b ∷ c ∷ d ∷ e ∷ f ∷ [])
all_digits a b c d e f h =
    let (ha, h1) = and-true→both (is_digit a) _ h in
    let (hb, h2) = and-true→both (is_digit b) _ h1 in
    let (hc, h3) = and-true→both (is_digit c) _ h2 in
    let (hd, h4) = and-true→both (is_digit d) _ h3 in
    let (he, h5) = and-true→both (is_digit e) _ h4 in
    let (hf, h6) = and-true→both (is_digit f) _ h5 in
    (
      is_digit_bounds a ha,
      (
        is_digit_bounds b hb,
        (
          is_digit_bounds c hc,
          (is_digit_bounds d hd, (is_digit_bounds e he, (is_digit_bounds f hf, tt))),
        ),
      ),
    )

-- Only that text is read as the year.
pub parse_financial_year_sound :
    (fy : Text) (start : ℕ)
    → parse_financial_year fy ≡ some start
    → (start < 10000) × (fy ≡ financial_year start)
unfolding parse_financial_year two_digits
parse_financial_year_sound (a ∷ b ∷ c ∷ d ∷ dash ∷ e ∷ f ∷ []) start h =
    elim (Bool-cases (all is_digit (a ∷ b ∷ c ∷ d ∷ e ∷ f ∷ []) && (dash == b'-'))) [
      | inl shape ↦
          let (digits, dashed) = and-true→both _ _ shape in
          let bounds = all_digits a b c d e f digits in
          let (value, suffix) = start_year-eq _ _ _ (rw shape at h) in
          let dash_eq : dash ≡ b'-' = ground arith in
          let ea : a ≡ start / 1000 + b'0' = omega arith in
          let eb : b ≡ start / 100 % 10 + b'0' = omega arith in
          let ec : c ≡ start / 10 % 10 + b'0' = omega arith in
          let ed : d ≡ start % 10 + b'0' = omega arith in
          let ee : e ≡ (start + 1) % 100 / 10 + b'0' = omega arith in
          let ef : f ≡ (start + 1) % 100 % 10 + b'0' = omega arith in (omega arith, cc)
      | inr other ↦ absurd (parse_rejects other h)
    ]
  where
    parse_rejects :
        (all is_digit (a ∷ b ∷ c ∷ d ∷ e ∷ f ∷ []) && (dash == b'-')) ≡ false
        → parse_financial_year (a ∷ b ∷ c ∷ d ∷ dash ∷ e ∷ f ∷ []) ≡ some start
        → ⊥
    parse_rejects no_match found = cc (rw (no_match, parse_financial_year) at found)
parse_financial_year_sound _ start h = cc

-- A text is accepted as the financial year of a start year exactly if it is the canonical one: the
-- year in four digits, a dash, and the last two digits of the next year.
pub parse_financial_year_iff :
    (fy : Text) (start : ℕ)
    → (parse_financial_year fy ≡ some start) ↔ ((start < 10000) × (fy ≡ financial_year start))
parse_financial_year_iff fy start = (
  parse_financial_year_sound fy start,
  λ (small, same). ap parse_financial_year same ∙ parse-financial_year start small,
)

-- The assessment year of a financial year that starts in one of the years 999 to 9998 is the next
-- financial year.
pub assessment_year_for_lem :
    (start : ℕ)
    → 999 ≤ start
    → start < 9999
    → assessment_year_for (financial_year start) ≡ some (financial_year (start + 1))
unfolding assessment_year_for
assessment_year_for_lem start lo hi =
    let next : start + 2 ≡ start + 1 + 1 = omega arith in
    rw (
      parse-financial_year start (omega arith),
      assessment_year_for,
      decimal_four (start + 1) (omega arith) (omega arith),
      next,
    )
