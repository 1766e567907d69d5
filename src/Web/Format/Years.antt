-- ===== src/Web/Format/Years.antt =====
-- The financial years that apps/web offers, against those that the API accepts.
use tax_professional_managem.Common.{
  ℕ, ◌+◌, ◌-◌, ◌≤◌, ◌<◌, ◌≡◌, refl, ap, ◌∙◌, [], ◌∷◌, map, some, arith,
}
use tax_professional_managem.Common.Text.Laws.{decimal_four}
use tax_professional_managem.Common.Paging.{take}
use tax_professional_managem.Dates.Civil.{CivilDate}
use tax_professional_managem.DueRules.Year.{
  parse_financial_year, financial_year, parse-financial_year,
}
use tax_professional_managem.Web.Format.{
  financial_year_from, current_start, current_financial_year, financial_year_options, number_from,
}

-- Both programs write a financial year in the same way.
financial_year_from-eq :
    (start : ℕ) → 1000 ≤ start → start < 10000 → financial_year_from start ≡ financial_year start
unfolding financial_year_from
financial_year_from-eq start lo hi = rw (decimal_four start lo hi) refl

accepted :
    (start : ℕ)
    → 1000 ≤ start
    → start < 10000
    → parse_financial_year (financial_year_from start) ≡ some start
accepted start lo hi =
    ap parse_financial_year (financial_year_from-eq start lo hi) ∙ parse-financial_year start hi

read_back :
    (start : ℕ)
    → 1000 ≤ start
    → start < 10000
    → number_from 0 (take 4 (financial_year_from start)) ≡ start
read_back start lo hi =
    ap (λ t. number_from 0 (take 4 t)) (financial_year_from-eq start lo hi) ∙ omega arith

-- The web application offers the years that the API understands: the previous, the current and the
-- next financial year, each as a text that `parseFinancialYear` of the API reads as that year. (The
-- year has four digits, and so have its neighbours.)
pub financial_year_options_lem :
    (now : CivilDate)
    → 1001 ≤ current_start now
    → current_start now < 9999
    → map parse_financial_year (financial_year_options now)
      ≡ some (current_start now - 1) ∷ some (current_start now) ∷ some (current_start now + 1) ∷ []
unfolding financial_year_options current_financial_year
financial_year_options_lem now lo hi =
    let s = current_start now in
    rw (read_back s (omega arith) (omega arith)) (
      rw
        (
          accepted (s - 1) (omega arith) (omega arith),
          accepted s (omega arith) (omega arith),
          accepted (s + 1) (omega arith) (omega arith),
        )
        refl)
