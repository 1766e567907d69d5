-- ===== src/DueRules/Catalogued.antt =====
-- What the catalog's rules expand to, in every financial year.
use tax_professional_managem.Common.{
  ℕ, ◌+◌, ◌-◌, ◌%◌, ◌≤◌, ◌≡◌, List, [], ◌∷◌, none, some, arith, All, All-imp, length, Option, keep,
}
use tax_professional_managem.DueRules.{
  DueRule, Filing, Exception, Periodicity, CatalogEntry, expand_from, day_in, monthly_filings,
}
use tax_professional_managem.DueRules.Catalog.{compliance_catalog}
use tax_professional_managem.DueRules.Expansion.{
  IsDayFor, AllMonthly, AllExact, year_months, is_month, expand_from-AllMonthly,
  expand_from-AllExact,
}
use tax_professional_managem.Dates.Civil.{month_days}

-- The number of filings in a year.
abbrev pub filings_for : Periodicity → ℕ
filings_for Periodicity.monthly = 12
filings_for Periodicity.quarterly = 4
filings_for Periodicity.half_yearly = 2
filings_for Periodicity.annual = 1

-- Months that a rule leaves out.
abbrev pub left_out : DueRule → ℕ
left_out (DueRule.monthly day none es) = 0
left_out (DueRule.monthly day (some months) es) = 12 - length months
left_out (DueRule.fixed dates) = 0

abbrev Expands : ℕ → CatalogEntry → Type 0
Expands start e = length (expand_from start e.rule) + left_out e.rule ≡ filings_for e.periodicity

-- Every entry of the catalog has as many filings a year as its periodicity says, less the months
-- that its rule leaves out.
pub catalog-Expands : (start : ℕ) → All (Expands start) compliance_catalog
unfolding compliance_catalog expand_from monthly_filings
catalog-Expands start = omega arith

-- The days of a rule exist in every month that it names, in common years too; a monthly rule's in
-- every month.
abbrev pub IsException : Exception → Type 0
IsException e = IsDayFor (e.period_month % 12 + 1) e.day

abbrev pub AllExceptions : Option (List Exception) → Type 0
AllExceptions none = Unit
AllExceptions (some es) = All IsException es

abbrev pub IsRule : DueRule → Type 0
IsRule (DueRule.monthly day months es) = (1 ≤ day) × (day ≤ 28) × AllExceptions es
IsRule (DueRule.fixed dates) = All (λ d. IsDayFor d.month d.day) dates

-- What a rule promises of its filings: one for each month that it is for, or for each of its dates.
abbrev pub Promised : ℕ → DueRule → List Filing → Type 0
Promised start (DueRule.monthly day months es) fs =
    AllMonthly start day es (keep (is_month months) year_months) fs
Promised start (DueRule.fixed dates) fs = AllExact start dates fs

day_in_pos :
    (day : ℕ) (es : Option (List Exception)) (m : ℕ)
    → 1 ≤ day
    → AllExceptions es
    → 1 ≤ day_in day es m
unfolding day_in
day_in_pos day none m hd h = hd
day_in_pos day (some []) m hd h = hd
day_in_pos day (some (e ∷ es)) m hd h = ground (arith, day_in_pos day (some es) m hd h.1)

-- A rule whose days exist is kept to by all its filings, in every financial year.
pub expand_from-Promised :
    (start : ℕ) (rule : DueRule)
    → 100 ≤ start
    → IsRule rule
    → Promised start rule (expand_from start rule)
expand_from-Promised start (DueRule.monthly day months es) hs h =
    expand_from-AllMonthly start day months es hs (λ m. day_in_pos day es m h.0 h.2)
expand_from-Promised start (DueRule.fixed dates) hs h = expand_from-AllExact start dates hs h

catalog-IsRule : All (λ e. IsRule e.rule) compliance_catalog
unfolding compliance_catalog month_days
catalog-IsRule = omega arith

-- Every rule of the catalog keeps its promise in every financial year from 100 on: a monthly rule has
-- one filing for each month that it is for, due in the month that follows on the rule's day or the
-- last of the month, and a rule of fixed dates has one filing on each of its dates.
pub catalog-Promised :
    (start : ℕ)
    → 100 ≤ start
    → All (λ e. Promised start e.rule (expand_from start e.rule)) compliance_catalog
catalog-Promised start hs =
    All-imp _ _ compliance_catalog (λ e h. expand_from-Promised start e.rule hs h) catalog-IsRule
