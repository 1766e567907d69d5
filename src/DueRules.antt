-- ===== src/DueRules.antt =====
-- apps/api/src/compliance/due-rules.ts: the due-date rules, and their expansion into the filings
-- of one financial year. The catalog of rules is `DueRules.Catalog`.
pub mod Year
pub mod Catalog
pub mod Expansion
pub mod Catalogued
pub mod Suggestions
use tax_professional_managem.Common.{
  ℕ, zero, suc, ◌+◌, ◌-◌, ◌%◌, min, Bool, true, false, not, ◌&&◌, List, [], ◌∷◌, ◌++◌, map, Option,
  none, some, leb, ◌==◌, if◌then◌else◌, includes, String,
}
use tax_professional_managem.Common.Text.{Text, decimal, two_digits}
use tax_professional_managem.Common.Table.{find_first}
use tax_professional_managem.Dates.Civil.{date_utc, utc_parts}
use Year.{parse_financial_year}

pub record Exception : Type 0 where
  pub period_month : ℕ
  pub day : ℕ

-- `year_offset` is 0 for the financial year's start year, and 1 for its end year.
pub record FixedDate : Type 0 where
  pub period : Text
  pub month : ℕ
  pub day : ℕ
  pub year_offset : ℕ

-- `none` stands for a property that the rule leaves out.
pub data DueRule : Type 0 where
  monthly : ℕ → Option (List ℕ) → Option (List Exception) → DueRule
  fixed : List FixedDate → DueRule

pub data Category : Type 0 where
  gst income_tax tds mca pf_esi : Category

pub data Periodicity : Type 0 where
  monthly quarterly half_yearly annual : Periodicity

pub record CatalogEntry : Type 0 where
  pub code : String
  pub name : String
  pub category : Category
  pub periodicity : Periodicity
  pub rule : DueRule

pub record Filing : Type 0 where
  pub period : Text
  pub due_date : ℕ

-- Months are counted from 1.
unfoldable pub utc_day : ℕ → ℕ → ℕ → ℕ
utc_day year month day =
    let last_day = (utc_parts (date_utc year month 0)).day in
    date_utc year (month - 1) (min day last_day)

-- `rule.periodMonths && !rule.periodMonths.includes(periodMonth)`
abbrev pub is_skipped : Option (List ℕ) → ℕ → Bool
is_skipped none month = false
is_skipped (some months) month = not (includes months month)

-- `rule.exceptions?.find((e) => e.periodMonth === periodMonth)?.day ?? rule.day`
abbrev pub exception_day : Option Exception → ℕ → ℕ
exception_day none day = day
exception_day (some e) day = e.day

unfoldable pub day_in : ℕ → Option (List Exception) → ℕ → ℕ
day_in day none month = day
day_in day (some es) month = exception_day (find_first (λ e. e.period_month == month) es) day

-- April is month 0 of a financial year, and March month 11.
abbrev pub period_month : ℕ → ℕ
period_month i = (3 + i) % 12 + 1

abbrev pub period_year : ℕ → ℕ → ℕ
period_year start month = if leb 4 month then start else start + 1

-- The filing for one month, due in the month after it.
unfoldable pub monthly_filing : ℕ → ℕ → Option (List Exception) → ℕ → Filing
monthly_filing start day es month = record {
  period = decimal (period_year start month) ++ (b'-' ∷ two_digits month);
  due_date =
      utc_day (if month == 12 then period_year start month + 1 else period_year start month)
        (month % 12 + 1) (day_in day es month);
}

-- The loop over the months, with `rounds` of them to go from month `i` on.
unfoldable pub monthly_filings :
    ℕ → ℕ → ℕ → ℕ → Option (List ℕ) → Option (List Exception) → List Filing
monthly_filings zero i start day months es = []
monthly_filings (suc rounds) i start day months es =
    let rest = monthly_filings rounds (i + 1) start day months es in
    if is_skipped months (period_month i)
    then rest
    else monthly_filing start day es (period_month i) ∷ rest

abbrev pub fixed_filing : ℕ → FixedDate → Filing
fixed_filing start d = record {
  period = d.period;
  due_date = utc_day (start + d.year_offset) d.month d.day;
}

-- The filings of a financial year that starts in `start`.
unfoldable pub expand_from : ℕ → DueRule → List Filing
expand_from start (DueRule.monthly day months es) = monthly_filings 12 0 start day months es
expand_from start (DueRule.fixed dates) = map (fixed_filing start) dates

-- `none` stands for the exception on a malformed financial year.
unfoldable pub expand_rule : DueRule → Text → Option (List Filing)
expand_rule rule financial_year = elim (parse_financial_year financial_year) [
  | none ↦ none
  | some start ↦ some (expand_from start rule)
]
