-- ===== src/Tests/Calendars.antt =====
-- The calendar and the due-date rules, on the financial year 2025-26.
use tax_professional_managem.Common.{
  ◌+◌, ◌*◌, ◌-◌, ◌≤◌, ◌<◌, ◌≡◌, ◌↔◌, map, refl, [], ◌∷◌, true, false, none, some, arith, All,
  is_some, min,
}
use tax_professional_managem.Common.Text.{codes}
use tax_professional_managem.Common.Int.{negsuc}
use tax_professional_managem.Dates.{ist_offset_ms, start_of_today_ist, days_between, add_days}
use tax_professional_managem.Dates.Civil.{
  day_ms, is_leap, month_days, civil_of_day, day_number, utc_parts,
}
use tax_professional_managem.Dates.Civil.Laws.{civil_of_day-day_number, day_number-civil_of_day}
use tax_professional_managem.Dates.Laws.{overdue_iff, days_between-add_days}
use tax_professional_managem.Types.{EntityType}
use tax_professional_managem.DueRules.{expand_from, monthly_filing, day_in, period_year}
use tax_professional_managem.DueRules.Year.{
  parse_financial_year, parse_financial_year_iff, financial_year, assessment_year_for,
  assessment_year_for_lem, start_year,
}
use tax_professional_managem.Web.Format.{financial_year_options}
use tax_professional_managem.Web.Format.Years.{financial_year_options_lem}
use tax_professional_managem.DueRules.Expansion.{monthly_filing-next_month, month_index}
use tax_professional_managem.DueRules.Catalog.{compliance_catalog}
use tax_professional_managem.DueRules.Catalogued.{Promised, catalog-Promised}
use tax_professional_managem.DueRules.Suggestions.{
  suggested_type_codes, suggested_type_codes_lem, get_entry, applies, is_catalogued,
}

leap_february : 29 ≤ month_days (is_leap 2024) 1
unfolding month_days is_leap
leap_february = omega arith

civil_of_day-day_number_example :
    civil_of_day (day_number 2024 1 29) ≡ record { year = 2024; month = 1; day = 29 }
civil_of_day-day_number_example =
    civil_of_day-day_number 2024 1 29 (omega arith) (omega arith) leap_february

day_number-civil_of_day_example :
    day_number (civil_of_day 739700).year (civil_of_day 739700).month (civil_of_day 739700).day
    ≡ 739700
day_number-civil_of_day_example = day_number-civil_of_day 739700

overdue_iff_example :
    (739700 * day_ms < start_of_today_ist (739701 * day_ms - ist_offset_ms))
    ↔ (739700 * day_ms + day_ms ≤ 739701 * day_ms - ist_offset_ms + ist_offset_ms)
overdue_iff_example =
    overdue_iff (739701 * day_ms - ist_offset_ms) (739700 * day_ms) (omega arith) (omega arith)

days_between-add_days_example :
    days_between (739700 * day_ms) (add_days (739700 * day_ms) (negsuc 2)) ≡ negsuc 2
days_between-add_days_example = days_between-add_days (739700 * day_ms) (negsuc 2) (omega arith)

parsed : parse_financial_year (codes "2025-26") ≡ some 2025
unfolding parse_financial_year start_year
parsed = refl

parse_financial_year_iff_example :
    (parse_financial_year (codes "2025-26") ≡ some 2025)
    ↔ ((2025 < 10000) × (codes "2025-26" ≡ financial_year 2025))
parse_financial_year_iff_example = parse_financial_year_iff (codes "2025-26") 2025

assessment_year_for_lem_example :
    assessment_year_for (financial_year 2025) ≡ some (financial_year 2026)
assessment_year_for_lem_example = assessment_year_for_lem 2025 (omega arith) (omega arith)

catalog-Promised_example :
    All (λ e. Promised 2025 e.rule (expand_from 2025 e.rule)) compliance_catalog
catalog-Promised_example = catalog-Promised 2025 (omega arith)

asked : 1 ≤ day_in 30 none 1
unfolding day_in
asked = omega arith

-- February's filing, where the rule asks for the thirtieth.
monthly_filing-next_month_example :
    (month_index
        (utc_parts (monthly_filing 2025 30 none 1).due_date).year
        (utc_parts (monthly_filing 2025 30 none 1).due_date).month
      ≡ month_index (period_year 2025 1) 0 + 1)
    × ((utc_parts (monthly_filing 2025 30 none 1).due_date).day
        ≡ min
            (day_in 30 none 1)
            (month_days (is_leap (utc_parts (monthly_filing 2025 30 none 1).due_date).year) 1))
monthly_filing-next_month_example =
    monthly_filing-next_month 2025 30 1 none (omega arith) (omega arith) (omega arith) asked

suggested_type_codes_lem_example :
    All
      (λ e.
        is_some
          (get_entry e.code (suggested_type_codes EntityType.llp (some "27ABCDE1234F1Z5") none))
        ≡ applies e.code false true true false)
      compliance_catalog
    × All
        (λ kv. is_catalogued kv ≡ true)
        (suggested_type_codes EntityType.llp (some "27ABCDE1234F1Z5") none)
suggested_type_codes_lem_example =
    suggested_type_codes_lem EntityType.llp (some "27ABCDE1234F1Z5") none

financial_year_options_lem_example :
    map parse_financial_year (financial_year_options (record { year = 2026; month = 1; day = 20 }))
    ≡ some 2024 ∷ some 2025 ∷ some 2026 ∷ []
financial_year_options_lem_example =
    financial_year_options_lem (record { year = 2026; month = 1; day = 20 }) (omega arith)
      (omega arith)
