-- ===== src/Tests/Filings.antt =====
-- The compliance calendar of the firm's one client.
use tax_professional_managem.Common.{ℕ, ◌+◌, ◌*◌, ◌≡◌, refl, true, false, List, [], ◌∷◌, arith, All}
use tax_professional_managem.Common.Text.{Text, codes}
use tax_professional_managem.Dates.Civil.{
  date_utc, day_number, days_before_year, days_before_month, month_days, is_leap, utc_parts,
  civil_of_day, find_month, find_year,
}
use tax_professional_managem.Dates.{start_of_today_ist}
use tax_professional_managem.DueRules.Catalog.{annual}
use tax_professional_managem.DueRules.{expand_rule, expand_from, utc_day}
use tax_professional_managem.DueRules.Year.{parse_financial_year, start_year}
use tax_professional_managem.Db.{Db}
use tax_professional_managem.Db.Action.{Result, ok, ◌>>=◌, log}
use tax_professional_managem.Compliance.{
  CalendarResult, generate, generate_check, create_calendar_items, require_client,
  require_financial_year, calendar_types,
}
use tax_professional_managem.Compliance.Calendar.{
  CalendarType, plan_all, insert_rows, insert_row, create_items,
}
use tax_professional_managem.Compliance.Calendar.Laws.{filings_count}
use tax_professional_managem.Compliance.Calendar.Rows.{IsAppended}
use tax_professional_managem.Compliance.Generation.{
  IsCalendarRow, is_seen_to, create_calendar_items_ok,
}
use tax_professional_managem.Compliance.Calendar.Asked.{asked}
use tax_professional_managem.Compliance.Generation.Again.{generate_again}
use tax_professional_managem.Compliance.Index.{IsUnique}
use tax_professional_managem.Compliance.Index.Requests.{Call, run, run-IsUnique}
use tax_professional_managem.Tests.{compliance_env, meta, firm, return_type}

abbrev year : Text
year = codes "2025-26"

-- A day of 2025.
abbrev spring : ℕ
spring = 739700 * 86400000

abbrev generated : Result CalendarResult × Db
generated = generate compliance_env spring 2 9 year (13 ∷ []) false 1 meta firm

abbrev one_created : CalendarResult
one_created = record { created = 1; already_tracked = 0; skipped_past_due = 0 }

generates : generated ≡ (ok one_created, generated.1)
unfolding generate generate_check create_calendar_items require_client require_financial_year
    calendar_types plan_all insert_rows insert_row create_items log ◌>>=◌ start_of_today_ist
    expand_rule expand_from parse_financial_year start_year utc_day date_utc day_number
    days_before_year days_before_month month_days is_leap utc_parts civil_of_day find_month
    find_year
generates = refl

generate_again_example :
    (r' : CalendarResult) × (next : Db) × (generate compliance_env
        (spring + 5)
        2
        9
        year
        (13 ∷ [])
        false
        1
        meta
        generated.1
      ≡ (ok r', next))
    × (r'.created ≡ 0)
    × (next.compliance_items ≡ generated.1.compliance_items)
generate_again_example =
    generate_again compliance_env spring (spring + 5) 2 9 year (13 ∷ []) false 1 meta firm
      generated.1 one_created (omega arith) (omega arith) generates

abbrev offered : List CalendarType
offered = record { type = return_type; rule = annual 7 31 1 } ∷ []

abbrev created : Result CalendarResult × Db
created = create_calendar_items spring 2 9 offered year false firm

creates : created ≡ (ok one_created, created.1)
unfolding create_calendar_items plan_all insert_rows insert_row create_items ◌>>=◌
    start_of_today_ist expand_rule expand_from parse_financial_year start_year utc_day date_utc
    day_number days_before_year days_before_month month_days is_leap utc_parts civil_of_day
    find_month find_year
creates = refl

create_calendar_items_ok_example :
    (one_created.created + one_created.already_tracked + one_created.skipped_past_due
      ≡ filings_count year offered)
    × All
        (λ a.
          is_seen_to (start_of_today_ist spring) 2 9 year false created.1.compliance_items a ≡ true)
        (asked year offered)
    × IsAppended
        (IsCalendarRow (start_of_today_ist spring) 2 9 offered year false)
        one_created.created
        firm
        created.1
create_calendar_items_ok_example =
    create_calendar_items_ok spring 2 9 offered year false firm created.1 one_created creates

-- The calendar twice, an item of another kind, and a removal.
abbrev requests : List (ℕ × Call)
requests =
    (spring, Call.generates 2 9 year (13 ∷ []) false)
    ∷ (spring + 1, Call.generates_all 2 year true)
    ∷ (spring + 2, Call.removes 2 20)
    ∷ []

run-IsUnique_example : IsUnique (run compliance_env 1 meta requests firm).compliance_items
run-IsUnique_example = run-IsUnique compliance_env 1 meta requests firm tt
