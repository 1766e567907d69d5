-- ===== src/Compliance/Generation.antt =====
-- The generation of calendars: what is created, and that generating again creates nothing.
pub mod Again
use mathlib.Core.Path.{subst}
use tax_professional_managem.Common.{
  ℕ, ◌+◌, ◌≤◌, ◌≡◌, refl, sym, ap, ◌∙◌, Bool, true, false, not, ◌&&◌, List, [], ◌∷◌, some, arith,
  ltb, ◌==◌, if◌then◌else◌, length, All, All-imp, any, ◌||◌, keep, inl, inr, Option-cases, is_none,
  is_some,
}
use tax_professional_managem.Common.Text.{Text}
use tax_professional_managem.Common.Table.{find_first, order_by}
use tax_professional_managem.Dates.{start_of_today_ist}
use tax_professional_managem.Dates.Laws.{year_100_ms, start_of_today_ist_lem}
use tax_professional_managem.Types.{AuditAction, overdue, upcoming}
use tax_professional_managem.DueRules.Year.{parse_financial_year, assessment_year_for}
use tax_professional_managem.Db.{Db, ComplianceItem}
use tax_professional_managem.Db.Action.{ok, ◌>>=◌, ◌>>◌, pure, entry, AuditEntry, RequestMeta, log}
use tax_professional_managem.Db.Action.Effects.{bind_ok}
use tax_professional_managem.Compliance.{
  ComplianceEnv, with_rules, is_live_client, distinct_count, CalendarResult, created_of,
  create_calendar_items, generate, is_requested, require_financial_year, require_client,
  calendar_types, generate_check,
}
use tax_professional_managem.Compliance.Calendar.{
  CalendarType, NewItem, PlannedRows, plan_all, to_item, insert_rows, insert_row, create_items,
}
use tax_professional_managem.Compliance.Calendar.Laws.{
  filings_count, plan_all_count, plan_all-All, plan_all-later, IsHeld,
}
use tax_professional_managem.DueRules.{Filing}
use tax_professional_managem.Compliance.Calendar.Asked.{
  asked, is_filing, is_for, picked, picked-All, All-picked, row_for, is_kept, plan_all_lem,
  rows_for,
}
use tax_professional_managem.Compliance.Calendar.Rows.{
  insert_rows_count, insert_rows-IsHeld, insert_rows_held, IsAppended, insert_rows-IsAppended,
}

-- A row as the calendar of a client makes it: for a filing that the rules ask for, due when they say,
-- overdue exactly if it is due before today, and then only if such filings were asked for.
pub record IsCalendarRow (today organization client : ℕ) (types : List CalendarType)
    (financial_year : Text) (include_past_due : Bool) (i : ComplianceItem) : Type 0 where
  pub of_organization : i.organization_id ≡ organization
  pub of_client : i.client_id ≡ client
  pub in_year : i.financial_year ≡ financial_year
  pub assessed : i.assessment_year ≡ assessment_year_for financial_year
  pub asked_for : any (is_for i) (asked financial_year types) ≡ true
  pub status : i.status ≡ (if ltb i.due_date today then overdue else upcoming)
  pub dropped : (ltb i.due_date today && not include_past_due) ≡ false

-- The filing is past due and such filings were not asked for, or it is tracked.
abbrev pub is_seen_to : ℕ → ℕ → ℕ → Text → Bool → List ComplianceItem → ℕ × Filing → Bool
is_seen_to today organization client financial_year include_past_due items (type, f) =
    (ltb f.due_date today && not include_past_due)
    || any (is_filing organization client financial_year (type, f)) items

-- What a calendar's creation that returns has done.
pub record IsCreated (now organization client : ℕ) (types : List CalendarType)
    (financial_year : Text) (include_past_due : Bool) (db db' : Db) (r : CalendarResult)
    : Type 0 where
  pub planned : PlannedRows
  pub plan :
      plan_all
        (start_of_today_ist now)
        include_past_due
        organization
        client
        financial_year
        (assessment_year_for financial_year)
        types
      ≡ some planned
  pub result : r ≡ created_of planned (insert_rows planned.rows db).0
  pub database : db' ≡ (insert_rows planned.rows db).1

pub create_calendar_items-IsCreated :
    (now organization client : ℕ) (types : List CalendarType) (financial_year : Text)
    (include_past_due : Bool) (db db' : Db) (r : CalendarResult)
    → create_calendar_items now organization client types financial_year include_past_due db
      ≡ (ok r, db')
    → IsCreated now organization client types financial_year include_past_due db db' r
unfolding create_calendar_items ◌>>=◌ create_items
create_calendar_items-IsCreated now organization client types financial_year include_past_due db db'
      r e =
    elim (Option-cases (
      plan_all (start_of_today_ist now) include_past_due organization client financial_year
        (assessment_year_for financial_year) types)) [
          | inl bad ↦ ground arith
          | inr (planned, good) ↦ record {
            planned = planned;
            plan = good;
            result = ground arith;
            database = ground arith;
          }
        ]

create_calendar_items_lem :
    (now organization client : ℕ) (types : List CalendarType) (financial_year : Text)
    (include_past_due : Bool) (db : Db) (planned : PlannedRows)
    → plan_all
        (start_of_today_ist now)
        include_past_due
        organization
        client
        financial_year
        (assessment_year_for financial_year)
        types
      ≡ some planned
    → create_calendar_items now organization client types financial_year include_past_due db
      ≡ (ok (created_of planned (insert_rows planned.rows db).0), (insert_rows planned.rows db).1)
unfolding create_calendar_items ◌>>=◌ create_items
create_calendar_items_lem now organization client types financial_year include_past_due db planned
      e =
    rw e refl

-- Every filing that the rules ask for is tracked afterwards, unless it is past due and such filings
-- were not asked for; what is appended to the table are rows for filings that the rules ask for, of
-- this client and year, due when the rules say, with the status that today gives; and the answer
-- counts all that the rules ask for as created, tracked already or skipped.
pub create_calendar_items_ok :
    (now organization client : ℕ) (types : List CalendarType) (financial_year : Text)
    (include_past_due : Bool) (db db' : Db) (r : CalendarResult)
    → create_calendar_items now organization client types financial_year include_past_due db
      ≡ (ok r, db')
    → let today = start_of_today_ist now in
      (r.created + r.already_tracked + r.skipped_past_due ≡ filings_count financial_year types)
      × All
          (λ a.
            is_seen_to today organization client financial_year include_past_due
              db'.compliance_items a
            ≡ true)
          (asked financial_year types)
      × IsAppended
          (IsCalendarRow today organization client types financial_year include_past_due)
          r.created
          db
          db'
create_calendar_items_ok now organization client types financial_year include_past_due db db' r e =
    let c =
      create_calendar_items-IsCreated now organization client types financial_year include_past_due
        db db' r e in
    let today = start_of_today_ist now in
    let year = assessment_year_for financial_year in
    let wanted = asked financial_year types in
    let P = IsCalendarRow today organization client types financial_year include_past_due in
    let total =
      plan_all_count include_past_due organization client financial_year year today types c.planned
        c.plan in
    let plan =
      plan_all_lem today include_past_due organization client financial_year year types c.planned
        c.plan in
    let row = row_for today include_past_due organization client financial_year year in
    let kept = is_kept today include_past_due organization client financial_year year in
    let self : All (λ a. any (is_for (to_item 0 (row a))) wanted ≡ true) wanted =
      rows_for today include_past_due organization client financial_year year wanted in
    let each : All (λ n. P (to_item 0 n)) c.planned.rows =
      subst (All (λ n. P (to_item 0 n))) (sym plan) (
        picked-All kept row (λ n. P (to_item 0 n)) wanted
          (All-imp _ _ wanted
            (λ a found k. record {
              of_organization = refl;
              of_client = refl;
              in_year = refl;
              assessed = refl;
              asked_for = found;
              status = refl;
              dropped = ground arith;
            })
            self)) in
    let rows =
      insert_rows-IsAppended (λ n. P (to_item 0 n)) P
        (λ id n h. record {
          of_organization = h.of_organization;
          of_client = h.of_client;
          in_year = h.in_year;
          assessed = h.assessed;
          asked_for = h.asked_for;
          status = h.status;
          dropped = h.dropped;
        })
        c.planned.rows db each in
    let held : All (IsHeld db'.compliance_items) (picked kept row wanted) =
      subst (All (IsHeld db'.compliance_items)) plan (
        subst (λ (d : Db). All (IsHeld d.compliance_items) c.planned.rows) (sym c.database)
          (insert_rows-IsHeld c.planned.rows db)) in
    (
      rw c.result (omega (arith, total, insert_rows_count c.planned.rows db)),
      All-imp _ _ wanted (λ a h. ground (arith, h))
          (All-picked kept row (IsHeld db'.compliance_items) wanted held),
      subst (λ k. IsAppended P k db db') (sym (ap (λ (x : CalendarResult). x.created) c.result))
          (subst (IsAppended P (insert_rows c.planned.rows db).0 db) (sym c.database) rows),
    )

-- Today only moves on.
today_mono :
    (now later : ℕ)
    → year_100_ms ≤ now
    → now ≤ later
    → start_of_today_ist now ≤ start_of_today_ist later
today_mono now later h le =
    omega (arith, start_of_today_ist_lem now h, start_of_today_ist_lem later (omega arith))

-- Creating the calendar once more, at any later time, finds every row tracked and writes nothing.
pub create_calendar_items_again :
    (now later organization client : ℕ) (types : List CalendarType) (financial_year : Text)
    (include_past_due : Bool) (db db' next : Db) (r : CalendarResult)
    → year_100_ms ≤ now
    → now ≤ later
    → create_calendar_items now organization client types financial_year include_past_due db
      ≡ (ok r, db')
    → next.compliance_items ≡ db'.compliance_items
    → (r' : CalendarResult) × (create_calendar_items later organization client types financial_year
          include_past_due next
        ≡ (ok r', next))
      × (r'.created ≡ 0)
create_calendar_items_again now later organization client types financial_year include_past_due db
      db' next r old le e same =
    let c =
      create_calendar_items-IsCreated now organization client types financial_year include_past_due
        db db' r e in
    let held0 = insert_rows-IsHeld c.planned.rows db in
    let held : All (IsHeld next.compliance_items) c.planned.rows =
      subst (λ xs. All (IsHeld xs) c.planned.rows)
        (sym (same ∙ ap (λ (d : Db). d.compliance_items) c.database)) held0 in
    let (again, plan, all_held) =
      plan_all-later include_past_due organization client financial_year
        (assessment_year_for financial_year) next.compliance_items (start_of_today_ist now)
        (start_of_today_ist later) types c.planned (today_mono now later old le) c.plan held in
    let none_new = insert_rows_held again.rows next all_held in
    (
      created_of again 0,
      create_calendar_items_lem later organization client types financial_year include_past_due next
            again plan
          ∙ ap (λ (p : ℕ × Db). (ok (created_of again p.0), p.1)) none_new,
      refl,
    )
