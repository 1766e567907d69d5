-- ===== src/Compliance/Generation/Again.antt =====
-- `generate` of apps/api/src/compliance/compliance.service.ts, done again.
use mathlib.Core.Path.{subst}
use tax_professional_managem.Common.{
  ℕ, ◌≤◌, ◌≡◌, refl, sym, ap, ◌∙◌, Bool, true, false, List, [], ◌∷◌, some, arith, ◌==◌, length,
  keep, is_none, is_some,
}
use tax_professional_managem.Common.Text.{Text}
use tax_professional_managem.Common.Table.{find_first, order_by}
use tax_professional_managem.Dates.Laws.{year_100_ms}
use tax_professional_managem.Types.{AuditAction}
use tax_professional_managem.DueRules.Year.{parse_financial_year}
use tax_professional_managem.Db.{Db}
use tax_professional_managem.Db.Action.{ok, ◌>>=◌, ◌>>◌, pure, entry, AuditEntry, RequestMeta, log}
use tax_professional_managem.Db.Action.Effects.{bind_ok}
use tax_professional_managem.Compliance.{
  ComplianceEnv, with_rules, is_live_client, distinct_count, CalendarResult, create_calendar_items,
  generate, is_requested, require_financial_year, require_client, calendar_types, generate_check,
}
use tax_professional_managem.Compliance.Calendar.{CalendarType, NewItem, insert_rows, insert_row}
use tax_professional_managem.Compliance.Generation.{
  create_calendar_items-IsCreated, create_calendar_items_again,
}

-- The checks of `generate` pass where the year is well-formed, the client is there and each type
-- asked for has a rule; they write nothing.
record IsAccepted (env : ComplianceEnv) (organization client : ℕ) (financial_year : Text)
    (type_ids : List ℕ) (db : Db) (types : List CalendarType) : Type 0 where
  in_year : is_none (parse_financial_year financial_year) ≡ false
  live : is_some (find_first (is_live_client organization client) db.clients) ≡ true
  known : (length types == distinct_count type_ids) ≡ true
  requested :
      types
      ≡ keep
          (is_requested type_ids)
          (order_by env.type_before (with_rules organization db.compliance_types))

generate_check_ok :
    (env : ComplianceEnv) (organization client : ℕ) (financial_year : Text) (type_ids : List ℕ)
    (db db' : Db) (types : List CalendarType)
    → generate_check env organization client financial_year type_ids db ≡ (ok types, db')
    → IsAccepted env organization client financial_year type_ids db types × (db' ≡ db)
unfolding generate_check ◌>>=◌ require_financial_year require_client calendar_types
generate_check_ok env organization client financial_year type_ids db db' types e = (
  record {
    in_year = ground arith;
    live = ground arith;
    known = ground arith;
    requested = ground arith;
  },
  ground arith,
)

generate_check_passes :
    (env : ComplianceEnv) (organization client : ℕ) (financial_year : Text) (type_ids : List ℕ)
    (db : Db) (types : List CalendarType)
    → IsAccepted env organization client financial_year type_ids db types
    → generate_check env organization client financial_year type_ids db ≡ (ok types, db)
unfolding generate_check ◌>>=◌ require_financial_year require_client calendar_types
generate_check_passes env organization client financial_year type_ids db types a =
    ground (arith, a.in_year, a.live, a.known, a.requested)

-- What a step leaves of the tables that the checks read.
record IsFramed (db db' : Db) : Type 0 where
  clients : db'.clients ≡ db.clients
  types : db'.compliance_types ≡ db.compliance_types

insert_rows-IsFramed : (rs : List NewItem) (db : Db) → IsFramed db (insert_rows rs db).1
unfolding insert_rows insert_row
insert_rows-IsFramed [] db = record { clients = refl; types = refl }
insert_rows-IsFramed (r ∷ rs) db =
    let f = insert_rows-IsFramed rs (insert_row r db) in
    record { clients = f.clients ∙ ground arith; types = f.types ∙ ground arith }

IsAccepted-IsFramed :
    (env : ComplianceEnv) (organization client : ℕ) (financial_year : Text) (type_ids : List ℕ)
    (db db' : Db) (types : List CalendarType)
    → IsFramed db db'
    → IsAccepted env organization client financial_year type_ids db types
    → IsAccepted env organization client financial_year type_ids db' types
IsAccepted-IsFramed env organization client financial_year type_ids db db' types f a = record {
  in_year = a.in_year;
  live = rw f.clients a.live;
  known = a.known;
  requested = rw f.types a.requested;
}

record IsLogged (created db' : Db) : Type 0 where
  items : db'.compliance_items ≡ created.compliance_items
  frame : IsFramed created db'

-- A generation that returns has checked, created and logged.
record IsGenerated (env : ComplianceEnv) (now organization client : ℕ) (financial_year : Text)
    (type_ids : List ℕ) (include_past_due : Bool) (db db' : Db) (r : CalendarResult) : Type 0 where
  types : List CalendarType
  created : Db
  accepted : IsAccepted env organization client financial_year type_ids db types
  rows :
      create_calendar_items now organization client types financial_year include_past_due db
      ≡ (ok r, created)
  logged : IsLogged created db'

log-IsLogged :
    (now : ℕ) (meta : RequestMeta) (e : AuditEntry) (db db' : Db) (r r' : CalendarResult)
    → (log now meta e >> pure r') db ≡ (ok r, db')
    → (r' ≡ r) × IsLogged db db'
unfolding log ◌>>=◌
log-IsLogged now meta e db db' r r' h = (
  ground arith,
  record { items = ground arith; frame = record { clients = ground arith; types = ground arith } },
)

generate-IsGenerated :
    (env : ComplianceEnv) (now organization client : ℕ) (financial_year : Text) (type_ids : List ℕ)
    (include_past_due : Bool) (actor : ℕ) (meta : RequestMeta) (db db' : Db) (r : CalendarResult)
    → generate env now organization client financial_year type_ids include_past_due actor meta db
      ≡ (ok r, db')
    → IsGenerated env now organization client financial_year type_ids include_past_due db db' r
unfolding generate
generate-IsGenerated env now organization client financial_year type_ids include_past_due actor meta
      db db' r e =
    let (types, checked, s1, e1) = bind_ok _ _ db db' e in
    let (r', created, s2, e2) = bind_ok _ _ checked db' e1 in
    let (accepted, same) =
      generate_check_ok env organization client financial_year type_ids db checked types s1 in
    let (result, logged) = log-IsLogged now meta _ created db' r r' e2 in
    record {
      types = types;
      created = created;
      accepted = accepted;
      rows =
          subst
            (λ d.
              create_calendar_items now organization client types financial_year include_past_due d
              ≡ (ok r, created))
            same (s2 ∙ ap (λ x. (ok x, created)) result);
      logged = logged;
    }

generate_accepted :
    (env : ComplianceEnv) (now organization client : ℕ) (financial_year : Text) (type_ids : List ℕ)
    (include_past_due : Bool) (actor : ℕ) (meta : RequestMeta) (db created : Db)
    (types : List CalendarType) (r : CalendarResult)
    → IsAccepted env organization client financial_year type_ids db types
    → create_calendar_items now organization client types financial_year include_past_due db
      ≡ (ok r, created)
    → (db' : Db) × (generate env now organization client financial_year type_ids include_past_due
          actor meta db
        ≡ (ok r, db'))
      × (db'.compliance_items ≡ created.compliance_items)
unfolding generate ◌>>=◌ log
generate_accepted env now organization client financial_year type_ids include_past_due actor meta db
      created types r a e =
    let passes = generate_check_passes env organization client financial_year type_ids db types a in
    (
      (log now meta
          (entry (some organization) (some actor) AuditAction.compliance_calendar_generated "client"
            (some client) true)
          created).1,
      rw (passes, e) refl,
      refl,
    )

-- Generating a client's calendar is idempotent: whatever it has created or skipped, the same
-- request at any later time succeeds, creates nothing and leaves the filings as they are. (Times
-- are after the year 100.)
pub generate_again :
    (env : ComplianceEnv) (now later organization client : ℕ) (financial_year : Text)
    (type_ids : List ℕ) (include_past_due : Bool) (actor : ℕ) (meta : RequestMeta) (db db' : Db)
    (r : CalendarResult)
    → year_100_ms ≤ now
    → now ≤ later
    → generate env now organization client financial_year type_ids include_past_due actor meta db
      ≡ (ok r, db')
    → (r' : CalendarResult) × (next : Db) × (generate env later organization client financial_year
          type_ids include_past_due actor meta db'
        ≡ (ok r', next))
      × (r'.created ≡ 0)
      × (next.compliance_items ≡ db'.compliance_items)
generate_again env now later organization client financial_year type_ids include_past_due actor meta
      db db' r old le e =
    let g =
      generate-IsGenerated env now organization client financial_year type_ids include_past_due
        actor meta db db' r e in
    let c =
      create_calendar_items-IsCreated now organization client g.types financial_year
        include_past_due db g.created r g.rows in
    let (r', again, zero) =
      create_calendar_items_again now later organization client g.types financial_year
        include_past_due db g.created db' r old le g.rows g.logged.items in
    let frame : IsFramed db g.created =
      subst (IsFramed db) (sym c.database) (insert_rows-IsFramed c.planned.rows db) in
    let accepted =
      IsAccepted-IsFramed env organization client financial_year type_ids g.created db' g.types
        g.logged.frame
        (IsAccepted-IsFramed env organization client financial_year type_ids db g.created g.types
          frame g.accepted) in
    let (next, generated, items) =
      generate_accepted env later organization client financial_year type_ids include_past_due actor
        meta db' db' g.types r' accepted again in
    (r', next, generated, zero, items)
