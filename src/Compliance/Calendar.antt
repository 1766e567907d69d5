-- ===== src/Compliance/Calendar.antt =====
-- The rows of a calendar: `createCalendarItems` of apps/api/src/compliance/compliance.service.ts,
-- and the unique index on (organization, client, type, financial year, period) of
-- apps/api/prisma/schema.prisma that `skipDuplicates` relies on.
pub mod Laws
pub mod Rows
pub mod Asked
use tax_professional_managem.Common.{
  ℕ, suc, ◌+◌, Bool, true, false, not, ◌&&◌, List, [], ◌∷◌, ◌++◌, Option, none, some, ltb, ◌==◌,
  if◌then◌else◌, any,
}
use tax_professional_managem.Common.Text.{Text, text_eq}
use tax_professional_managem.Types.{ComplianceStatus, overdue, upcoming}
use tax_professional_managem.DueRules.{DueRule, Filing, expand_rule}
use tax_professional_managem.Db.{Db, ComplianceType, ComplianceItem}
use tax_professional_managem.Db.Action.{Action, ok}

pub record CalendarType : Type 0 where
  pub type : ComplianceType
  pub rule : DueRule

-- A row to be created; it has no identifier yet.
pub record NewItem : Type 0 where
  pub organization_id : ℕ
  pub client_id : ℕ
  pub compliance_type_id : ℕ
  pub financial_year : Text
  pub assessment_year : Option Text
  pub period : Text
  pub due_date : ℕ
  pub status : ComplianceStatus

pub record PlannedRows : Type 0 where
  pub skipped : ℕ
  pub rows : List NewItem

-- The inner loop, over the filings of one type.
module _ (today : ℕ) (include_past_due : Bool) (organization client : ℕ) (financial_year : Text)
    (assessment_year : Option Text) where
  abbrev pub new_item : ℕ → Filing → NewItem
  new_item type f = record {
    organization_id = organization;
    client_id = client;
    compliance_type_id = type;
    financial_year = financial_year;
    assessment_year = assessment_year;
    period = f.period;
    due_date = f.due_date;
    status = if ltb f.due_date today then overdue else upcoming;
  }

  abbrev pub is_dropped : Filing → Bool
  is_dropped f = ltb f.due_date today && not include_past_due

  abbrev pub plan_filings : ℕ → List Filing → PlannedRows
  plan_filings type [] = record { skipped = 0; rows = [] }
  plan_filings type (f ∷ fs) =
      let rest = plan_filings type fs in
      if is_dropped f
      then record { skipped = suc rest.skipped; rows = rest.rows }
      else record { skipped = rest.skipped; rows = new_item type f ∷ rest.rows }

  abbrev pub join : PlannedRows → PlannedRows → PlannedRows
  join a b = record { skipped = a.skipped + b.skipped; rows = a.rows ++ b.rows }

  abbrev plan_next : ℕ → Option (List Filing) → Option PlannedRows → Option PlannedRows
  plan_next type none later = none
  plan_next type (some fs) none = none
  plan_next type (some fs) (some rest) = some (join (plan_filings type fs) rest)

  -- The outer loop; `none` where the expansion of a rule throws.
  unfoldable pub plan_all : List CalendarType → Option PlannedRows
  plan_all [] = some (record { skipped = 0; rows = [] })
  plan_all (t ∷ ts) = plan_next t.type.id (expand_rule t.rule financial_year) (plan_all ts)

abbrev pub is_period : Option Text → Text → Bool
is_period none p = false
is_period (some q) p = text_eq q p

-- The unique index: a null period equals no other.
abbrev pub has_key : NewItem → ComplianceItem → Bool
has_key r i =
    (i.organization_id == r.organization_id)
    && (i.client_id == r.client_id)
    && (i.compliance_type_id == r.compliance_type_id)
    && text_eq i.financial_year r.financial_year
    && is_period i.period r.period

abbrev pub to_item : ℕ → NewItem → ComplianceItem
to_item id r = record {
  id = id;
  organization_id = r.organization_id;
  client_id = r.client_id;
  compliance_type_id = r.compliance_type_id;
  financial_year = r.financial_year;
  assessment_year = r.assessment_year;
  period = some r.period;
  due_date = r.due_date;
  filing_date = none;
  status = r.status;
  assigned_to = none;
  notes = none;
}

-- `createMany` with `skipDuplicates`, one row after another.
unfoldable pub insert_row : NewItem → Db → Db
insert_row r db = if any (has_key r) db.compliance_items then db else record db {
  next_id = db.next_id + 1;
  compliance_items = db.compliance_items ++ (to_item db.next_id r ∷ []);
}

unfoldable pub insert_rows : List NewItem → Db → ℕ × Db
insert_rows [] db = (0, db)
insert_rows (r ∷ rs) db =
    let (count, db') = insert_rows rs (insert_row r db) in
    (if any (has_key r) db.compliance_items then count else count + 1, db')

unfoldable pub create_items : List NewItem → Action ℕ
create_items rows db = let (count, db') = insert_rows rows db in (ok count, db')
