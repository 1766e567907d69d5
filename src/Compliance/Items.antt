-- ===== src/Compliance/Items.antt =====
-- The tracked filings one by one, and the picker of a calendar: `listForClient`, `get`, `create`,
-- `update`, `remove` and `plan` of apps/api/src/compliance/compliance.service.ts.
use tax_professional_managem.Common.{
  ℕ, ◌+◌, Bool, true, false, not, ◌&&◌, List, [], ◌∷◌, ◌++◌, Option, none, some, leb, ◌==◌,
  if◌then◌else◌, length, keep, or_else, is_some, String,
}
use tax_professional_managem.Common.Text.{Text, text_eq}
use tax_professional_managem.Common.Table.{
  find_first, update_where, delete_where, count_where, order_by,
}
use tax_professional_managem.Types.{ComplianceStatus, compliance_status_index, AuditAction}
use tax_professional_managem.DueRules.{Filing, expand_rule}
use tax_professional_managem.DueRules.Suggestions.{Suggestions, get_entry}
use tax_professional_managem.Db.{ComplianceType, ComplianceItem, Member}
use tax_professional_managem.Db.Action.{
  Action, ok, not_found, internal, client_not_found, compliance_type_not_found,
  compliance_item_not_found, member_not_found, pure, gets, or_throw, modify, ◌>>=◌, ◌>>◌,
  RequestMeta, log, entry,
}
use tax_professional_managem.Compliance.{
  ComplianceEnv, require_client, is_live_client, require_financial_year, calendar_types,
  suggestions_for,
}
use tax_professional_managem.Compliance.Calendar.{CalendarType}

abbrev pub is_item : ℕ → ℕ → ComplianceItem → Bool
is_item organization id i = (i.id == id) && (i.organization_id == organization)

-- `requireItem`, and `get` with the rows that it joins left out.
unfoldable pub require_item : ℕ → ℕ → Action ComplianceItem
require_item organization id = do
  found ← gets (λ db. find_first (is_item organization id) db.compliance_items)
  or_throw found (not_found compliance_item_not_found)

abbrev pub is_member_of : ℕ → ℕ → Member → Bool
is_member_of organization id m = (m.id == id) && (m.organization_id == organization)

-- `if (assignedTo) await this.requireMemberInOrg(…)`
abbrev pub require_assignee : ℕ → Option ℕ → Action (Unit {0})
require_assignee organization none = pure tt
require_assignee organization (some id) = do
  found ← gets (λ db. find_first (is_member_of organization id) db.members)
  or_throw found (not_found member_not_found)
  pure tt

abbrev pub due_before : ComplianceItem → ComplianceItem → Bool
due_before a b = leb a.due_date b.due_date

abbrev pub is_item_of : ℕ → ℕ → ComplianceItem → Bool
is_item_of organization client i = (i.organization_id == organization) && (i.client_id == client)

unfoldable pub list_for_client : ℕ → ℕ → Action (List ComplianceItem)
list_for_client organization client = do
  require_client organization client
  gets (λ db. order_by due_before (keep (is_item_of organization client) db.compliance_items))

pub record CreateItemDto : Type 0 where
  pub compliance_type_id : ℕ
  pub financial_year : Text
  pub assessment_year : Option Text
  pub due_date : ℕ
  pub assigned_to : Option ℕ
  pub notes : Option String

-- The row has no period, so that the unique index never refuses it.
abbrev pub item_row : ℕ → ℕ → ℕ → CreateItemDto → ComplianceItem
item_row id organization client dto = record {
  id = id;
  organization_id = organization;
  client_id = client;
  compliance_type_id = dto.compliance_type_id;
  financial_year = dto.financial_year;
  assessment_year = dto.assessment_year;
  period = none;
  due_date = dto.due_date;
  filing_date = none;
  status = ComplianceStatus.upcoming;
  assigned_to = dto.assigned_to;
  notes = dto.notes;
}

unfoldable pub insert_item : ℕ → ℕ → CreateItemDto → Action ComplianceItem
insert_item organization client dto db = (
  ok (item_row db.next_id organization client dto),
  record db {
    next_id = db.next_id + 1;
    compliance_items = db.compliance_items ++ (item_row db.next_id organization client dto ∷ []);
  },
)

unfoldable pub create : ℕ → ℕ → ℕ → CreateItemDto → ℕ → RequestMeta → Action ComplianceItem
create now organization client dto actor meta = do
  require_client organization client
  found ← gets (λ db.
      find_first (λ (t : ComplianceType). t.id == dto.compliance_type_id) db.compliance_types)
  or_throw found (not_found compliance_type_not_found)
  require_assignee organization dto.assigned_to
  item ← insert_item organization client dto
  log now meta (
      entry (some organization) (some actor) AuditAction.compliance_item_created "compliance_item"
        (some item.id) true)
  pure item

-- Every field may be missing.
pub record UpdateItemDto : Type 0 where
  pub due_date : Option ℕ
  pub filing_date : Option ℕ
  pub status : Option ComplianceStatus
  pub assigned_to : Option ℕ
  pub notes : Option String

abbrev pub present_or : {A : Type 0} → Option A → Option A → Option A
present_or none old = old
present_or (some a) old = some a

abbrev pub patch : UpdateItemDto → ComplianceItem → ComplianceItem
patch dto i = record i {
  due_date = or_else dto.due_date i.due_date;
  filing_date = present_or dto.filing_date i.filing_date;
  status = or_else dto.status i.status;
  assigned_to = present_or dto.assigned_to i.assigned_to;
  notes = present_or dto.notes i.notes;
}

abbrev pub is_status_change : Option ComplianceStatus → ComplianceStatus → Bool
is_status_change none old = false
is_status_change (some status) old =
    not (compliance_status_index status == compliance_status_index old)

abbrev pub update_action : UpdateItemDto → ComplianceItem → AuditAction
update_action dto i =
    if is_status_change dto.status i.status
    then AuditAction.compliance_status_changed
    else AuditAction.compliance_item_updated

unfoldable pub update : ℕ → ℕ → ℕ → UpdateItemDto → ℕ → RequestMeta → Action ComplianceItem
update now organization id dto actor meta = do
  existing ← require_item organization id
  require_assignee organization dto.assigned_to
  modify (λ db. record db {
    compliance_items = update_where (λ i. i.id == id) (patch dto) db.compliance_items;
  })
  log now meta (
      entry (some organization) (some actor) (update_action dto existing) "compliance_item"
        (some id) true)
  pure (patch dto existing)

unfoldable pub remove : ℕ → ℕ → ℕ → ℕ → RequestMeta → Action (Unit {0})
remove now organization id actor meta = do
  require_item organization id
  modify (λ db. record db { compliance_items = delete_where (λ i. i.id == id) db.compliance_items })
  log now meta (
      entry (some organization) (some actor) AuditAction.compliance_item_deleted "compliance_item"
        (some id) true)

-- `loadClientForSuggestions`
unfoldable pub load_suggestions : ComplianceEnv → ℕ → ℕ → Action Suggestions
load_suggestions env organization client = do
  found ← gets (λ db. find_first (is_live_client organization client) db.clients)
  row ← or_throw found (not_found client_not_found)
  pii ← or_throw (env.decrypt_client row) internal
  pure (suggestions_for row pii)

pub record PlanEntry : Type 0 where
  pub compliance_type : ComplianceType
  pub suggested : Bool
  pub reason : Option String
  pub periods : ℕ
  pub tracked : ℕ

abbrev pub is_tracked : ℕ → ℕ → Text → ℕ → ComplianceItem → Bool
is_tracked organization client financial_year type i =
    is_item_of organization client i
    && text_eq i.financial_year financial_year
    && (i.compliance_type_id == type)

abbrev pub plan_entry : Suggestions → ℕ → ℕ → CalendarType → PlanEntry
plan_entry suggestions periods tracked t = record {
  compliance_type = t.type;
  suggested = is_some (get_entry t.type.code suggestions);
  reason = get_entry t.type.code suggestions;
  periods = periods;
  tracked = tracked;
}

abbrev plan_with :
    Suggestions
    → CalendarType
    → ℕ
    → Option (List Filing)
    → Option (List PlanEntry)
    → Option (List PlanEntry)
plan_with suggestions t tracked none rest = none
plan_with suggestions t tracked (some fs) none = none
plan_with suggestions t tracked (some fs) (some rest) =
    some (plan_entry suggestions (length fs) tracked t ∷ rest)

unfoldable pub plan_entries :
    ℕ → ℕ → Text → Suggestions → List CalendarType → List ComplianceItem → Option (List PlanEntry)
plan_entries organization client financial_year suggestions [] items = some []
plan_entries organization client financial_year suggestions (t ∷ ts) items =
    plan_with suggestions t
      (count_where (is_tracked organization client financial_year t.type.id) items)
      (expand_rule t.rule financial_year)
      (plan_entries organization client financial_year suggestions ts items)

unfoldable pub plan : ComplianceEnv → ℕ → ℕ → Text → Action (List PlanEntry)
plan env organization client financial_year = do
  require_financial_year financial_year
  suggestions ← load_suggestions env organization client
  types ← calendar_types env organization
  entries ←
      gets (λ db.
        plan_entries organization client financial_year suggestions types db.compliance_items)
  or_throw entries internal
