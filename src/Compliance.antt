-- ===== src/Compliance.antt =====
-- apps/api/src/compliance/compliance.service.ts: the tracked filings of an organization's clients,
-- and the generation of a financial year's calendar.
pub mod Calendar
pub mod Generation
pub mod Items
pub mod Listing
pub mod Index
use tax_professional_managem.Common.{
  ℕ, ◌+◌, ◌-◌, Bool, true, false, not, ◌&&◌, ◌||◌, List, [], ◌∷◌, ◌++◌, map, Option, none, some,
  ltb, ◌==◌, if◌then◌else◌, includes, is_none, is_some, length, keep, opt_eq, String,
}
use tax_professional_managem.Common.Text.{Text}
use tax_professional_managem.Common.Table.{find_first, count_where, order_by}
use tax_professional_managem.Dates.{start_of_today_ist}
use tax_professional_managem.Types.{ClientStatus, AuditAction}
use tax_professional_managem.DueRules.{DueRule, Filing, expand_rule}
use tax_professional_managem.DueRules.Year.{parse_financial_year, assessment_year_for}
use tax_professional_managem.DueRules.Suggestions.{Suggestions, suggested_type_codes, get_entry}
use tax_professional_managem.Db.{Db, Client, ComplianceType, ComplianceItem}
use tax_professional_managem.Db.Action.{
  Action, ok, err, not_found, bad_request, internal, client_not_found, compliance_type_not_found,
  invalid_financial_year, pure, throw, gets, or_throw, throw_if, ◌>>=◌, ◌>>◌, RequestMeta, log,
  entry,
}
use Calendar.{CalendarType, PlannedRows, create_items, plan_all}

-- The identifiers that decryption recovers from a client's row.
pub record Pii : Type 0 where
  pub gstin : Option String
  pub tan : Option String

-- `decrypt_client` is `ClientPiiService.decryptClient`, `none` where it throws, and `type_before`
-- the database's order of types by category and name.
pub record ComplianceEnv : Type 0 where
  pub decrypt_client : Client → Option Pii
  pub type_before : CalendarType → CalendarType → Bool

abbrev pub is_live_client : ℕ → ℕ → Client → Bool
is_live_client organization id c =
    (c.id == id) && (c.organization_id == organization) && is_none c.deleted_at

unfoldable pub require_client : ℕ → ℕ → Action (Unit {0})
require_client organization id = do
  found ← gets (λ db. find_first (is_live_client organization id) db.clients)
  or_throw found (not_found client_not_found)
  pure tt

unfoldable pub require_financial_year : Text → Action (Unit {0})
require_financial_year financial_year =
    throw_if (is_none (parse_financial_year financial_year)) (bad_request invalid_financial_year)

-- Types that have a rule, global or of this organization.
abbrev pub is_offered : ℕ → ComplianceType → Bool
is_offered organization t = is_none t.organization_id || opt_eq t.organization_id organization

abbrev pub with_rule : ComplianceType → Option DueRule → List CalendarType
with_rule t none = []
with_rule t (some rule) = record { type = t; rule = rule } ∷ []

abbrev pub with_rules : ℕ → List ComplianceType → List CalendarType
with_rules organization [] = []
with_rules organization (t ∷ ts) =
    (if is_offered organization t then with_rule t t.default_due_rule else [])
    ++ with_rules organization ts

unfoldable pub calendar_types : ComplianceEnv → ℕ → Action (List CalendarType)
calendar_types env organization =
    gets (λ db. order_by env.type_before (with_rules organization db.compliance_types))

pub record CalendarResult : Type 0 where
  pub created : ℕ
  pub already_tracked : ℕ
  pub skipped_past_due : ℕ

abbrev pub created_of : PlannedRows → ℕ → CalendarResult
created_of planned count = record {
  created = count;
  already_tracked = length planned.rows - count;
  skipped_past_due = planned.skipped;
}

unfoldable pub create_calendar_items :
    ℕ → ℕ → ℕ → List CalendarType → Text → Bool → Action CalendarResult
create_calendar_items now organization client types financial_year include_past_due = do
  planned ←
      or_throw
        (plan_all (start_of_today_ist now) include_past_due organization client financial_year
          (assessment_year_for financial_year) types)
        internal
  count ← create_items planned.rows
  pure (created_of planned count)

-- `new Set(ids).size`
abbrev pub distinct_count : List ℕ → ℕ
distinct_count [] = 0
distinct_count (x ∷ xs) = (if includes xs x then 0 else 1) + distinct_count xs

abbrev pub is_requested : List ℕ → CalendarType → Bool
is_requested ids t = includes ids t.type.id

-- The checks of `generate`, and the types that it goes on with.
unfoldable pub generate_check : ComplianceEnv → ℕ → ℕ → Text → List ℕ → Action (List CalendarType)
generate_check env organization client financial_year type_ids = do
  require_financial_year financial_year
  require_client organization client
  offered ← calendar_types env organization
  throw_if (not (length (keep (is_requested type_ids) offered) == distinct_count type_ids))
      (not_found compliance_type_not_found)
  pure (keep (is_requested type_ids) offered)

unfoldable pub generate :
    ComplianceEnv → ℕ → ℕ → ℕ → Text → List ℕ → Bool → ℕ → RequestMeta → Action CalendarResult
generate env now organization client financial_year type_ids include_past_due actor meta = do
  types ← generate_check env organization client financial_year type_ids
  result ← create_calendar_items now organization client types financial_year include_past_due
  log now meta (
      entry (some organization) (some actor) AuditAction.compliance_calendar_generated "client"
        (some client) true)
  pure result

pub record CalendarTotals : Type 0 where
  pub clients : ℕ
  pub created : ℕ
  pub already_tracked : ℕ
  pub skipped_past_due : ℕ

abbrev pub add_result : CalendarTotals → CalendarResult → CalendarTotals
add_result totals r = record {
  clients = totals.clients + 1;
  created = totals.created + r.created;
  already_tracked = totals.already_tracked + r.already_tracked;
  skipped_past_due = totals.skipped_past_due + r.skipped_past_due;
}

abbrev pub is_suggested : Suggestions → CalendarType → Bool
is_suggested m t = is_some (get_entry t.type.code m)

abbrev pub suggestions_for : Client → Pii → Suggestions
suggestions_for c pii = suggested_type_codes c.entity_type pii.gstin pii.tan

-- The loop over the clients of an organization.
unfoldable pub generate_each :
    ComplianceEnv
    → ℕ
    → ℕ
    → List CalendarType
    → Text
    → Bool
    → List Client
    → CalendarTotals
    → Action CalendarTotals
generate_each env now organization types financial_year include_past_due [] totals = pure totals
generate_each env now organization types financial_year include_past_due (c ∷ cs) totals = do
  pii ← or_throw (env.decrypt_client c) internal
  result ←
      create_calendar_items now organization c.id
        (keep (is_suggested (suggestions_for c pii)) types) financial_year include_past_due
  generate_each env now organization types financial_year include_past_due cs
      (add_result totals result)

abbrev pub is_served : ClientStatus → Bool
is_served ClientStatus.active = true
is_served ClientStatus.onboarding = true
is_served _ = false

abbrev pub is_active_client : ℕ → Client → Bool
is_active_client organization c =
    (c.organization_id == organization) && is_none c.deleted_at && is_served c.status

unfoldable pub generate_for_all_clients :
    ComplianceEnv → ℕ → ℕ → Text → Bool → ℕ → RequestMeta → Action CalendarTotals
generate_for_all_clients env now organization financial_year include_past_due actor meta = do
  require_financial_year financial_year
  types ← calendar_types env organization
  clients ← gets (λ db. keep (is_active_client organization) db.clients)
  totals ←
      generate_each env now organization types financial_year include_past_due clients
        (record { clients = 0; created = 0; already_tracked = 0; skipped_past_due = 0 })
  log now meta (
      entry (some organization) (some actor) AuditAction.compliance_calendar_generated
        "organization" (some organization) true)
  pure totals
