-- ===== src/Notifications/Overdue.antt =====
-- `markOverdue` of apps/api/src/notifications/deadline-sweep.service.ts: filings that nobody has
-- begun when their due date passes.
pub mod Laws
use tax_professional_managem.Common.{
  ℕ, ◌+◌, ◌-◌, Bool, true, false, not, ◌&&◌, ◌||◌, List, [], ◌∷◌, ◌++◌, map, Option, none, some,
  ltb, leb, ◌==◌, if◌then◌else◌, includes, is_none, is_some, keep, length, String,
}
use tax_professional_managem.Common.Int.{ℤ, pos, negsuc}
use tax_professional_managem.Common.Text.{Text, codes, text_eq, is_digit, decimal}
use tax_professional_managem.Common.Table.{find_first, count_where, update_where}
use tax_professional_managem.Dates.{start_of_today_ist, add_days, days_between}
use tax_professional_managem.Dates.Civil.{utc_parts}
use tax_professional_managem.Types.{
  ComplianceStatus, TaskStatus, AuditAction, compliance_status_index, task_status_index,
}
use tax_professional_managem.Types.Rbac.{Permission, has_permission_code}
use tax_professional_managem.Db.{
  Db, ComplianceItem, ComplianceType, Client, Task, Member, MemberStatus, Role,
}
use tax_professional_managem.Db.Action.{
  Action, pure, gets, modify, ◌>>=◌, ◌>>◌, RequestMeta, log, entry,
}
use tax_professional_managem.Notifications.{NewNotification, notify}

-- `organizationId` of the scope, where it is given.
abbrev pub in_scope : Option ℕ → ℕ → Bool
in_scope none organization = true
in_scope (some scope) organization = organization == scope

abbrev pub is_upcoming : ComplianceItem → Bool
is_upcoming i = compliance_status_index i.status == 0

abbrev pub is_past_due : ℕ → Option ℕ → ComplianceItem → Bool
is_past_due today scope i =
    in_scope scope i.organization_id && is_upcoming i && ltb i.due_date today

-- An entry of the map `byOrg`, which keeps the order of insertion.
pub record OverdueGroup : Type 0 where
  pub organization_id : ℕ
  pub ids : List ℕ

unfoldable pub add_to_group : ComplianceItem → List OverdueGroup → List OverdueGroup
add_to_group i [] = record { organization_id = i.organization_id; ids = i.id ∷ [] } ∷ []
add_to_group i (g ∷ gs) =
    let rest = add_to_group i gs in
    if g.organization_id == i.organization_id
    then record g { ids = g.ids ++ (i.id ∷ []) } ∷ gs
    else g ∷ rest

unfoldable pub group_from : List OverdueGroup → List ComplianceItem → List OverdueGroup
group_from gs [] = gs
group_from gs (i ∷ is) = group_from (add_to_group i gs) is

abbrev pub is_listed : List ℕ → ComplianceItem → Bool
is_listed ids i = includes ids i.id && is_upcoming i

abbrev pub set_overdue : ComplianceItem → ComplianceItem
set_overdue i = record i { status = ComplianceStatus.overdue }

-- `updateMany`, with its count.
unfoldable pub mark_listed : List ℕ → Action ℕ
mark_listed ids = do
  count ← gets (λ db. count_where (is_listed ids) db.compliance_items)
  modify (λ db. record db {
    compliance_items = update_where (is_listed ids) set_overdue db.compliance_items;
  })
  pure count

abbrev pub no_meta : RequestMeta
no_meta = record { ip = none; user_agent = none }

unfoldable pub log_overdue : ℕ → ℕ → ℕ → Action (Unit {0})
log_overdue now organization count =
    if count == 0
    then pure tt
    else log now no_meta (
        entry (some organization) none AuditAction.compliance_marked_overdue "compliance_item" none
          true)

unfoldable pub mark_each : ℕ → List OverdueGroup → Action ℕ
mark_each now [] = pure 0
mark_each now (g ∷ gs) = do
  count ← mark_listed g.ids
  log_overdue now g.organization_id count
  total ← mark_each now gs
  pure (count + total)

unfoldable pub mark_overdue : ℕ → ℕ → Option ℕ → Action ℕ
mark_overdue now today scope = do
  due ← gets (λ db. keep (is_past_due today scope) db.compliance_items)
  mark_each now (group_from [] due)
