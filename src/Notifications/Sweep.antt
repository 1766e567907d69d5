-- ===== src/Notifications/Sweep.antt =====
-- `sweep` of apps/api/src/notifications/deadline-sweep.service.ts, which a timer runs every hour,
-- for every firm or for one. The timer itself is left out.
pub mod Again
pub mod Meant
pub mod Delivery
use tax_professional_managem.Common.{
  ℕ, ◌+◌, ◌-◌, Bool, true, false, not, ◌&&◌, ◌||◌, List, [], ◌∷◌, ◌++◌, map, Option, none, some,
  ltb, leb, ◌==◌, if◌then◌else◌, includes, is_none, is_some, keep, length, String,
}
use tax_professional_managem.Common.Int.{ℤ, pos, negsuc}
use tax_professional_managem.Common.Text.{Text, codes, text_eq, is_digit, decimal}
use tax_professional_managem.Common.Table.{find_first, count_where, update_where}
use tax_professional_managem.Dates.{start_of_today_ist, add_days, days_between}
use tax_professional_managem.Dates.Civil.{utc_parts}
use tax_professional_managem.Types.{
  ComplianceStatus, TaskStatus, AuditAction, compliance_status_index, task_status_index,
}
use tax_professional_managem.Types.Rbac.{Permission, has_permission_code}
use tax_professional_managem.Db.{
  Db, ComplianceItem, ComplianceType, Client, Task, Member, MemberStatus, Role,
}
use tax_professional_managem.Db.Action.{
  Action, pure, gets, modify, ◌>>=◌, ◌>>◌, RequestMeta, log, entry,
}
use tax_professional_managem.Notifications.{NewNotification, notify}
use tax_professional_managem.Notifications.Overdue.{mark_overdue}
use tax_professional_managem.Notifications.Reminders.{compliance_reminders, task_reminders}

pub record SweepResult : Type 0 where
  pub marked_overdue : ℕ
  pub notifications_created : ℕ

-- `sent` is the time at which the notifications are sent, and `now` the one that is swept for.
unfoldable pub sweep : ℕ → ℕ → Option ℕ → Action SweepResult
sweep now sent scope = do
  marked ← mark_overdue sent (start_of_today_ist now) scope
  for_items ← gets (compliance_reminders (start_of_today_ist now) scope)
  items ← notify sent for_items
  for_tasks ← gets (task_reminders (start_of_today_ist now) scope)
  tasks ← notify sent for_tasks
  pure (record { marked_overdue = marked; notifications_created = items + tasks })
