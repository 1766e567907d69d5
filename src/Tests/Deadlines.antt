-- ===== src/Tests/Deadlines.antt =====
-- A filing of the firm's one client, due in two days, and a task for its one member.
use tax_professional_managem.Common.{
  ℕ, ◌+◌, ◌-◌, ◌*◌, ◌≡◌, ◌||◌, refl, true, List, [], ◌∷◌, ◌++◌, none, some, length, any,
}
use tax_professional_managem.Common.Text.{codes}
use tax_professional_managem.Common.Table.{count_where, update_where}
use tax_professional_managem.Dates.{start_of_today_ist, add_days}
use tax_professional_managem.Dates.Civil.{
  date_utc, day_number, days_before_year, days_before_month, month_days, is_leap, utc_parts,
  civil_of_day, find_month, find_year,
}
use tax_professional_managem.Types.{ComplianceStatus, TaskStatus, TaskPriority}
use tax_professional_managem.Db.{Db, AuditLog, ComplianceItem, Task, Notification}
use tax_professional_managem.Db.Action.{ok}
use tax_professional_managem.Notifications.{NewNotification, is_taken, notify}
use tax_professional_managem.Notifications.Laws.{IsDeduped, IsInserted, notify_once}
use tax_professional_managem.Notifications.Overdue.{mark_overdue, is_past_due, set_overdue}
use tax_professional_managem.Notifications.Overdue.Laws.{mark_overdue_lem}
use tax_professional_managem.Notifications.Sweep.{SweepResult, sweep}
use tax_professional_managem.Notifications.Sweep.Again.{sweep_again}
use tax_professional_managem.Notifications.Sweep.Delivery.{IsReminded, reminder_key, sweep_reminds}
use tax_professional_managem.Notifications.Sweep.Meant.{is_reminder}
use tax_professional_managem.Tasks.{assign_task, set_assignee}
use tax_professional_managem.Tasks.Notices.{is_notice, assign_task_tells}
use tax_professional_managem.Tests.{firm, member, client, return_type, meta}

-- Midnight of a day of 2025.
abbrev today : ℕ
today = 739700 * 86400000

abbrev filing : ComplianceItem
filing = record {
  id = 15;
  organization_id = 2;
  client_id = 9;
  compliance_type_id = 13;
  financial_year = codes "2025-26";
  assessment_year = none;
  period = none;
  due_date = today + 2 * 86400000;
  filing_date = none;
  status = ComplianceStatus.upcoming;
  assigned_to = some 4;
  notes = none;
}

abbrev late_filing : ComplianceItem
late_filing = record filing { id = 16; due_date = today - 86400000 }

abbrev task : Task
task = record {
  id = 17;
  organization_id = 2;
  created_by_id = 1;
  title = "File";
  description = none;
  client_id = none;
  portal_account_id = none;
  priority = TaskPriority.medium;
  status = TaskStatus.todo;
  due_date = none;
  assigned_to = none;
  parent_task_id = none;
  deleted_at = none;
}

abbrev office : Db
office = record firm { compliance_items = filing ∷ late_filing ∷ []; tasks = task ∷ [] }

starts : start_of_today_ist today ≡ today
unfolding start_of_today_ist date_utc day_number days_before_year days_before_month month_days
    is_leap utc_parts civil_of_day find_month find_year
starts = refl

same_day : start_of_today_ist (today + 5) ≡ start_of_today_ist today
unfolding start_of_today_ist date_utc day_number days_before_year days_before_month month_days
    is_leap utc_parts civil_of_day find_month find_year
same_day = refl

sweep_again_example :
    (r : SweepResult) × (db' : Db) × (sweep today today none office ≡ (ok r, db'))
    × (sweep (today + 5) (today + 5) none db'
        ≡ (ok (record { marked_overdue = 0; notifications_created = 0 }), db'))
sweep_again_example =
    sweep_again today today (today + 5) (today + 5) none office ((refl, tt), (tt, tt)) same_day

reminded : IsReminded (start_of_today_ist today) none office filing member
unfolding start_of_today_ist date_utc day_number days_before_year days_before_month month_days
    is_leap utc_parts civil_of_day find_month find_year add_days
reminded = record {
  client = client;
  type = return_type;
  member = 4;
  scoped = refl;
  is_open = refl;
  near = refl;
  of_client = refl;
  live = refl;
  of_type = refl;
  assigned = refl;
  active = refl;
}

sweep_reminds_example :
    (r : SweepResult) × (db' : Db) × (sweep today today none office ≡ (ok r, db'))
    × ((is_taken (some (reminder_key (start_of_today_ist today) filing 1)) office.notifications
          || any
              (is_reminder 2 1 15 (reminder_key (start_of_today_ist today) filing 1))
              db'.notifications)
        ≡ true)
sweep_reminds_example =
    sweep_reminds today today none office 15 filing member ((refl, tt), (tt, tt)) refl reminded

mark_overdue_lem_example :
    (logs : List AuditLog) × (mark_overdue 0 today none office ≡ (
      ok (count_where (is_past_due today none) office.compliance_items),
      record office {
        audit_logs = logs;
        compliance_items =
            update_where (is_past_due today none) set_overdue office.compliance_items;
      },
    ))
mark_overdue_lem_example = mark_overdue_lem 0 today none office ((refl, tt), (tt, tt))

abbrev note : NewNotification
note = record {
  organization_id = 2;
  user_id = 1;
  kind = "COMPLIANCE_OVERDUE";
  title = codes "T";
  body = codes "B";
  related_entity_type = "compliance_item";
  related_entity_id = 15;
  dedupe_key = some (codes "K");
}

notify_once_example :
    IsDeduped (notify 0 (note ∷ note ∷ []) office).1.notifications
    × IsInserted 0
        (note ∷ note ∷ [])
        office.notifications
        (notify 0 (note ∷ note ∷ []) office).1.notifications
    × ((count : ℕ) × (notify 0 (note ∷ note ∷ []) office
          ≡ (ok count, (notify 0 (note ∷ note ∷ []) office).1))
        × (length (notify 0 (note ∷ note ∷ []) office).1.notifications
            ≡ length office.notifications + count))
notify_once_example = notify_once 0 (note ∷ note ∷ []) office tt

assign_task_tells_example :
    (told : Db) × (n : Notification) × (assign_task 0 2 17 (some 4) 18 meta office
      ≡ (ok (set_assignee (some 4) task), told))
    × (told.notifications ≡ office.notifications ++ (n ∷ []))
    × (is_notice 2 1 17 n ≡ true)
    × (silent : Db) × (assign_task 0 2 17 (some 4) 1 meta office
        ≡ (ok (set_assignee (some 4) task), silent))
    × (silent.notifications ≡ office.notifications)
assign_task_tells_example = assign_task_tells 0 2 17 4 18 meta office task member refl refl refl
