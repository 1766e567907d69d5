-- ===== src/Notifications/Sweep/Again.antt =====
-- Runs of the sweep of apps/api/src/notifications/deadline-sweep.service.ts on the same day.
use tax_professional_managem.Common.{
  ℕ, ◌+◌, ◌≡◌, refl, ◌∙◌, List, [], ◌∷◌, map, Option, none, some, All, All-append, All-imp, is_none,
  Bool-cases, inl, inr,
}
use tax_professional_managem.Common.Int.{ℤ}
use tax_professional_managem.Dates.{start_of_today_ist, days_between}
use tax_professional_managem.Db.{Db, ComplianceItem, ComplianceType, Client, Task, Notification}
use tax_professional_managem.Db.Action.{ok, ◌>>=◌}
use tax_professional_managem.Notifications.{NewNotification, notify, insert_notifications}
use tax_professional_managem.Notifications.Laws.{
  HasKey, IsSent-keeps, insert_notifications-IsSent, insert_notifications_again,
  insert_notifications_frame,
}
use tax_professional_managem.Common.Table.{update_where}
use tax_professional_managem.Notifications.Overdue.{mark_overdue, is_past_due, set_overdue}
use tax_professional_managem.Notifications.Overdue.Laws.{
  IsKeyed, mark_overdue_lem, mark_overdue_again,
}
use tax_professional_managem.Notifications.Reminders.{
  item_reminder, task_reminder, joined_reminders, reminders_of_item, reminders_of_items,
  reminders_of_task, reminders_of_tasks, reminders_due, item_recipients, active_member_user,
  compliance_managers, is_reminded_item, is_near, is_reminded_task, compliance_reminders,
  task_reminders,
}
use tax_professional_managem.Notifications.Sweep.{SweepResult, sweep}

-- Every reminder has a key.
module _ {A : Type 0} (f : A → NewNotification) (keyed : (a : A) → HasKey (f a)) where
  map-HasKey : (xs : List A) → All HasKey (map f xs)
  map-HasKey [] = tt
  map-HasKey (x ∷ xs) = (keyed x, map-HasKey xs)

joined_reminders-HasKey :
    (days : ℤ) (i : ComplianceItem) (users : List ℕ) (client : Option Client)
    (type : Option ComplianceType)
    → All HasKey (joined_reminders days i users client type)
joined_reminders-HasKey days i users none type = tt
joined_reminders-HasKey days i users (some client) none = tt
joined_reminders-HasKey days i users (some client) (some type) =
    elim (Bool-cases (is_none client.deleted_at)) [
      | inl live ↦ rw live (map-HasKey (item_reminder days i client type) (λ user. refl) users)
      | inr deleted ↦ rw deleted tt
    ]

reminders_of_items-HasKey :
    (today : ℕ) (scope : Option ℕ) (db : Db) (is : List ComplianceItem)
    → All HasKey (reminders_of_items today scope db is)
unfolding reminders_of_items reminders_of_item
reminders_of_items-HasKey today scope db [] = tt
reminders_of_items-HasKey today scope db (i ∷ is) =
    let rest = reminders_of_items-HasKey today scope db is in
    elim (Bool-cases (is_reminded_item today scope i)) [
      | inl hit ↦ rw hit (All-append HasKey _ _ (joined_reminders-HasKey _ i _ _ _) rest)
      | inr miss ↦ rw miss rest
    ]

reminders_due-HasKey :
    (today : ℕ) (db : Db) (t : Task) (member due : Option ℕ)
    → All HasKey (reminders_due today db t member due)
reminders_due-HasKey today db t none due = tt
reminders_due-HasKey today db t (some member) none = tt
reminders_due-HasKey today db t (some member) (some due) = elim (Bool-cases (is_near today 1 due)) [
  | inl hit ↦ rw hit (map-HasKey (task_reminder (days_between today due) db t due) (λ user. refl) _)
  | inr miss ↦ rw miss tt
]

reminders_of_tasks-HasKey :
    (today : ℕ) (scope : Option ℕ) (db : Db) (ts : List Task)
    → All HasKey (reminders_of_tasks today scope db ts)
unfolding reminders_of_tasks reminders_of_task
reminders_of_tasks-HasKey today scope db [] = tt
reminders_of_tasks-HasKey today scope db (t ∷ ts) =
    let rest = reminders_of_tasks-HasKey today scope db ts in
    elim (Bool-cases (is_reminded_task scope t)) [
      | inl hit ↦ rw hit (All-append HasKey _ _ (reminders_due-HasKey today db t _ _) rest)
      | inr miss ↦ rw miss rest
    ]

-- No reminder depends on the notifications.
module _ (today : ℕ) (scope : Option ℕ) (db : Db) (id : ℕ) (rows : List Notification) where
  abbrev sent : Db
  sent = record db { next_id = id; notifications = rows }

  item_recipients_sent :
      (i : ComplianceItem) (member : Option ℕ)
      → item_recipients sent i member ≡ item_recipients db i member
  unfolding item_recipients compliance_managers active_member_user
  item_recipients_sent i none = refl
  item_recipients_sent i (some member) = refl

  reminders_of_items_sent :
      (is : List ComplianceItem)
      → reminders_of_items today scope sent is ≡ reminders_of_items today scope db is
  unfolding reminders_of_items reminders_of_item
  reminders_of_items_sent [] = refl
  reminders_of_items_sent (i ∷ is) =
      rw (item_recipients_sent i i.assigned_to, reminders_of_items_sent is) refl

  reminders_due_sent :
      (t : Task) (member due : Option ℕ)
      → reminders_due today sent t member due ≡ reminders_due today db t member due
  unfolding active_member_user
  reminders_due_sent t none due = refl
  reminders_due_sent t (some member) none = refl
  reminders_due_sent t (some member) (some due) = refl

  reminders_of_tasks_sent :
      (ts : List Task)
      → reminders_of_tasks today scope sent ts ≡ reminders_of_tasks today scope db ts
  unfolding reminders_of_tasks reminders_of_task
  reminders_of_tasks_sent [] = refl
  reminders_of_tasks_sent (t ∷ ts) =
      rw (reminders_due_sent t t.assigned_to t.due_date, reminders_of_tasks_sent ts) refl

-- What the reminders are drawn from.
record IsSameSource (today : ℕ) (scope : Option ℕ) (db db' : Db) : Type 0 where
  for_items : compliance_reminders today scope db' ≡ compliance_reminders today scope db
  for_tasks : task_reminders today scope db' ≡ task_reminders today scope db
  items : db'.compliance_items ≡ db.compliance_items

insert-IsSameSource :
    (today : ℕ) (scope : Option ℕ) (time : ℕ) (ns : List NewNotification) (db : Db)
    → IsSameSource today scope db (insert_notifications time ns db).1
insert-IsSameSource today scope time ns db =
    let (id, rows, e) = insert_notifications_frame time ns db in
    rw e (record {
      for_items = reminders_of_items_sent today scope db id rows db.compliance_items;
      for_tasks = reminders_of_tasks_sent today scope db id rows db.tasks;
      items = refl;
    })

-- What a run does after the marking.
module _ (today time : ℕ) (scope : Option ℕ) (marked : Db) where
  abbrev pub for_items : List NewNotification
  for_items = compliance_reminders today scope marked

  abbrev pub after_items : Db
  after_items = (insert_notifications time for_items marked).1

  abbrev pub for_tasks : List NewNotification
  for_tasks = task_reminders today scope after_items

  abbrev pub after_tasks : Db
  after_tasks = (insert_notifications time for_tasks after_items).1

  -- A later run the same day draws the same reminders.
  drawn_again :
      (compliance_reminders today scope after_tasks ≡ for_items)
      × (task_reminders today scope after_tasks ≡ for_tasks)
      × (after_tasks.compliance_items ≡ marked.compliance_items)
  drawn_again =
      let first = insert-IsSameSource today scope time for_items marked in
      let second = insert-IsSameSource today scope time for_tasks after_items in
      (second.for_items ∙ first.for_items, second.for_tasks, second.items ∙ first.items)

  -- All of them are there already.
  nothing_to_send :
      (later : ℕ)
      → (insert_notifications later for_items after_tasks ≡ (0, after_tasks))
        × (insert_notifications later for_tasks after_tasks ≡ (0, after_tasks))
  nothing_to_send later =
      let sent = insert_notifications-IsSent time for_items marked in
      (
        insert_notifications_again later for_items after_tasks
            (reminders_of_items-HasKey today scope marked marked.compliance_items)
            (All-imp _ _ for_items (IsSent-keeps time for_tasks after_items) sent),
        insert_notifications_again later for_tasks after_tasks
            (reminders_of_tasks-HasKey today scope after_items after_items.tasks)
            (insert_notifications-IsSent time for_tasks after_items),
      )

pub sweep_ran :
    (now time : ℕ) (scope : Option ℕ) (db marked : Db) (count : ℕ)
    → mark_overdue time (start_of_today_ist now) scope db ≡ (ok count, marked)
    → let today = start_of_today_ist now in
      (r : SweepResult) × (sweep now time scope db ≡ (ok r, after_tasks today time scope marked))
unfolding sweep notify ◌>>=◌
sweep_ran now time scope db marked count e =
    let today = start_of_today_ist now in
    (
      record {
        marked_overdue = count;
        notifications_created =
            (insert_notifications time (for_items today time scope marked) marked).0
            + (insert_notifications time (for_tasks today time scope marked)
                (after_items today time scope marked)).0;
      },
      rw e refl,
    )

sweep_idle :
    (now time : ℕ) (scope : Option ℕ) (db : Db)
    → mark_overdue time (start_of_today_ist now) scope db ≡ (ok 0, db)
    → insert_notifications time (compliance_reminders (start_of_today_ist now) scope db) db
      ≡ (0, db)
    → insert_notifications time (task_reminders (start_of_today_ist now) scope db) db ≡ (0, db)
    → sweep now time scope db ≡ (ok (record { marked_overdue = 0; notifications_created = 0 }), db)
unfolding sweep notify ◌>>=◌
sweep_idle now time scope db marks items tasks = rw marks (rw items (rw tasks refl))

-- The sweep is idempotent: it never fails, and once it has run for a scope, a run at any time on
-- the same day in India marks nothing, sends nothing and leaves the whole database as it is. (The
-- identifiers of filings are distinct.)
pub sweep_again :
    (now time later later_time : ℕ) (scope : Option ℕ) (db : Db)
    → IsKeyed db.compliance_items
    → start_of_today_ist later ≡ start_of_today_ist now
    → (r : SweepResult) × (db' : Db) × (sweep now time scope db ≡ (ok r, db'))
      × (sweep later later_time scope db'
          ≡ (ok (record { marked_overdue = 0; notifications_created = 0 }), db'))
sweep_again now time later later_time scope db keyed same =
    let today = start_of_today_ist now in
    let (logs, marks) = mark_overdue_lem time today scope db keyed in
    let marked = record db {
      audit_logs = logs;
      compliance_items = update_where (is_past_due today scope) set_overdue db.compliance_items;
    } in
    let db' = after_tasks today time scope marked in
    let (items, tasks, rows) = drawn_again today time scope marked in
    let (no_items, no_tasks) = nothing_to_send today time scope marked later_time in
    let (r, ran) = sweep_ran now time scope db marked _ marks in
    (
      r,
      db',
      ran,
      sweep_idle later later_time scope db'
          (rw same (mark_overdue_again later_time today scope db' db.compliance_items rows))
          (rw (same, items) no_items) (rw (same, tasks) no_tasks),
    )
