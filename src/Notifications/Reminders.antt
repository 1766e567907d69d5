-- ===== src/Notifications/Reminders.antt =====
-- The reminders of apps/api/src/notifications/deadline-sweep.service.ts: who is told of which
-- filing or task, and under which key.
pub mod Keys
use tax_professional_managem.Common.{
  ℕ, zero, suc, ◌*◌, ◌+◌, ◌-◌, Bool, true, false, ◌&&◌, ◌||◌, List, [], ◌∷◌, ◌++◌, map, Option,
  none, some, leb, ◌==◌, if◌then◌else◌, is_none, keep,
}
use tax_professional_managem.Common.Int.{ℤ, pos, negsuc}
use tax_professional_managem.Common.Text.{Text, codes, text_eq, is_digit, decimal}
use tax_professional_managem.Common.Table.{find_first}
use tax_professional_managem.Dates.{add_days, days_between}
use tax_professional_managem.Dates.Civil.{utc_parts}
use tax_professional_managem.Types.{ComplianceStatus, TaskStatus}
use tax_professional_managem.Types.Rbac.{Permission, has_permission_code}
use tax_professional_managem.Db.{
  Db, ComplianceItem, ComplianceType, Client, Task, Member, MemberStatus, Role,
}
use tax_professional_managem.Notifications.{NewNotification}
use tax_professional_managem.Notifications.Overdue.{in_scope}

-- `[...REMINDER_DAYS].reverse()`
abbrev pub reminder_days : List ℕ
reminder_days = 0 ∷ 1 ∷ 3 ∷ 7 ∷ []

abbrev pub first_point : ℕ → List ℕ → ℕ
first_point days [] = 7
first_point days (d ∷ ds) = if leb days d then d else first_point days ds

-- `reminderStage`
unfoldable pub reminder_stage : ℤ → Text
reminder_stage (negsuc n) = codes "overdue"
reminder_stage (pos n) = codes "due" ++ decimal (first_point n reminder_days)

abbrev pub months : List Text
months =
    codes "Jan"
    ∷ codes "Feb"
    ∷ codes "Mar"
    ∷ codes "Apr"
    ∷ codes "May"
    ∷ codes "Jun"
    ∷ codes "Jul"
    ∷ codes "Aug"
    ∷ codes "Sep"
    ∷ codes "Oct"
    ∷ codes "Nov"
    ∷ codes "Dec"
    ∷ []

-- The label of that index, as it is put into a template.
abbrev pub label_at : ℕ → List Text → Text
label_at m [] = codes "undefined"
label_at zero (x ∷ xs) = x
label_at (suc m) (x ∷ xs) = label_at m xs

-- `MONTHS[m]`
abbrev pub month_label : ℕ → Text
month_label m = label_at m months

-- `/^(\d{4})-(\d{2})$/`: the text of the year, and the month.
unfoldable pub monthly_period : Text → Option (Text × ℕ)
monthly_period (a ∷ (b ∷ (c ∷ (d ∷ (s ∷ (m ∷ (n ∷ []))))))) =
    if is_digit a
      && is_digit b
      && is_digit c
      && is_digit d
      && (s == b'-')
      && is_digit m
      && is_digit n
    then some (a ∷ b ∷ c ∷ d ∷ [], 10 * (m - b'0') + (n - b'0'))
    else none
monthly_period _ = none

-- `MONTHS[Number(mm) - 1]`
abbrev pub numbered_month : ℕ → Text
numbered_month zero = codes "undefined"
numbered_month (suc m) = month_label m

abbrev plain_period : Text → Text → Text
plain_period period financial_year =
    if text_eq period (codes "ANNUAL") || text_eq period []
    then codes "FY " ++ financial_year
    else period ++ codes " FY " ++ financial_year

abbrev monthly_or : Option (Text × ℕ) → Text → Text
monthly_or none plain = plain
monthly_or (some (year, month)) plain = numbered_month month ++ codes " " ++ year

unfoldable pub period_label : Option Text → Text → Text
period_label none financial_year = codes "FY " ++ financial_year
period_label (some period) financial_year =
    monthly_or (monthly_period period) (plain_period period financial_year)

unfoldable pub format_date : ℕ → Text
format_date date =
    let d = utc_parts date in
    decimal d.day ++ codes " " ++ month_label d.month ++ codes " " ++ decimal d.year

abbrev pub is_open_item : ComplianceStatus → Bool
is_open_item ComplianceStatus.upcoming = true
is_open_item ComplianceStatus.in_progress = true
is_open_item ComplianceStatus.overdue = true
is_open_item _ = false

abbrev pub is_open_task : TaskStatus → Bool
is_open_task TaskStatus.todo = true
is_open_task TaskStatus.in_progress = true
is_open_task TaskStatus.waiting = true
is_open_task _ = false

abbrev pub is_active_status : MemberStatus → Bool
is_active_status MemberStatus.active = true
is_active_status _ = false

-- From `OVERDUE_ALERT_WINDOW_DAYS` before today to `ahead` days after it.
abbrev pub is_near : ℕ → ℕ → ℕ → Bool
is_near today ahead date =
    leb (add_days today (negsuc 6)) date && leb date (add_days today (pos ahead))

abbrev pub is_active_member : ℕ → Member → Bool
is_active_member organization m = (m.organization_id == organization) && is_active_status m.status

-- `activeMemberUser`
unfoldable pub active_member_user : Db → ℕ → ℕ → List ℕ
active_member_user db organization id =
    map (λ (m : Member). m.user_id)
      (keep (λ m. (m.id == id) && is_active_member organization m) db.members)

abbrev pub may_manage : Option Role → Bool
may_manage none = false
may_manage (some r) = has_permission_code Permission.compliance_manage r.permissions

abbrev pub role_of_member : Db → Member → Option Role
role_of_member db m = find_first (λ (r : Role). r.id == m.role_id) db.roles

-- `complianceManagers`. The source keeps the answer for the rest of the run, in which no member
-- changes.
unfoldable pub compliance_managers : Db → ℕ → List ℕ
compliance_managers db organization =
    map (λ (m : Member). m.user_id)
      (keep (λ m. is_active_member organization m && may_manage (role_of_member db m)) db.members)

unfoldable pub item_recipients : Db → ComplianceItem → Option ℕ → List ℕ
item_recipients db i none = compliance_managers db i.organization_id
item_recipients db i (some member) = active_member_user db i.organization_id member

-- The four wordings of a filing's reminder.
unfoldable pub when_due : ℤ → Text
when_due (negsuc n) = codes "is overdue"
when_due (pos zero) = codes "is due today"
when_due (pos (suc zero)) = codes "is due tomorrow"
when_due (pos n) = codes "is due in " ++ decimal n ++ codes " days"

abbrev pub is_negative : ℤ → Bool
is_negative (pos n) = false
is_negative (negsuc n) = true

unfoldable pub dedupe_key : Text → ℕ → ℤ → ℕ → Text
dedupe_key prefix id days user =
    prefix
    ++ codes ":"
    ++ decimal id
    ++ codes ":"
    ++ reminder_stage days
    ++ codes ":"
    ++ decimal user

-- The reminder of a filing, of the client and type that the query joins to it, for one user.
abbrev pub item_reminder : ℤ → ComplianceItem → Client → ComplianceType → ℕ → NewNotification
item_reminder days i client type user = record {
  organization_id = i.organization_id;
  user_id = user;
  kind = if is_negative days then "COMPLIANCE_OVERDUE" else "COMPLIANCE_DUE_SOON";
  title = codes type.name ++ codes " " ++ when_due days;
  body =
      codes client.name
      ++ codes " · "
      ++ period_label i.period i.financial_year
      ++ codes " · due "
      ++ format_date i.due_date;
  related_entity_type = "compliance_item";
  related_entity_id = i.id;
  dedupe_key = some (dedupe_key (codes "compliance") i.id days user);
}

abbrev pub has_client_id : ℕ → Client → Bool
has_client_id id c = c.id == id

abbrev pub client_of_item : Db → ComplianceItem → Option Client
client_of_item db i = find_first (has_client_id i.client_id) db.clients

abbrev pub type_of_item : Db → ComplianceItem → Option ComplianceType
type_of_item db i =
    find_first (λ (t : ComplianceType). t.id == i.compliance_type_id) db.compliance_types

abbrev pub is_reminded_item : ℕ → Option ℕ → ComplianceItem → Bool
is_reminded_item today scope i =
    in_scope scope i.organization_id && is_open_item i.status && is_near today 7 i.due_date

-- Both relations are required ones, so that the query always finds their rows.
abbrev pub joined_reminders :
    ℤ → ComplianceItem → List ℕ → Option Client → Option ComplianceType → List NewNotification
joined_reminders days i users none type = []
joined_reminders days i users (some client) none = []
joined_reminders days i users (some client) (some type) =
    if is_none client.deleted_at then map (item_reminder days i client type) users else []

unfoldable pub reminders_of_item : ℕ → Db → ComplianceItem → List NewNotification
reminders_of_item today db i =
    joined_reminders (days_between today i.due_date) i (item_recipients db i i.assigned_to)
      (client_of_item db i) (type_of_item db i)

unfoldable pub reminders_of_items : ℕ → Option ℕ → Db → List ComplianceItem → List NewNotification
reminders_of_items today scope db [] = []
reminders_of_items today scope db (i ∷ is) =
    (if is_reminded_item today scope i then reminders_of_item today db i else [])
    ++ reminders_of_items today scope db is

-- `complianceReminders`
abbrev pub compliance_reminders : ℕ → Option ℕ → Db → List NewNotification
compliance_reminders today scope db = reminders_of_items today scope db db.compliance_items

-- The beginning of the body, with the name of the client.
abbrev pub client_prefix : Option Client → Text
client_prefix none = []
client_prefix (some c) = codes c.name ++ codes " · "

abbrev pub client_of_task : Db → Option ℕ → Option Client
client_of_task db none = none
client_of_task db (some id) = find_first (has_client_id id) db.clients

unfoldable pub when_task_due : ℤ → Text
when_task_due (negsuc n) = codes "is overdue"
when_task_due (pos zero) = codes "is due today"
when_task_due (pos n) = codes "is due tomorrow"

abbrev pub task_reminder : ℤ → Db → Task → ℕ → ℕ → NewNotification
task_reminder days db t due user = record {
  organization_id = t.organization_id;
  user_id = user;
  kind = if is_negative days then "TASK_OVERDUE" else "TASK_DUE_SOON";
  title = codes "Task " ++ when_task_due days ++ codes ": " ++ codes t.title;
  body = client_prefix (client_of_task db t.client_id) ++ codes "due " ++ format_date due;
  related_entity_type = "task";
  related_entity_id = t.id;
  dedupe_key = some (dedupe_key (codes "task") t.id days user);
}

abbrev pub is_reminded_task : Option ℕ → Task → Bool
is_reminded_task scope t =
    in_scope scope t.organization_id && is_none t.deleted_at && is_open_task t.status

abbrev pub reminders_due : ℕ → Db → Task → Option ℕ → Option ℕ → List NewNotification
reminders_due today db t none due = []
reminders_due today db t (some member) none = []
reminders_due today db t (some member) (some due) =
    if is_near today 1 due
    then map (task_reminder (days_between today due) db t due)
        (active_member_user db t.organization_id member)
    else []

unfoldable pub reminders_of_task : ℕ → Option ℕ → Db → Task → List NewNotification
reminders_of_task today scope db t =
    if is_reminded_task scope t then reminders_due today db t t.assigned_to t.due_date else []

unfoldable pub reminders_of_tasks : ℕ → Option ℕ → Db → List Task → List NewNotification
reminders_of_tasks today scope db [] = []
reminders_of_tasks today scope db (t ∷ ts) =
    reminders_of_task today scope db t ++ reminders_of_tasks today scope db ts

-- `taskReminders`
abbrev pub task_reminders : ℕ → Option ℕ → Db → List NewNotification
task_reminders today scope db = reminders_of_tasks today scope db db.tasks
