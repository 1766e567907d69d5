-- ===== src/Tasks.antt =====
-- apps/api/src/tasks/tasks.service.ts: the work of a firm's members. `assigned_to` names a member,
-- not a user. The rule of recurring tasks, which nothing reads yet, is left out.
pub mod Laws
pub mod Notices
use tax_professional_managem.Common.{
  ℕ, ◌+◌, Bool, true, false, ◌&&◌, ◌||◌, List, [], ◌∷◌, ◌++◌, reverse, any, Option, none, some, leb,
  ◌==◌, if◌then◌else◌, is_none, is_some, keep, or_else, opt_eq, String,
}
use tax_professional_managem.Common.Text.{Text, codes}
use tax_professional_managem.Common.Table.{find_first, update_where, order_by}
use tax_professional_managem.Common.Paging.{Page, page_of}
use tax_professional_managem.Types.{
  TaskStatus, TaskPriority, task_status_index, task_priority_index, AuditAction,
}
use tax_professional_managem.Db.{Db, Task, TaskComment, Member, User}
use tax_professional_managem.Db.Action.{
  Action, ok, not_found, task_not_found, pure, gets, or_throw, modify, ◌>>=◌, ◌>>◌, RequestMeta,
  log, entry,
}
use tax_professional_managem.Compliance.{require_client}
use tax_professional_managem.Compliance.Items.{require_assignee, present_or}
use tax_professional_managem.Notifications.{NewNotification, notify}
use tax_professional_managem.Notifications.Reminders.{is_active_member}

abbrev pub is_live_task : ℕ → ℕ → Task → Bool
is_live_task organization id t =
    (t.id == id) && (t.organization_id == organization) && is_none t.deleted_at

-- `requireTask`, and `get` with the rows that it joins left out.
unfoldable pub require_task : ℕ → ℕ → Action Task
require_task organization id = do
  found ← gets (λ db. find_first (is_live_task organization id) db.tasks)
  or_throw found (not_found task_not_found)

-- `if (clientId) await this.requireClientInOrg(…)`
unfoldable pub require_task_client : ℕ → Option ℕ → Action (Unit {0})
require_task_client organization none = pure tt
require_task_client organization (some client) = require_client organization client

abbrev pub is_assignee : ℕ → ℕ → Member → Bool
is_assignee organization id m = (m.id == id) && is_active_member organization m

abbrev pub name_or_teammate : Option User → Text
name_or_teammate none = codes "a teammate"
name_or_teammate (some u) = codes u.full_name

abbrev pub assignment_notice : ℕ → Task → ℕ → Option User → NewNotification
assignment_notice organization t user actor = record {
  organization_id = organization;
  user_id = user;
  kind = "TASK_ASSIGNED";
  title = codes "New task: " ++ codes t.title;
  body = codes "Assigned to you by " ++ name_or_teammate actor;
  related_entity_type = "task";
  related_entity_id = t.id;
  dedupe_key = none;
}

-- Whom to tell: the active member, but not of what he has done himself.
unfoldable pub notice_for : ℕ → Task → ℕ → Option Member → Option User → List NewNotification
notice_for organization t actor none by = []
notice_for organization t actor (some m) by =
    if m.user_id == actor then [] else assignment_notice organization t m.user_id by ∷ []

unfoldable pub notify_member : ℕ → ℕ → Task → ℕ → ℕ → Action (Unit {0})
notify_member now organization t member actor = do
  found ← gets (λ db. find_first (is_assignee organization member) db.members)
  by ← gets (λ db. find_first (λ (u : User). u.id == actor) db.users)
  notify now (notice_for organization t actor found by)
  pure tt

-- `if (task.assignedTo) await this.notifyAssignee(…)`
unfoldable pub notify_assignee : ℕ → ℕ → Task → Option ℕ → ℕ → Action (Unit {0})
notify_assignee now organization t none actor = pure tt
notify_assignee now organization t (some member) actor =
    notify_member now organization t member actor

pub record CreateTaskDto : Type 0 where
  pub title : String
  pub description : Option String
  pub client_id : Option ℕ
  pub portal_account_id : Option ℕ
  pub priority : Option TaskPriority
  pub due_date : Option ℕ
  pub assigned_to : Option ℕ
  pub parent_task_id : Option ℕ

-- The defaults of the columns `priority` and `status` are those of the schema.
abbrev pub task_row : ℕ → ℕ → ℕ → CreateTaskDto → Task
task_row id organization actor dto = record {
  id = id;
  organization_id = organization;
  created_by_id = actor;
  title = dto.title;
  description = dto.description;
  client_id = dto.client_id;
  portal_account_id = dto.portal_account_id;
  priority = or_else dto.priority TaskPriority.medium;
  status = TaskStatus.todo;
  due_date = dto.due_date;
  assigned_to = dto.assigned_to;
  parent_task_id = dto.parent_task_id;
  deleted_at = none;
}

unfoldable pub insert_task : ℕ → ℕ → CreateTaskDto → Action Task
insert_task organization actor dto db = (
  ok (task_row db.next_id organization actor dto),
  record db {
    next_id = db.next_id + 1;
    tasks = db.tasks ++ (task_row db.next_id organization actor dto ∷ []);
  },
)

abbrev pub log_task : ℕ → RequestMeta → ℕ → ℕ → AuditAction → ℕ → Action (Unit {0})
log_task now meta organization actor action id =
    log now meta (entry (some organization) (some actor) action "task" (some id) true)

unfoldable pub create_task : ℕ → ℕ → CreateTaskDto → ℕ → RequestMeta → Action Task
create_task now organization dto actor meta = do
  require_task_client organization dto.client_id
  require_assignee organization dto.assigned_to
  t ← insert_task organization actor dto
  log_task now meta organization actor AuditAction.task_created t.id
  notify_assignee now organization t t.assigned_to actor
  pure t

-- `prisma.task.update`, which gives the row back as it is then.
unfoldable pub update_task_row : ℕ → (Task → Task) → Task → Action Task
update_task_row id f existing = do
  modify (λ db. record db { tasks = update_where (λ t. t.id == id) f db.tasks })
  pure (f existing)

-- Every field may be missing, and the ones that are doubly optional may be null.
pub record UpdateTaskDto : Type 0 where
  pub title : Option String
  pub description : Option (Option String)
  pub client_id : Option (Option ℕ)
  pub portal_account_id : Option (Option ℕ)
  pub priority : Option TaskPriority
  pub status : Option TaskStatus
  pub due_date : Option ℕ

abbrev pub patch_task : UpdateTaskDto → Task → Task
patch_task dto t = record t {
  title = or_else dto.title t.title;
  description = or_else dto.description t.description;
  client_id = or_else dto.client_id t.client_id;
  portal_account_id = or_else dto.portal_account_id t.portal_account_id;
  priority = or_else dto.priority t.priority;
  status = or_else dto.status t.status;
  due_date = present_or dto.due_date t.due_date;
}

abbrev pub is_completed : Option TaskStatus → Bool
is_completed (some TaskStatus.completed) = true
is_completed _ = false

unfoldable pub update_task : ℕ → ℕ → ℕ → UpdateTaskDto → ℕ → RequestMeta → Action Task
update_task now organization id dto actor meta = do
  existing ← require_task organization id
  require_task_client organization (or_else dto.client_id none)
  t ← update_task_row id (patch_task dto) existing
  log_task now meta organization actor
      (if is_completed dto.status then AuditAction.task_completed else AuditAction.task_updated) id
  pure t

abbrev pub set_assignee : Option ℕ → Task → Task
set_assignee member t = record t { assigned_to = member }

unfoldable pub assign_task : ℕ → ℕ → ℕ → Option ℕ → ℕ → RequestMeta → Action Task
assign_task now organization id member actor meta = do
  existing ← require_task organization id
  require_assignee organization member
  t ← update_task_row id (set_assignee member) existing
  log_task now meta organization actor AuditAction.task_assigned id
  notify_assignee now organization t t.assigned_to actor
  pure t

abbrev pub set_completed : Task → Task
set_completed t = record t { status = TaskStatus.completed }

unfoldable pub complete_task : ℕ → ℕ → ℕ → ℕ → RequestMeta → Action Task
complete_task now organization id actor meta = do
  existing ← require_task organization id
  t ← update_task_row id set_completed existing
  log_task now meta organization actor AuditAction.task_completed id
  pure t

abbrev pub set_deleted : ℕ → Task → Task
set_deleted now t = record t { deleted_at = some now }

unfoldable pub remove_task : ℕ → ℕ → ℕ → ℕ → RequestMeta → Action (Unit {0})
remove_task now organization id actor meta = do
  existing ← require_task organization id
  update_task_row id (set_deleted now) existing
  log_task now meta organization actor AuditAction.task_deleted id

-- The comments stand in the order of their creation.
unfoldable pub list_comments : ℕ → ℕ → Action (List TaskComment)
list_comments organization id = do
  require_task organization id
  gets (λ db. keep (λ (c : TaskComment). c.task_id == id) db.comments)

abbrev pub comment_row : ℕ → ℕ → String → TaskComment
comment_row id actor body = record { task_id = id; author_id = actor; body = body }

unfoldable pub add_comment : ℕ → ℕ → String → ℕ → Action TaskComment
add_comment organization id body actor = do
  require_task organization id
  modify (λ db. record db { comments = db.comments ++ (comment_row id actor body ∷ []) })
  pure (comment_row id actor body)

-- `TaskListFilters`
pub record TaskListFilters : Type 0 where
  pub status : Option TaskStatus
  pub priority : Option TaskPriority
  pub assigned_to : Option ℕ
  pub client_id : Option ℕ
  pub due_before : Option ℕ
  pub due_after : Option ℕ
  pub search : Option String
  pub cursor : Option ℕ
  pub limit : Option ℕ

-- A filter that is not given lets everything through.
abbrev pub given : {A : Type 0} → Option A → (A → Bool) → Bool
given none test = true
given (some a) test = test a

abbrev pub due_at_most : Option ℕ → ℕ → Bool
due_at_most none date = false
due_at_most (some due) date = leb due date

abbrev pub due_at_least : Option ℕ → ℕ → Bool
due_at_least none date = false
due_at_least (some due) date = leb date due

abbrev pub has_text : (String → String → Bool) → Option String → String → Bool
has_text contains none search = false
has_text contains (some text) search = contains text search

-- `contains` is the database's case-insensitive search in a column.
abbrev pub is_listed_task : (String → String → Bool) → ℕ → TaskListFilters → Task → Bool
is_listed_task contains organization filters t =
    (t.organization_id == organization)
    && is_none t.deleted_at
    && given filters.status (λ s. task_status_index t.status == task_status_index s)
    && given filters.priority (λ p. task_priority_index t.priority == task_priority_index p)
    && given filters.assigned_to (λ member. opt_eq t.assigned_to member)
    && given filters.client_id (λ client. opt_eq t.client_id client)
    && given filters.due_before (λ date. due_at_most t.due_date date)
    && given filters.due_after (λ date. due_at_least t.due_date date)
    && given filters.search
        (λ search. contains t.title search || has_text contains t.description search)

-- `dueDate: "asc"`, with those that have none last.
abbrev pub due_first : Option ℕ → Option ℕ → Bool
due_first (some a) (some b) = leb a b
due_first (some a) none = true
due_first none (some b) = false
due_first none none = true

-- The newest row of the table is the last one.
abbrev pub listed_tasks : (String → String → Bool) → ℕ → TaskListFilters → Db → List Task
listed_tasks contains organization filters db =
    order_by (λ a b. due_first a.due_date b.due_date)
      (keep (is_listed_task contains organization filters) (reverse db.tasks))

abbrev pub has_task_id : ℕ → ℕ → Task → Bool
has_task_id organization id t = (t.id == id) && (t.organization_id == organization)

-- The cursor, if it names a row of the organization.
abbrev pub known_cursor : ℕ → Option ℕ → Db → Option ℕ
known_cursor organization none db = none
known_cursor organization (some id) db =
    if any (has_task_id organization id) db.tasks then some id else none

unfoldable pub list_tasks : (String → String → Bool) → ℕ → TaskListFilters → Action (Page Task)
list_tasks contains organization filters = gets (λ db.
    page_of (λ (t : Task). t.id) filters.limit (known_cursor organization filters.cursor db)
      (listed_tasks contains organization filters db))
