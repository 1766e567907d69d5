-- ===== src/Reports.antt =====
-- apps/api/src/reports/reports.service.ts: the figures of a firm, counted from its rows.
pub mod Laws
use tax_professional_managem.Common.{
  ℕ, ◌+◌, Bool, true, false, not, ◌&&◌, ◌||◌, List, [], ◌∷◌, map, Option, none, some, ltb, leb,
  ◌==◌, if◌then◌else◌, any, is_none, keep,
}
use tax_professional_managem.Common.Int.{pos}
use tax_professional_managem.Common.Table.{count_where}
use tax_professional_managem.Dates.{start_of_today_ist, add_days}
use tax_professional_managem.Types.{
  ClientStatus, TaskStatus, TaskPriority, ComplianceStatus, client_status_index, task_status_index,
  task_priority_index, compliance_status_index,
}
use tax_professional_managem.Db.{Db, Client, Task, ComplianceItem, Document}
use tax_professional_managem.Db.Action.{Action, gets}

-- An entry of a count map: a value of the column, by its index in the list of its values.
pub record Count : Type 0 where
  pub value : ℕ
  pub count : ℕ

-- `groupBy` with `_count`, and `toCountMap`: the values that occur, in the order of first occurrence.
abbrev pub add_value : ℕ → List Count → List Count
add_value v [] = record { value = v; count = 1 } ∷ []
add_value v (c ∷ cs) =
    let rest = add_value v cs in
    if c.value == v then record c { count = c.count + 1 } ∷ cs else c ∷ rest

abbrev pub count_values : List ℕ → List Count
count_values [] = []
count_values (v ∷ vs) = add_value v (count_values vs)

abbrev pub group_by : {A : Type 0} → (A → ℕ) → (A → Bool) → List A → List Count
group_by column test rows = count_values (map column (keep test rows))

abbrev pub is_firm_client : ℕ → Client → Bool
is_firm_client organization c = (c.organization_id == organization) && is_none c.deleted_at

abbrev pub is_firm_task : ℕ → Task → Bool
is_firm_task organization t = (t.organization_id == organization) && is_none t.deleted_at

abbrev pub is_firm_item : ℕ → ComplianceItem → Bool
is_firm_item organization i = i.organization_id == organization

abbrev pub is_firm_document : ℕ → Document → Bool
is_firm_document organization d = (d.organization_id == organization) && is_none d.deleted_at

abbrev pub is_before : ℕ → Option ℕ → Bool
is_before today none = false
is_before today (some due) = ltb due today

abbrev pub is_unfinished : TaskStatus → Bool
is_unfinished TaskStatus.completed = false
is_unfinished TaskStatus.cancelled = false
is_unfinished _ = true

abbrev pub is_unfiled : ComplianceStatus → Bool
is_unfiled ComplianceStatus.filed = false
is_unfiled ComplianceStatus.verified = false
is_unfiled ComplianceStatus.not_applicable = false
is_unfiled _ = true

abbrev pub total_size : List Document → ℕ
total_size [] = 0
total_size (d ∷ ds) = d.size_bytes + total_size ds

pub record Summary : Type 0 where
  pub client_total : ℕ
  pub clients_by_status : List Count
  pub task_total : ℕ
  pub tasks_by_status : List Count
  pub tasks_by_priority : List Count
  pub overdue_tasks : ℕ
  pub compliance_total : ℕ
  pub compliance_by_status : List Count
  pub overdue_compliance : ℕ
  pub due_next_30_days : ℕ
  pub document_total : ℕ
  pub total_size_bytes : ℕ

unfoldable pub summary_at : ℕ → ℕ → Db → Summary
summary_at today organization db = record {
  client_total = count_where (is_firm_client organization) db.clients;
  clients_by_status =
      group_by (λ (c : Client). client_status_index c.status) (is_firm_client organization)
        db.clients;
  task_total = count_where (is_firm_task organization) db.tasks;
  tasks_by_status =
      group_by (λ (t : Task). task_status_index t.status) (is_firm_task organization) db.tasks;
  tasks_by_priority =
      group_by (λ (t : Task). task_priority_index t.priority) (is_firm_task organization) db.tasks;
  overdue_tasks =
      count_where
        (λ (t : Task).
          is_firm_task organization t && is_before today t.due_date && is_unfinished t.status)
        db.tasks;
  compliance_total = count_where (is_firm_item organization) db.compliance_items;
  compliance_by_status =
      group_by (λ (i : ComplianceItem). compliance_status_index i.status)
        (is_firm_item organization) db.compliance_items;
  overdue_compliance =
      count_where
        (λ (i : ComplianceItem).
          is_firm_item organization i && ltb i.due_date today && is_unfiled i.status)
        db.compliance_items;
  due_next_30_days =
      count_where
        (λ (i : ComplianceItem).
          is_firm_item organization i
          && leb today i.due_date
          && leb i.due_date (add_days today (pos 30))
          && is_unfiled i.status)
        db.compliance_items;
  document_total = count_where (is_firm_document organization) db.documents;
  total_size_bytes = total_size (keep (is_firm_document organization) db.documents);
}

unfoldable pub summary : ℕ → ℕ → Action Summary
summary now organization = gets (summary_at (start_of_today_ist now) organization)
