-- ===== src/Reports/Laws.antt =====
-- That the figures of apps/api/src/reports/reports.service.ts add up.
use tax_professional_managem.Common.{
  ℕ, ◌+◌, ◌≡◌, refl, ◌∙◌, Bool, List, [], ◌∷◌, map, arith, keep, length, length-map,
}
use tax_professional_managem.Common.Table.{count_where}
use tax_professional_managem.Types.{
  client_status_index, task_status_index, task_priority_index, compliance_status_index,
}
use tax_professional_managem.Db.{Db, Client, Task, ComplianceItem}
use tax_professional_managem.Reports.{
  Count, add_value, count_values, group_by, summary_at, is_firm_client, is_firm_task, is_firm_item,
}

pub sum_of : List Count → ℕ
sum_of [] = 0
sum_of (c ∷ cs) = c.count + sum_of cs

add_value-sum : (v : ℕ) (cs : List Count) → sum_of (add_value v cs) ≡ sum_of cs + 1
unfolding sum_of
add_value-sum v [] = omega arith
add_value-sum v (c ∷ cs) = ground (arith, add_value-sum v cs)

count_values-sum : (vs : List ℕ) → sum_of (count_values vs) ≡ length vs
unfolding sum_of
count_values-sum [] = refl
count_values-sum (v ∷ vs) = omega (arith, add_value-sum v (count_values vs), count_values-sum vs)

module _ {A : Type 0} where
  count-length : (p : A → Bool) (xs : List A) → length (keep p xs) ≡ count_where p xs
  count-length p [] = refl
  count-length p (x ∷ xs) = ground (arith, count-length p xs)

  group_by-sum :
      (column : A → ℕ) (test : A → Bool) (rows : List A)
      → sum_of (group_by column test rows) ≡ count_where test rows
  group_by-sum column test rows =
      count_values-sum (map column (keep test rows))
      ∙ length-map column (keep test rows)
      ∙ count-length test rows

-- The figures of a report add up: for each of the four break-downs, of clients, of tasks by status
-- and by priority, and of filings, the counts make the total.
pub summary_adds_up :
    (today organization : ℕ) (db : Db)
    → let s = summary_at today organization db in
      (sum_of s.clients_by_status ≡ s.client_total)
      × (sum_of s.tasks_by_status ≡ s.task_total)
      × (sum_of s.tasks_by_priority ≡ s.task_total)
      × (sum_of s.compliance_by_status ≡ s.compliance_total)
unfolding summary_at
summary_adds_up today organization db = (
  group_by-sum (λ (c : Client). client_status_index c.status) (is_firm_client organization)
      db.clients,
  group_by-sum (λ (t : Task). task_status_index t.status) (is_firm_task organization) db.tasks,
  group_by-sum (λ (t : Task). task_priority_index t.priority) (is_firm_task organization) db.tasks,
  group_by-sum (λ (i : ComplianceItem). compliance_status_index i.status)
      (is_firm_item organization) db.compliance_items,
)
