-- ===== src/Notifications/Overdue/Laws.antt =====
-- What `markOverdue` of apps/api/src/notifications/deadline-sweep.service.ts does to the table:
-- the groups by organization together are one conditional update.
use tax_professional_managem.Common.{
  ℕ, ◌+◌, ◌≡◌, refl, ap, Bool, true, false, ◌||◌, List, [], ◌∷◌, ◌++◌, Option, none, some, arith,
  any, All, All-imp, All-both, IsDistinct, any-append, keep, keep_none, includes, ◌==◌, Bool-cases,
  inl, inr,
}
use tax_professional_managem.Common.Table.{
  update_where, count_where, update_where_agree, count_where_agree,
}
use tax_professional_managem.Db.{Db, AuditLog, ComplianceItem}
use tax_professional_managem.Types.{AuditAction}
use tax_professional_managem.Db.Action.{ok, ◌>>=◌, log, entry}
use tax_professional_managem.Notifications.Overdue.{
  OverdueGroup, add_to_group, group_from, is_listed, is_past_due, set_overdue, mark_listed,
  log_overdue, mark_each, mark_overdue, no_meta,
}

all_ids : List OverdueGroup → List ℕ
all_ids [] = []
all_ids (g ∷ gs) = g.ids ++ all_ids gs

module _ (a b : List ℕ) where
  listed_union : (i : ComplianceItem) → is_listed (a ++ b) i ≡ (is_listed a i || is_listed b i)
  listed_union i = ground (arith, any-append (λ x. x == i.id) a b)

  update_union :
      (is : List ComplianceItem)
      → update_where (is_listed b) set_overdue (update_where (is_listed a) set_overdue is)
        ≡ update_where (is_listed (a ++ b)) set_overdue is
  update_union [] = refl
  update_union (i ∷ is) = ground (arith, listed_union i, update_union is)

  count_union :
      (is : List ComplianceItem)
      → count_where (is_listed a) is
          + count_where (is_listed b) (update_where (is_listed a) set_overdue is)
        ≡ count_where (is_listed (a ++ b)) is
  count_union [] = refl
  count_union (i ∷ is) = ground (arith, listed_union i, count_union is)

listed_nothing :
    (is : List ComplianceItem)
    → (update_where (is_listed []) set_overdue is ≡ is) × (count_where (is_listed []) is ≡ 0)
listed_nothing [] = (refl, refl)
listed_nothing (i ∷ is) =
    let (same, zero) = listed_nothing is in (ap (λ xs. i ∷ xs) same, omega arith)

log_overdue_lem :
    (now organization count : ℕ) (db : Db)
    → (logs : List AuditLog) × (log_overdue now organization count db
        ≡ (ok tt, record db { audit_logs = logs }))
unfolding log_overdue log ◌>>=◌
log_overdue_lem now organization count db = elim (Bool-cases (count == 0)) [
  | inl zero ↦ (db.audit_logs, rw zero refl)
  | inr found ↦ (
    (log now no_meta
        (entry (some organization) none AuditAction.compliance_marked_overdue "compliance_item" none
          true)
        db).1.audit_logs,
    rw found refl,
  )
]

-- One update for all the groups.
mark_each_lem :
    (now : ℕ) (gs : List OverdueGroup) (db : Db)
    → (logs : List AuditLog) × (mark_each now gs db ≡ (
      ok (count_where (is_listed (all_ids gs)) db.compliance_items),
      record db {
        audit_logs = logs;
        compliance_items = update_where (is_listed (all_ids gs)) set_overdue db.compliance_items;
      },
    ))
unfolding mark_each mark_listed ◌>>=◌ all_ids
mark_each_lem now [] db =
    let (same, zero) = listed_nothing db.compliance_items in (db.audit_logs, rw (same, zero) refl)
mark_each_lem now (g ∷ gs) db =
    let items = update_where (is_listed g.ids) set_overdue db.compliance_items in
    let count = count_where (is_listed g.ids) db.compliance_items in
    let (logs, logged) =
      log_overdue_lem now g.organization_id count (record db { compliance_items = items }) in
    let (logs', rest) =
      mark_each_lem now gs (record db { compliance_items = items; audit_logs = logs }) in
    (
      logs',
      rw
          (
            logged,
            rest,
            count_union g.ids (all_ids gs) db.compliance_items,
            update_union g.ids (all_ids gs) db.compliance_items,
          )
          refl,
    )

-- The ids of the groups are those of the filings.
is_id : ℕ → ComplianceItem → Bool
is_id id i = i.id == id

add_to_group_ids :
    (i : ComplianceItem) (gs : List OverdueGroup) (id : ℕ)
    → includes (all_ids (add_to_group i gs)) id ≡ ((i.id == id) || includes (all_ids gs) id)
unfolding add_to_group all_ids
add_to_group_ids i [] id = refl
add_to_group_ids i (g ∷ gs) id =
    let p : ℕ → Bool = λ x. x == id in
    let last = any-append p g.ids (i.id ∷ []) in
    let old = any-append p g.ids (all_ids gs) in
    let new = any-append p (g.ids ++ (i.id ∷ [])) (all_ids gs) in
    let later = any-append p g.ids (all_ids (add_to_group i gs)) in
    ground (arith, add_to_group_ids i gs id)

group_from_ids :
    (gs : List OverdueGroup) (is : List ComplianceItem) (id : ℕ)
    → includes (all_ids (group_from gs is)) id ≡ (includes (all_ids gs) id || any (is_id id) is)
unfolding group_from is_id
group_from_ids gs [] id = ground arith
group_from_ids gs (i ∷ is) id =
    ground (arith, group_from_ids (add_to_group i gs) is id, add_to_group_ids i gs id)

due_ids : ℕ → Option ℕ → List ComplianceItem → List ℕ
due_ids today scope items = all_ids (group_from [] (keep (is_past_due today scope) items))

due_ids_lem :
    (today : ℕ) (scope : Option ℕ) (items : List ComplianceItem) (id : ℕ)
    → includes (due_ids today scope items) id
      ≡ any (is_id id) (keep (is_past_due today scope) items)
unfolding due_ids all_ids
due_ids_lem today scope items id = group_from_ids [] (keep (is_past_due today scope) items) id

-- Identifiers are a primary key.
abbrev pub IsKeyed : List ComplianceItem → Type 0
IsKeyed is = IsDistinct (λ (i : ComplianceItem). i.id) is

module _ (p : ComplianceItem → Bool) where
  kept_none :
      (is : List ComplianceItem) (id : ℕ)
      → All (λ j. (j.id == id) ≡ false) is
      → any (is_id id) (keep p is) ≡ false
  unfolding is_id
  kept_none [] id h = refl
  kept_none (i ∷ is) id h = ground (arith, h.0, kept_none is id h.1)

  kept_iff :
      (is : List ComplianceItem) → IsKeyed is → All (λ j. any (is_id j.id) (keep p is) ≡ p j) is
  unfolding is_id
  kept_iff [] h = tt
  kept_iff (i ∷ is) h = (
    ground (arith, kept_none is i.id h.0),
    All-imp _ _ is (λ j e. ground (arith, e.0, e.1)) (All-both _ _ is h.0 (kept_iff is h.1)),
  )

-- The filings that are marked, through the groups, are exactly those that are past due.
listed_iff :
    (today : ℕ) (scope : Option ℕ) (is : List ComplianceItem)
    → IsKeyed is
    → All (λ j. is_listed (due_ids today scope is) j ≡ is_past_due today scope j) is
listed_iff today scope is h =
    All-imp _ _ is (λ j e. ground (arith, e, due_ids_lem today scope is j.id))
      (kept_iff (is_past_due today scope) is h)

-- `markOverdue` works firm by firm; whatever the grouping, it is one conditional update: exactly
-- the upcoming filings in scope that are past due become overdue and nothing else of any table but
-- the audit log changes, it never fails, and its answer is how many they are. (The identifiers of
-- filings are distinct.)
pub mark_overdue_lem :
    (now today : ℕ) (scope : Option ℕ) (db : Db)
    → IsKeyed db.compliance_items
    → (logs : List AuditLog) × (mark_overdue now today scope db ≡ (
      ok (count_where (is_past_due today scope) db.compliance_items),
      record db {
        audit_logs = logs;
        compliance_items = update_where (is_past_due today scope) set_overdue db.compliance_items;
      },
    ))
unfolding mark_overdue ◌>>=◌ due_ids
mark_overdue_lem now today scope db h =
    let items = db.compliance_items in
    let agree = listed_iff today scope items h in
    let (logs, marked) =
      mark_each_lem now (group_from [] (keep (is_past_due today scope) items)) db in
    let counted = count_where_agree _ (is_past_due today scope) items agree in
    let updated = update_where_agree _ (is_past_due today scope) set_overdue items agree in
    (logs, rw (marked, counted, updated) refl)

-- What is marked is no longer past due.
marked-none :
    (today : ℕ) (scope : Option ℕ) (is : List ComplianceItem)
    → All
        (λ i. is_past_due today scope i ≡ false)
        (update_where (is_past_due today scope) set_overdue is)
marked-none today scope [] = tt
marked-none today scope (i ∷ is) = (ground arith, marked-none today scope is)

pub mark_overdue_again :
    (now today : ℕ) (scope : Option ℕ) (db : Db) (is : List ComplianceItem)
    → db.compliance_items ≡ update_where (is_past_due today scope) set_overdue is
    → mark_overdue now today scope db ≡ (ok 0, db)
unfolding mark_overdue mark_each group_from ◌>>=◌
mark_overdue_again now today scope db is e =
    let none_due : keep (is_past_due today scope) db.compliance_items ≡ [] =
      rw e (keep_none _ _ (marked-none today scope is)) in
    rw none_due refl
