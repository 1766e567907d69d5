-- ===== src/Tasks/Notices.antt =====
-- Who hears of an assignment.
use tax_professional_managem.Common.{
  ℕ, ◌≡◌, refl, Bool, true, false, List, [], ◌∷◌, ◌++◌, some, arith, inl, inr, Option-cases, ◌&&◌,
  is_none, is_some, ◌==◌, ==_self,
}
use tax_professional_managem.Common.Table.{find_first, find_first_sound}
use tax_professional_managem.Db.{Db, Task, Member, User, Notification}
use tax_professional_managem.Db.Action.{ok, RequestMeta, ◌>>=◌, log}
use tax_professional_managem.Compliance.Items.{is_member_of}
use tax_professional_managem.Notifications.{
  notify, insert_notifications, insert_notification, to_notification,
}
use tax_professional_managem.Tasks.{
  is_live_task, is_assignee, require_task, assign_task, update_task_row, notify_assignee,
  notify_member, notice_for, assignment_notice, set_assignee,
}

-- An active member of the organization is one of its members.
member_known :
    (organization id : ℕ) (ms : List Member) (m : Member)
    → find_first (is_assignee organization id) ms ≡ some m
    → is_some (find_first (is_member_of organization id) ms) ≡ true
member_known organization id [] m e = cc
member_known organization id (x ∷ xs) m e = ground (arith, member_known organization id xs m)

member_row :
    (organization id : ℕ) (ms : List Member) (m : Member)
    → find_first (is_assignee organization id) ms ≡ some m
    → (r : Member) × (find_first (is_member_of organization id) ms ≡ some r)
member_row organization id ms m e =
    elim (Option-cases (find_first (is_member_of organization id) ms)) [
      | inl missing ↦ absurd (ground (arith, member_known organization id ms m e))
      | inr row ↦ row
    ]

-- The unread rows about a task for one user.
abbrev pub is_notice : ℕ → ℕ → ℕ → Notification → Bool
is_notice organization user task n =
    (n.organization_id == organization)
    && (n.user_id == user)
    && (n.related_entity_id == task)
    && is_none n.read_at

-- A live task of the organization can be assigned to any of its active members; then that member's
-- user gets exactly one new notification, unread and about the task, and if it is the member that
-- assigns the task to himself, nobody gets any.
pub assign_task_tells :
    (now organization id member actor : ℕ) (meta : RequestMeta) (db : Db) (t : Task) (m : Member)
    → find_first (is_live_task organization id) db.tasks ≡ some t
    → find_first (is_assignee organization member) db.members ≡ some m
    → (m.user_id == actor) ≡ false
    → (told : Db) × (n : Notification) × (assign_task now organization id
          (some member)
          actor
          meta
          db
        ≡ (ok (set_assignee (some member) t), told))
      × (told.notifications ≡ db.notifications ++ (n ∷ []))
      × (is_notice organization m.user_id id n ≡ true)
      × (silent : Db) × (assign_task now organization id (some member) m.user_id meta db
          ≡ (ok (set_assignee (some member) t), silent))
      × (silent.notifications ≡ db.notifications)
unfolding assign_task require_task update_task_row notify_assignee notify_member notice_for notify
    insert_notifications insert_notification log ◌>>=◌
assign_task_tells now organization id member actor meta db t m found active other =
    let by = find_first (λ (u : User). u.id == actor) db.users in
    let (r, known) = member_row organization member db.members m active in
    let named : (t.id == id) ≡ true =
      ground (arith, find_first_sound (is_live_task organization id) db.tasks t found) in
    (
      (assign_task now organization id (some member) actor meta db).1,
      to_notification now db.next_id (assignment_notice organization t m.user_id by),
      rw (found, known, active, other) refl,
      rw (found, known, active, other) refl,
      ground arith,
      (assign_task now organization id (some member) m.user_id meta db).1,
      rw (found, known, active, ==_self m.user_id) refl,
      rw (found, known, active, ==_self m.user_id) refl,
    )
