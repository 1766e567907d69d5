-- ===== src/Tasks/Laws.antt =====
-- The tasks of another firm, and those that have been deleted, are out of reach.
use tax_professional_managem.Common.{
  ℕ, ◌≡◌, refl, List, [], ◌∷◌, Option, none, some, arith, String, ◌==◌,
}
use tax_professional_managem.Common.Table.{find_first, update_where}
use tax_professional_managem.Db.{Db, Task}
use tax_professional_managem.Db.Action.{ok, err, not_found, task_not_found, RequestMeta, ◌>>=◌, log}
use tax_professional_managem.Tasks.{
  is_live_task, require_task, UpdateTaskDto, update_task, assign_task, complete_task, remove_task,
  list_comments, add_comment, update_task_row, set_deleted,
}

-- A task that is not among the organization's live ones is not found by any operation on a task,
-- and nothing at all is written: no row, no entry of the log, no notification.
pub task_refused :
    (now organization id actor : ℕ) (dto : UpdateTaskDto) (member : Option ℕ) (body : String)
    (meta : RequestMeta) (db : Db)
    → find_first (is_live_task organization id) db.tasks ≡ none
    → (update_task now organization id dto actor meta db ≡ (err (not_found task_not_found), db))
      × (assign_task now organization id member actor meta db
          ≡ (err (not_found task_not_found), db))
      × (complete_task now organization id actor meta db ≡ (err (not_found task_not_found), db))
      × (remove_task now organization id actor meta db ≡ (err (not_found task_not_found), db))
      × (list_comments organization id db ≡ (err (not_found task_not_found), db))
      × (add_comment organization id body actor db ≡ (err (not_found task_not_found), db))
unfolding update_task assign_task complete_task remove_task list_comments add_comment require_task
    ◌>>=◌
task_refused now organization id actor dto member body meta db missing = (
  rw missing refl,
  rw missing refl,
  rw missing refl,
  rw missing refl,
  rw missing refl,
  rw missing refl,
)

live-none :
    (organization id at : ℕ) (ts : List Task)
    → find_first
        (is_live_task organization id)
        (update_where (λ (t : Task). t.id == id) (set_deleted at) ts)
      ≡ none
live-none organization id at [] = refl
live-none organization id at (t ∷ ts) = ground (arith, live-none organization id at ts)

-- Deleting a live task of the organization succeeds, and it stays deleted: the row is there no
-- longer for any operation on a task, which all fail on the database that the deletion leaves.
pub remove_task_final :
    (now organization id actor : ℕ) (meta : RequestMeta) (db : Db) (t : Task)
    → find_first (is_live_task organization id) db.tasks ≡ some t
    → (db' : Db) × (remove_task now organization id actor meta db ≡ (ok tt, db'))
      × (find_first (is_live_task organization id) db'.tasks ≡ none)
unfolding remove_task require_task update_task_row log ◌>>=◌
remove_task_final now organization id actor meta db t found = (
  (remove_task now organization id actor meta db).1,
  rw found refl,
  rw found (live-none organization id now db.tasks),
)
