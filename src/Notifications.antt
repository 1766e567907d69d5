-- ===== src/Notifications.antt =====
-- apps/api/src/notifications/notifications.service.ts: the messages that members find in the
-- application. A title is the list of its character codes.
pub mod Laws
pub mod Overdue
pub mod Reminders
pub mod Sweep
use tax_professional_managem.Common.{
  ℕ, ◌+◌, Bool, true, false, not, ◌&&◌, ◌||◌, List, [], ◌∷◌, ◌++◌, Option, none, some, ◌==◌, min,
  if◌then◌else◌, any, keep, is_none, is_some, or_else, String,
}
use tax_professional_managem.Common.Text.{Text, text_eq}
use tax_professional_managem.Common.Table.{find_first, count_where, update_where}
use tax_professional_managem.Common.Paging.{take}
use tax_professional_managem.Db.{Db, Notification}
use tax_professional_managem.Db.Action.{
  Action, ok, not_found, notification_not_found, pure, gets, throw_if, modify, ◌>>=◌, ◌>>◌,
}

-- `NewNotification`
pub record NewNotification : Type 0 where
  pub organization_id : ℕ
  pub user_id : ℕ
  pub kind : String
  pub title : Text
  pub body : Text
  pub related_entity_type : String
  pub related_entity_id : ℕ
  pub dedupe_key : Option Text

abbrev pub is_key : Option Text → Text → Bool
is_key none k = false
is_key (some j) k = text_eq j k

abbrev pub has_dedupe_key : Text → Notification → Bool
has_dedupe_key k n = is_key n.dedupe_key k

-- The unique index on `dedupe_key`, which null keys are not in.
abbrev pub is_taken : Option Text → List Notification → Bool
is_taken none ns = false
is_taken (some k) ns = any (has_dedupe_key k) ns

abbrev pub to_notification : ℕ → ℕ → NewNotification → Notification
to_notification now id n = record {
  id = id;
  organization_id = n.organization_id;
  user_id = n.user_id;
  kind = n.kind;
  title = n.title;
  body = n.body;
  related_entity_type = n.related_entity_type;
  related_entity_id = n.related_entity_id;
  read_at = none;
  sent_at = now;
  dedupe_key = n.dedupe_key;
}

-- `createMany` with `skipDuplicates`, one row after another.
unfoldable pub insert_notification : ℕ → NewNotification → Db → Db
insert_notification now n db = if is_taken n.dedupe_key db.notifications then db else record db {
  next_id = db.next_id + 1;
  notifications = db.notifications ++ (to_notification now db.next_id n ∷ []);
}

unfoldable pub insert_notifications : ℕ → List NewNotification → Db → ℕ × Db
insert_notifications now [] db = (0, db)
insert_notifications now (n ∷ ns) db =
    let (count, db') = insert_notifications now ns (insert_notification now n db) in
    (if is_taken n.dedupe_key db.notifications then count else count + 1, db')

-- `notify`: how many were created. No rows need no query, which creates none either.
unfoldable pub notify : ℕ → List NewNotification → Action ℕ
notify now ns db = let (count, db') = insert_notifications now ns db in (ok count, db')

abbrev pub is_own : ℕ → ℕ → Notification → Bool
is_own organization user n = (n.organization_id == organization) && (n.user_id == user)

abbrev pub is_unread : ℕ → ℕ → Notification → Bool
is_unread organization user n = is_own organization user n && is_none n.read_at

-- `list`, where `newest` is the table from the newest row to the oldest.
unfoldable pub list_notifications : ℕ → ℕ → Bool → Option ℕ → List Notification → List Notification
list_notifications organization user unread_only limit newest =
    take (min (or_else limit 30) 100)
      (keep (λ n. is_own organization user n && (not unread_only || is_none n.read_at)) newest)

unfoldable pub unread_count : ℕ → ℕ → Action ℕ
unread_count organization user =
    gets (λ db. count_where (is_unread organization user) db.notifications)

abbrev pub read : ℕ → Notification → Notification
read now n = record n { read_at = some now }

unfoldable pub mark_read : ℕ → ℕ → ℕ → ℕ → Action (Unit {0})
mark_read now organization user id = do
  count ←
      gets (λ db. count_where (λ n. (n.id == id) && is_unread organization user n) db.notifications)
  modify (λ db. record db {
    notifications =
        update_where (λ n. (n.id == id) && is_unread organization user n) (read now)
          db.notifications;
  })
  exists ← gets (λ db.
      is_some (find_first (λ n. (n.id == id) && is_own organization user n) db.notifications))
  throw_if ((count == 0) && not exists) (not_found notification_not_found)

unfoldable pub mark_all_read : ℕ → ℕ → ℕ → Action ℕ
mark_all_read now organization user = do
  count ← unread_count organization user
  modify (λ db. record db {
    notifications = update_where (is_unread organization user) (read now) db.notifications;
  })
  pure count
