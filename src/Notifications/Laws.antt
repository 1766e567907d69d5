-- ===== src/Notifications/Laws.antt =====
-- What `notify` of apps/api/src/notifications/notifications.service.ts relies on `skipDuplicates`
-- for: a key is delivered once.
use tax_professional_managem.Common.{
  ℕ, ◌+◌, ◌≡◌, refl, sym, ap, ◌∙◌, append-nil, append_assoc, Bool, any, true, false, ◌||◌, List, [],
  ◌∷◌, ◌++◌, Option, none, some, arith, All, length, length-append, any-append, is_none,
  if◌then◌else◌, Bool-cases, Option-cases, inl, inr,
}
use mathlib.Core.Path.{subst}
use tax_professional_managem.Common.Table.{any-append_last}
use tax_professional_managem.Common.Text.{Text}
use tax_professional_managem.Common.Text.Laws.{text_eq_comm, text_eq_self}
use tax_professional_managem.Db.{Db, Notification}
use tax_professional_managem.Db.Action.{ok}
use tax_professional_managem.Notifications.{
  NewNotification, is_key, has_dedupe_key, is_taken, to_notification, insert_notification,
  insert_notifications, notify,
}

-- No two rows have the same key.
abbrev pub IsDeduped : List Notification → Type 0
IsDeduped [] = Unit
IsDeduped (n ∷ ns) = (is_taken n.dedupe_key ns ≡ false) × IsDeduped ns

-- A row that is sent has no key, or its key is in the table.
abbrev pub IsSent : List Notification → NewNotification → Type 0
IsSent ns n = (is_none n.dedupe_key || is_taken n.dedupe_key ns) ≡ true

abbrev pub HasKey : NewNotification → Type 0
HasKey n = is_none n.dedupe_key ≡ false

is_taken-append :
    (k : Option Text) (ns ms : List Notification)
    → is_taken k ns ≡ true
    → is_taken k (ns ++ ms) ≡ true
is_taken-append none ns ms h = cc
is_taken-append (some k) ns ms h = ground (arith, any-append (has_dedupe_key k) ns ms)

insert_notification-keeps_taken :
    (now : ℕ) (n : NewNotification) (db : Db) (k : Option Text)
    → is_taken k db.notifications ≡ true
    → is_taken k (insert_notification now n db).notifications ≡ true
unfolding insert_notification
insert_notification-keeps_taken now n db k h =
    ground (arith, is_taken-append k db.notifications (to_notification now db.next_id n ∷ []) h)

pub insert_notifications-keeps_taken :
    (now : ℕ) (ns : List NewNotification) (db : Db) (k : Option Text)
    → is_taken k db.notifications ≡ true
    → is_taken k (insert_notifications now ns db).1.notifications ≡ true
unfolding insert_notifications
insert_notifications-keeps_taken now [] db k h = h
insert_notifications-keeps_taken now (n ∷ ns) db k h =
    insert_notifications-keeps_taken now ns (insert_notification now n db) k
      (insert_notification-keeps_taken now n db k h)

-- What has been inserted is there.
insert_notification-IsSent :
    (now : ℕ) (n : NewNotification) (db : Db)
    → IsSent (insert_notification now n db).notifications n
unfolding insert_notification
insert_notification-IsSent now n db = elim (Bool-cases (is_taken n.dedupe_key db.notifications)) [
  | inl taken ↦ ground arith
  | inr fresh ↦ elim (Option-cases n.dedupe_key) [
    | inl null ↦ rw null refl
    | inr (k, keyed) ↦
        let last =
          any-append_last (has_dedupe_key k) db.notifications (to_notification now db.next_id n)
            (rw keyed (text_eq_self k)) in
        ground (arith, fresh, keyed, last)
  ]
]

pub IsSent-keeps :
    (now : ℕ) (ns : List NewNotification) (db : Db) (n : NewNotification)
    → IsSent db.notifications n
    → IsSent (insert_notifications now ns db).1.notifications n
IsSent-keeps now ns db n h = ground (arith, insert_notifications-keeps_taken now ns db n.dedupe_key)

pub insert_notifications-IsSent :
    (now : ℕ) (ns : List NewNotification) (db : Db)
    → All (IsSent (insert_notifications now ns db).1.notifications) ns
unfolding insert_notifications
insert_notifications-IsSent now [] db = tt
insert_notifications-IsSent now (n ∷ ns) db = (
  IsSent-keeps now ns (insert_notification now n db) n (insert_notification-IsSent now n db),
  insert_notifications-IsSent now ns (insert_notification now n db),
)

-- Rows whose keys are all there are skipped.
pub insert_notifications_again :
    (now : ℕ) (ns : List NewNotification) (db : Db)
    → All HasKey ns
    → All (IsSent db.notifications) ns
    → insert_notifications now ns db ≡ (0, db)
unfolding insert_notifications insert_notification
insert_notifications_again now [] db keyed sent = refl
insert_notifications_again now (n ∷ ns) db keyed sent =
    let taken : is_taken n.dedupe_key db.notifications ≡ true = ground (arith, keyed.0, sent.0) in
    rw taken (rw (insert_notifications_again now ns db keyed.1 sent.1) refl)

is_key_comm :
    (j k : Option Text) (n m : Notification)
    → n.dedupe_key ≡ k
    → m.dedupe_key ≡ j
    → is_taken k (m ∷ []) ≡ is_taken j (n ∷ [])
is_key_comm none none n m en em = refl
is_key_comm none (some k) n m en em = ground arith
is_key_comm (some j) none n m en em = ground arith
is_key_comm (some j) (some k) n m en em = ground (arith, text_eq_comm j k)

is_taken_parts :
    (k : Option Text) (ns ms : List Notification)
    → is_taken k (ns ++ ms) ≡ (is_taken k ns || is_taken k ms)
is_taken_parts none ns ms = refl
is_taken_parts (some k) ns ms = any-append (has_dedupe_key k) ns ms

append-IsDeduped :
    (ns : List Notification) (n : Notification)
    → IsDeduped ns
    → is_taken n.dedupe_key ns ≡ false
    → IsDeduped (ns ++ (n ∷ []))
append-IsDeduped [] n u free = (ground arith, tt)
append-IsDeduped (m ∷ ms) n u free =
    let first = is_taken_parts n.dedupe_key (m ∷ []) ms in
    let other = is_key_comm m.dedupe_key n.dedupe_key n m refl refl in
    (
      ground (arith, is_taken_parts m.dedupe_key ms (n ∷ []), u.0),
      append-IsDeduped ms n u.1 (ground arith),
    )

insert_notification-IsDeduped :
    (now : ℕ) (n : NewNotification) (db : Db)
    → IsDeduped db.notifications
    → IsDeduped (insert_notification now n db).notifications
unfolding insert_notification
insert_notification-IsDeduped now n db u =
    elim (Bool-cases (is_taken n.dedupe_key db.notifications)) [
      | inl taken ↦ rw taken u
      | inr fresh ↦
          rw fresh (append-IsDeduped db.notifications (to_notification now db.next_id n) u fresh)
    ]

insert_notification_count :
    (now : ℕ) (n : NewNotification) (db : Db)
    → length (insert_notification now n db).notifications
      ≡ length db.notifications + (if is_taken n.dedupe_key db.notifications then 0 else 1)
unfolding insert_notification
insert_notification_count now n db =
    ground (arith, length-append db.notifications (to_notification now db.next_id n ∷ []))

pub insert_notifications-IsDeduped :
    (now : ℕ) (ns : List NewNotification) (db : Db)
    → IsDeduped db.notifications
    → IsDeduped (insert_notifications now ns db).1.notifications
unfolding insert_notifications
insert_notifications-IsDeduped now [] db u = u
insert_notifications-IsDeduped now (n ∷ ns) db u =
    insert_notifications-IsDeduped now ns (insert_notification now n db)
      (insert_notification-IsDeduped now n db u)

pub insert_notifications_count :
    (now : ℕ) (ns : List NewNotification) (db : Db)
    → length (insert_notifications now ns db).1.notifications
      ≡ length db.notifications + (insert_notifications now ns db).0
unfolding insert_notifications
insert_notifications_count now [] db = omega arith
insert_notifications_count now (n ∷ ns) db =
    let one = insert_notification_count now n db in
    let rest = insert_notifications_count now ns (insert_notification now n db) in ground arith

-- Only the notifications change.
pub insert_notifications_frame :
    (now : ℕ) (ns : List NewNotification) (db : Db)
    → (id : ℕ) × (rows : List Notification) × ((insert_notifications now ns db).1
        ≡ record db { next_id = id; notifications = rows })
unfolding insert_notifications insert_notification
insert_notifications_frame now [] db = (db.next_id, db.notifications, refl)
insert_notifications_frame now (n ∷ ns) db =
    elim (Bool-cases (is_taken n.dedupe_key db.notifications)) [
      | inl taken ↦ rw taken (insert_notifications_frame now ns db)
      | inr fresh ↦ rw fresh (
          insert_notifications_frame now ns (record db {
            next_id = db.next_id + 1;
            notifications = db.notifications ++ (to_notification now db.next_id n ∷ []);
          }))
    ]

-- The keys of rows, in their order.
abbrev pub keys_of : List Notification → List (Option Text)
keys_of [] = []
keys_of (n ∷ ns) = n.dedupe_key ∷ keys_of ns

-- A key that is given and among others.
abbrev pub is_repeated : Option Text → List (Option Text) → Bool
is_repeated none keys = false
is_repeated (some k) keys = any (λ j. is_key j k) keys

-- Of the rows asked for, those whose key is not among `keys` and not on a row asked for before.
abbrev pub first_of_key : List (Option Text) → List NewNotification → List NewNotification
first_of_key keys [] = []
first_of_key keys (n ∷ ns) =
    if is_repeated n.dedupe_key keys
    then first_of_key keys ns
    else n ∷ first_of_key (keys ++ (n.dedupe_key ∷ [])) ns

-- The row that was asked for: to the same user of the same organization, with the same words about
-- the same thing, unread, sent now.
pub record IsCopy (now : ℕ) (n : NewNotification) (row : Notification) : Type 0 where
  pub to_organization : row.organization_id ≡ n.organization_id
  pub to_user : row.user_id ≡ n.user_id
  pub same_kind : row.kind ≡ n.kind
  pub same_title : row.title ≡ n.title
  pub same_body : row.body ≡ n.body
  pub about_type : row.related_entity_type ≡ n.related_entity_type
  pub about_id : row.related_entity_id ≡ n.related_entity_id
  pub same_key : row.dedupe_key ≡ n.dedupe_key
  pub unread : row.read_at ≡ none
  pub sent_now : row.sent_at ≡ now

abbrev pub AllCopies : ℕ → List NewNotification → List Notification → Type 0
AllCopies now [] [] = Unit
AllCopies now (n ∷ ns) (r ∷ rs) = IsCopy now n r × AllCopies now ns rs
AllCopies now _ _ = ⊥

pub is_repeated-keys_of :
    (k : Option Text) (rows : List Notification) → is_repeated k (keys_of rows) ≡ is_taken k rows
is_repeated-keys_of none rows = refl
is_repeated-keys_of (some k) [] = refl
is_repeated-keys_of (some k) (r ∷ rs) = ground (arith, is_repeated-keys_of (some k) rs)

keys_of-append :
    (rows : List Notification) (r : Notification)
    → keys_of (rows ++ (r ∷ [])) ≡ keys_of rows ++ (r.dedupe_key ∷ [])
keys_of-append [] r = refl
keys_of-append (x ∷ xs) r = ap (λ ks. x.dedupe_key ∷ ks) (keys_of-append xs r)

-- The rows that an insertion appends.
pub record IsInserted (now : ℕ) (ns : List NewNotification) (rows rows' : List Notification)
    : Type 0 where
  pub new : List Notification
  pub appended : rows' ≡ rows ++ new
  pub copies : AllCopies now (first_of_key (keys_of rows) ns) new

pub insert_notifications-IsInserted :
    (now : ℕ) (ns : List NewNotification) (db : Db)
    → IsInserted now ns db.notifications (insert_notifications now ns db).1.notifications
unfolding insert_notifications insert_notification
insert_notifications-IsInserted now [] db = record {
  new = [];
  appended = sym (append-nil db.notifications);
  copies = tt;
}
insert_notifications-IsInserted now (n ∷ ns) db =
    elim (Bool-cases (is_taken n.dedupe_key db.notifications)) [
      | inl taken ↦
          let rest = insert_notifications-IsInserted now ns db in
          let known = is_repeated-keys_of n.dedupe_key db.notifications ∙ taken in
          rw taken
            (record { new = rest.new; appended = rest.appended; copies = rw known rest.copies })
      | inr fresh ↦
          let row = to_notification now db.next_id n in
          let next = record db {
            next_id = db.next_id + 1;
            notifications = db.notifications ++ (row ∷ []);
          } in
          let rest = insert_notifications-IsInserted now ns next in
          let unknown = is_repeated-keys_of n.dedupe_key db.notifications ∙ fresh in
          let copy : IsCopy now n row = record {
            to_organization = refl;
            to_user = refl;
            same_kind = refl;
            same_title = refl;
            same_body = refl;
            about_type = refl;
            about_id = refl;
            same_key = refl;
            unread = refl;
            sent_now = refl;
          } in
          let later : AllCopies now
              (first_of_key (keys_of db.notifications ++ (n.dedupe_key ∷ [])) ns) rest.new =
            subst (λ ks. AllCopies now (first_of_key ks ns) rest.new)
              (keys_of-append db.notifications row) rest.copies in
          rw fresh (record {
            new = row ∷ rest.new;
            appended = rest.appended ∙ append_assoc db.notifications (row ∷ []) rest.new;
            copies = rw unknown (copy, later);
          })
    ]

-- What `notify` does: it appends, in their order, a copy of each row asked for whose key is neither
-- in the table nor on a row asked for before it, and nothing else; no key is stored twice, and the
-- answer is the number of rows that the table has grown by. (No key is in the table twice before.)
pub notify_once :
    (now : ℕ) (ns : List NewNotification) (db : Db)
    → IsDeduped db.notifications
    → IsDeduped (notify now ns db).1.notifications
      × IsInserted now ns db.notifications (notify now ns db).1.notifications
      × ((count : ℕ) × (notify now ns db ≡ (ok count, (notify now ns db).1))
          × (length (notify now ns db).1.notifications ≡ length db.notifications + count))
unfolding notify
notify_once now ns db u = (
  insert_notifications-IsDeduped now ns db u,
  insert_notifications-IsInserted now ns db,
  ((insert_notifications now ns db).0, refl, insert_notifications_count now ns db),
)
