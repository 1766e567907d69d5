-- ===== src/Notifications/Sweep/Delivery.antt =====
-- That the sweep of apps/api/src/notifications/deadline-sweep.service.ts reaches the members.
use tax_professional_managem.Common.{
  ℕ, ◌≡◌, refl, sym, ap, ◌∙◌, Bool, true, ◌&&◌, ◌||◌, List, [], ◌∷◌, ◌++◌, map, Option, some, arith,
  All, All-imp, any, any-append, keep, if◌then◌else◌, is_none, Bool-cases, inl, inr, ◌==◌,
}
use mathlib.Core.Option
use mathlib.Core.Path.{subst}
use tax_professional_managem.Common.Text.{Text, codes}
use tax_professional_managem.Common.Text.Laws.{text_eq_self}
use tax_professional_managem.Common.Table.{
  All-update, find_first_sound, find_first, find_first-update, update_where, updated,
}
use tax_professional_managem.Dates.{start_of_today_ist, days_between}
use tax_professional_managem.Db.{
  Db, AuditLog, ComplianceItem, ComplianceType, Client, Member, Notification,
}
use tax_professional_managem.Db.Action.{ok}
use tax_professional_managem.Notifications.{NewNotification, is_taken}
use tax_professional_managem.Notifications.Laws.{
  is_repeated-keys_of, keys_of, insert_notifications-IsInserted,
}
use tax_professional_managem.Notifications.Overdue.{in_scope, is_past_due, set_overdue}
use tax_professional_managem.Notifications.Overdue.Laws.{IsKeyed, mark_overdue_lem}
use tax_professional_managem.Notifications.Reminders.{
  item_reminder, reminders_of_item, reminders_of_items, item_recipients, active_member_user,
  is_active_member, client_of_item, type_of_item, is_reminded_item, is_open_item, is_near,
  dedupe_key,
}
use tax_professional_managem.Notifications.Sweep.{SweepResult, sweep}
use tax_professional_managem.Notifications.Sweep.Again.{
  for_items, for_tasks, after_items, after_tasks, sweep_ran,
}
use tax_professional_managem.Notifications.Sweep.Meant.{
  has_key, is_reminder, is_item_id, reminder_inserted, reminders-IsMeant, same_filing,
}

module _ {A B C : Type 0} (f : B → C) (g : A → B) (p : A → Bool) (q : C → Bool) where
  any-map :
      (xs : List A) (x : A)
      → find_first p xs ≡ some x
      → q (f (g x)) ≡ true
      → any q (map f (map g (keep p xs))) ≡ true
  any-map [] x e h = cc
  any-map (y ∷ ys) x e h = elim (Bool-cases (p y)) [
    | inl hit ↦
        let same : y ≡ x = ground arith in let here : q (f (g y)) ≡ true = rw same h in ground arith
    | inr miss ↦ ground (arith, any-map ys x)
  ]

reminded_among :
    (today : ℕ) (scope : Option ℕ) (db : Db) (is : List ComplianceItem) (id : ℕ)
    (i : ComplianceItem) (q : NewNotification → Bool)
    → find_first (is_item_id id) is ≡ some i
    → is_reminded_item today scope i ≡ true
    → any q (reminders_of_item today db i) ≡ true
    → any q (reminders_of_items today scope db is) ≡ true
unfolding reminders_of_items
reminded_among today scope db [] id i q e h r = cc
reminded_among today scope db (j ∷ js) id i q e h r =
    let parts =
      any-append q (if is_reminded_item today scope j then reminders_of_item today db j else [])
        (reminders_of_items today scope db js) in
    elim (Bool-cases (is_item_id id j)) [
      | inl hit ↦
          let same : j ≡ i = ground arith in
          let due : is_reminded_item today scope j ≡ true = rw same h in
          let told : any q (reminders_of_item today db j) ≡ true = rw same r in
          parts ∙ rw due (rw told refl)
      | inr miss ↦
          let later = reminded_among today scope db js id i q (ground arith) h r in
          parts ∙ rw later ground arith
    ]

-- An open filing near its date, of a client that is there, which is assigned to an active member.
pub record IsReminded (today : ℕ) (scope : Option ℕ) (db : Db) (i : ComplianceItem) (m : Member)
    : Type 0 where
  pub client : Client
  pub type : ComplianceType
  pub member : ℕ
  pub scoped : in_scope scope i.organization_id ≡ true
  pub is_open : is_open_item i.status ≡ true
  pub near : is_near today 7 i.due_date ≡ true
  pub of_client : client_of_item db i ≡ some client
  pub live : is_none client.deleted_at ≡ true
  pub of_type : type_of_item db i ≡ some type
  pub assigned : i.assigned_to ≡ some member
  pub active :
      find_first (λ m. (m.id == member) && is_active_member i.organization_id m) db.members ≡ some m

abbrev pub reminder_key : ℕ → ComplianceItem → ℕ → Text
reminder_key today i user =
    dedupe_key (codes "compliance") i.id (days_between today i.due_date) user

item_told :
    (today : ℕ) (scope : Option ℕ) (db : Db) (i : ComplianceItem) (m : Member)
    → IsReminded today scope db i m
    → any (has_key (reminder_key today i m.user_id)) (reminders_of_item today db i) ≡ true
unfolding reminders_of_item item_recipients active_member_user
item_told today scope db i m r =
    rw (r.assigned, r.of_client, r.of_type, r.live)
      (any-map (item_reminder (days_between today i.due_date) i r.client r.type)
        (λ (m : Member). m.user_id) _ (has_key (reminder_key today i m.user_id)) db.members m
        r.active (text_eq_self (reminder_key today i m.user_id)))

-- The marking does not take a filing out of the reminders.
abbrev marked : Db → List AuditLog → List ComplianceItem → Db
marked db logs is = record db { audit_logs = logs; compliance_items = is }

IsReminded-updated :
    (today : ℕ) (scope : Option ℕ) (db : Db) (logs : List AuditLog) (is : List ComplianceItem)
    (i : ComplianceItem) (m : Member)
    → IsReminded today scope db i m
    → IsReminded today scope (marked db logs is) (updated (is_past_due today scope) set_overdue i) m
      × (reminder_key today (updated (is_past_due today scope) set_overdue i) m.user_id
          ≡ reminder_key today i m.user_id)
IsReminded-updated today scope db logs is i m r = elim (Bool-cases (is_past_due today scope i)) [
  | inl hit ↦ rw hit (
    record {
      client = r.client;
      type = r.type;
      member = r.member;
      scoped = r.scoped;
      is_open = refl;
      near = r.near;
      of_client = r.of_client;
      live = r.live;
      of_type = r.of_type;
      assigned = r.assigned;
      active = r.active;
    },
    refl,
  )
  | inr miss ↦ rw miss (
    record {
      client = r.client;
      type = r.type;
      member = r.member;
      scoped = r.scoped;
      is_open = r.is_open;
      near = r.near;
      of_client = r.of_client;
      live = r.live;
      of_type = r.of_type;
      assigned = r.assigned;
      active = r.active;
    },
    refl,
  )
]

marked_filing :
    (today : ℕ) (scope : Option ℕ) (i x : ComplianceItem)
    → ((x.id == i.id) ≡ true → x.organization_id ≡ i.organization_id)
    → (((updated (is_past_due today scope) set_overdue x).id == i.id) ≡ true
        → (updated (is_past_due today scope) set_overdue x).organization_id ≡ i.organization_id)
marked_filing today scope i x h = elim (Bool-cases (is_past_due today scope x)) [
  | inl hit ↦ rw hit h
  | inr miss ↦ rw miss h
]

appended_any :
    (p : Notification → Bool) (rows rows' new : List Notification)
    → rows' ≡ rows ++ new
    → (any p rows || any p new) ≡ any p rows'
appended_any p rows rows' new e = sym (any-append p rows new) ∙ sym (ap (any p) e)

-- Nobody misses a deadline that is theirs: after every sweep for its firm or for all of them, an
-- open filing of a client that is there, due within seven days or at most seven days overdue, and
-- assigned to an active member, has its reminder of the day's stage among the notifications: an
-- unread one, for that member's user in that organization, about that filing; unless a notification
-- with the reminder's key was there before the sweep. (The identifiers of filings are distinct.)
pub sweep_reminds :
    (now time : ℕ) (scope : Option ℕ) (db : Db) (id : ℕ) (i : ComplianceItem) (m : Member)
    → IsKeyed db.compliance_items
    → find_first (is_item_id id) db.compliance_items ≡ some i
    → IsReminded (start_of_today_ist now) scope db i m
    → let key = reminder_key (start_of_today_ist now) i m.user_id in
      (r : SweepResult) × (db' : Db) × (sweep now time scope db ≡ (ok r, db'))
      × ((is_taken (some key) db.notifications
            || any (is_reminder i.organization_id m.user_id i.id key) db'.notifications)
          ≡ true)
sweep_reminds now time scope db id i m keyed found reminded =
    let today = start_of_today_ist now in
    let (logs, marks) = mark_overdue_lem time today scope db keyed in
    let items = update_where (is_past_due today scope) set_overdue db.compliance_items in
    let start = marked db logs items in
    let (r, ran) = sweep_ran now time scope db start _ marks in
    let j = updated (is_past_due today scope) set_overdue i in
    let (still, key) = IsReminded-updated today scope db logs items i m reminded in
    let there : find_first (is_item_id id) items ≡ some j =
      find_first-update (is_item_id id) (is_past_due today scope) set_overdue db.compliance_items
        (λ x. refl)
      ∙ ap (Option.map (updated (is_past_due today scope) set_overdue)) found in
    let told =
      reminded_among today scope start items id j (has_key (reminder_key today j m.user_id)) there
        (ground (arith, still.scoped, still.is_open, still.near))
        (item_told today scope start j m still) in
    let k = reminder_key today i m.user_id in
    let asked : any (has_key k) (for_items today time scope start) ≡ true =
      subst (λ t. any (has_key t) (for_items today time scope start) ≡ true) key told in
    let own : i.id ≡ id =
      ground (arith, find_first_sound (is_item_id id) db.compliance_items i found) in
    let filings : All
        (λ (x : ComplianceItem). (x.id == i.id) ≡ true → x.organization_id ≡ i.organization_id)
        items =
      All-update _ (is_past_due today scope) set_overdue db.compliance_items (
        All-imp _ _ db.compliance_items (λ x h. marked_filing today scope i x h)
          (same_filing db.compliance_items i.id i keyed (
            subst (λ n. find_first (is_item_id n) db.compliance_items ≡ some i) (sym own)
              found))) in
    let meant =
      reminders-IsMeant today i.organization_id m.user_id i.id (days_between today i.due_date) scope
        start items filings in
    let first = insert_notifications-IsInserted time (for_items today time scope start) start in
    let second =
      insert_notifications-IsInserted time (for_tasks today time scope start)
        (after_items today time scope start) in
    (
      r,
      after_tasks today time scope start,
      ran,
      elim (Bool-cases (is_taken (some k) db.notifications)) [
        | inl taken ↦ rw taken refl
        | inr new ↦
            let inserted =
              reminder_inserted time i.organization_id m.user_id i.id k (keys_of db.notifications)
                (for_items today time scope start) first.new meant asked
                (is_repeated-keys_of (some k) db.notifications ∙ new) first.copies in
            let p = is_reminder i.organization_id m.user_id i.id k in
            let e1 = appended_any p db.notifications _ first.new first.appended in
            let e2 =
              appended_any p (after_items today time scope start).notifications _ second.new
                second.appended in
            ground (arith, inserted, e1, e2)
      ],
    )
