-- ===== src/Notifications/Sweep/Meant.antt =====
-- Which of the rows that the sweep asks for are meant for which user.
use tax_professional_managem.Common.{
  ℕ, ◌≡◌, refl, ap, ◌∙◌, Bool, true, false, ◌&&◌, List, [], ◌∷◌, ◌++◌, map, Option, none, some,
  arith, All, All-append, All-imp, ==_self, any, any-append, is_none, Bool-cases, inl, inr, ◌==◌,
}
use tax_professional_managem.Common.Int.{ℤ}
use tax_professional_managem.Notifications.Reminders.Keys.{dedupe_key-injective}
use tax_professional_managem.Common.Text.{Text, codes}
use tax_professional_managem.Common.Text.Laws.{text_eq_self, text_eq-eq}
use tax_professional_managem.Common.Table.{find_first}
use tax_professional_managem.Dates.{days_between}
use tax_professional_managem.Db.{Db, ComplianceItem, ComplianceType, Client, Notification}
use tax_professional_managem.Notifications.{NewNotification, is_key}
use tax_professional_managem.Notifications.Laws.{is_repeated, first_of_key, AllCopies}
use tax_professional_managem.Notifications.Overdue.Laws.{IsKeyed}
use tax_professional_managem.Notifications.Reminders.{
  item_reminder, reminders_of_item, reminders_of_items, joined_reminders, item_recipients,
  client_of_item, type_of_item, is_reminded_item, dedupe_key,
}

abbrev pub has_key : Text → NewNotification → Bool
has_key k n = is_key n.dedupe_key k

-- The unread reminder with that key, for that user of that organization, about that filing.
abbrev pub is_reminder : ℕ → ℕ → ℕ → Text → Notification → Bool
is_reminder organization user id k n =
    (n.organization_id == organization)
    && (n.user_id == user)
    && (n.related_entity_id == id)
    && is_key n.dedupe_key k
    && is_none n.read_at

-- A row asked for under that key is meant for that user.
abbrev pub IsMeant : ℕ → ℕ → ℕ → Text → NewNotification → Type 0
IsMeant organization user id k n =
    has_key k n ≡ true
    → (n.organization_id ≡ organization) × (n.user_id ≡ user) × (n.related_entity_id ≡ id)

is_key-text : (k : Text) (key : Option Text) → is_key key k ≡ true → key ≡ some k
is_key-text k none h = cc
is_key-text k (some j) h = ap some (text_eq-eq j k h)

is_repeated_last :
    (k : Text) (keys : List (Option Text)) (key : Option Text)
    → is_repeated (some k) keys ≡ false
    → is_key key k ≡ false
    → is_repeated (some k) (keys ++ (key ∷ [])) ≡ false
is_repeated_last k keys key h miss = ground (arith, any-append (λ j. is_key j k) keys (key ∷ []))

-- If a row is asked for under a new key, then what is inserted has the reminder.
pub reminder_inserted :
    (now organization user id : ℕ) (k : Text) (keys : List (Option Text))
    (ns : List NewNotification) (rows : List Notification)
    → All (IsMeant organization user id k) ns
    → any (has_key k) ns ≡ true
    → is_repeated (some k) keys ≡ false
    → AllCopies now (first_of_key keys ns) rows
    → any (is_reminder organization user id k) rows ≡ true
reminder_inserted now organization user id k keys [] rows meant asked new copies = cc
reminder_inserted now organization user id k keys (n ∷ ns) rows meant asked new copies =
    elim (Bool-cases (has_key k n)) [
      | inl hit ↦
          let first : is_repeated n.dedupe_key keys ≡ false =
            ap (λ key. is_repeated key keys) (is_key-text k n.dedupe_key hit) ∙ new in
          copied rows (rw first at copies) hit
      | inr miss ↦ elim (Bool-cases (is_repeated n.dedupe_key keys)) [
        | inl skipped ↦
            reminder_inserted now organization user id k keys ns rows meant.1 (ground arith) new
              (rw skipped at copies)
        | inr first ↦
            later
              (λ rs c.
                reminder_inserted now organization user id k (keys ++ (n.dedupe_key ∷ [])) ns rs
                  meant.1 (ground (arith, asked, miss))
                  (is_repeated_last k keys n.dedupe_key new miss) c)
              rows (rw first at copies)
      ]
    ]
  where
    copied :
        (rs : List Notification)
        → AllCopies now (n ∷ first_of_key (keys ++ (n.dedupe_key ∷ [])) ns) rs
        → has_key k n ≡ true
        → any (is_reminder organization user id k) rs ≡ true
    copied [] c hit = absurd c
    copied (r ∷ rs) c hit =
        let (o, u, about) = meant.0 hit in
        let keyed : r.dedupe_key ≡ some k = c.0.same_key ∙ is_key-text k n.dedupe_key hit in
        let here : is_reminder organization user id k r ≡ true =
          rw
            (
              c.0.to_organization ∙ o,
              c.0.to_user ∙ u,
              c.0.about_id ∙ about,
              keyed,
              c.0.unread,
              ==_self organization,
              ==_self user,
              ==_self id,
              text_eq_self k,
            )
            refl in
        rw here refl

    later :
        ((rs : List Notification)
          → AllCopies now (first_of_key (keys ++ (n.dedupe_key ∷ [])) ns) rs
          → any (is_reminder organization user id k) rs ≡ true)
        → (rs : List Notification)
        → AllCopies now (n ∷ first_of_key (keys ++ (n.dedupe_key ∷ [])) ns) rs
        → any (is_reminder organization user id k) rs ≡ true
    later hyp [] c = absurd c
    later hyp (r ∷ rs) c = let rest = hyp rs c.1 in ground (arith, rest)

no_colon : All (λ c. (c == 58) ≡ false) (codes "compliance")
no_colon = (refl, (refl, (refl, (refl, (refl, (refl, (refl, (refl, (refl, (refl, tt))))))))))

-- The filings that the run reads.
abbrev pub is_item_id : ℕ → ComplianceItem → Bool
is_item_id id i = i.id == id

-- The keys of the run are told apart by the filing and the user.
item_reminders-IsMeant :
    (today organization user id : ℕ) (due : ℤ) (days : ℤ) (j : ComplianceItem) (client : Client)
    (type : ComplianceType) (users : List ℕ)
    → ((j.id == id) ≡ true → j.organization_id ≡ organization)
    → All
        (IsMeant organization user id (dedupe_key (codes "compliance") id due user))
        (map (item_reminder days j client type) users)
item_reminders-IsMeant today organization user id due days j client type [] same = tt
item_reminders-IsMeant today organization user id due days j client type (u ∷ us) same = (
  λ hit.
      let equal =
        text_eq-eq (dedupe_key (codes "compliance") j.id days u)
          (dedupe_key (codes "compliance") id due user) hit in
      let (ids, users) =
        dedupe_key-injective (codes "compliance") j.id id days due u user no_colon equal in
      (same (rw (ids, ==_self id) refl), users, ids),
  item_reminders-IsMeant today organization user id due days j client type us same,
)

pub reminders-IsMeant :
    (today organization user id : ℕ) (due : ℤ) (scope : Option ℕ) (db : Db)
    (is : List ComplianceItem)
    → All (λ (j : ComplianceItem). (j.id == id) ≡ true → j.organization_id ≡ organization) is
    → All
        (IsMeant organization user id (dedupe_key (codes "compliance") id due user))
        (reminders_of_items today scope db is)
unfolding reminders_of_items reminders_of_item
reminders-IsMeant today organization user id due scope db [] h = tt
reminders-IsMeant today organization user id due scope db (j ∷ js) h =
    let P = IsMeant organization user id (dedupe_key (codes "compliance") id due user) in
    let rest = reminders-IsMeant today organization user id due scope db js h.1 in
    let own = joined (client_of_item db j) (type_of_item db j) in
    elim (Bool-cases (is_reminded_item today scope j)) [
      | inl hit ↦ rw hit (All-append P _ _ own rest)
      | inr miss ↦ rw miss rest
    ]
  where
    joined :
        (client : Option Client) (type : Option ComplianceType)
        → All (IsMeant organization user id (dedupe_key (codes "compliance") id due user)) (
            joined_reminders
              (days_between today j.due_date)
              j
              (item_recipients db j j.assigned_to)
              client
              type)
    joined none type = tt
    joined (some c) none = tt
    joined (some c) (some t) = elim (Bool-cases (is_none c.deleted_at)) [
      | inl live ↦ rw live (
          item_reminders-IsMeant today organization user id due (days_between today j.due_date) j c
            t _ h.0)
      | inr gone ↦ rw gone tt
    ]

-- One filing has an identifier.
pub same_filing :
    (is : List ComplianceItem) (id : ℕ) (i : ComplianceItem)
    → IsKeyed is
    → find_first (is_item_id id) is ≡ some i
    → All (λ (j : ComplianceItem). (j.id == id) ≡ true → j.organization_id ≡ i.organization_id) is
same_filing [] id i h e = tt
same_filing (x ∷ xs) id i h e = elim (Bool-cases (is_item_id id x)) [
  | inl hit ↦
      let same : x ≡ i = ground arith in
      (
        λ k. ap (λ (j : ComplianceItem). j.organization_id) same,
        All-imp _ _ xs (λ j apart k. absurd (ground (arith, apart, k, hit))) h.0,
      )
  | inr miss ↦ (λ k. absurd (ground (arith, k, miss)), same_filing xs id i h.1 (ground arith))
]
