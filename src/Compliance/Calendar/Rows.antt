-- ===== src/Compliance/Calendar/Rows.antt =====
-- What `createMany` inserts: how many rows, which ones, and none a second time.
use tax_professional_managem.Common.{
  ℕ, ◌≤◌, ◌≡◌, refl, sym, ap, true, false, List, [], ◌∷◌, ◌++◌, ◌∙◌, append_assoc, append-nil,
  arith, ==_self, any, length, All, any-append, inl, inr, Bool-cases,
}
use tax_professional_managem.Common.Table.{any-append_last}
use tax_professional_managem.Common.Text.Laws.{text_eq_self}
use tax_professional_managem.Db.{Db, ComplianceItem}
use tax_professional_managem.Compliance.Calendar.{
  NewItem, has_key, to_item, insert_row, insert_rows,
}
use tax_professional_managem.Compliance.Calendar.Laws.{IsHeld}

pub insert_rows_count : (rs : List NewItem) (db : Db) → (insert_rows rs db).0 ≤ length rs
unfolding insert_rows
insert_rows_count [] db = omega arith
insert_rows_count (r ∷ rs) db = ground (arith, insert_rows_count rs (insert_row r db))

to_item-has_key : (id : ℕ) (r : NewItem) → has_key r (to_item id r) ≡ true
to_item-has_key id r = rw (
  ==_self r.organization_id,
  ==_self r.client_id,
  ==_self r.compliance_type_id,
  text_eq_self r.financial_year,
  text_eq_self r.period,
)

insert_row-IsHeld : (r : NewItem) (db : Db) → IsHeld (insert_row r db).compliance_items r
unfolding insert_row
insert_row-IsHeld r db = ground (
  arith,
  any-append_last (has_key r) db.compliance_items (to_item db.next_id r)
      (to_item-has_key db.next_id r),
)

insert_row-keeps :
    (r q : NewItem) (db : Db)
    → IsHeld db.compliance_items q
    → IsHeld (insert_row r db).compliance_items q
unfolding insert_row
insert_row-keeps r q db h =
    ground (arith, any-append (has_key q) db.compliance_items (to_item db.next_id r ∷ []))

insert_rows-keeps :
    (rs : List NewItem) (q : NewItem) (db : Db)
    → IsHeld db.compliance_items q
    → IsHeld (insert_rows rs db).1.compliance_items q
unfolding insert_rows
insert_rows-keeps [] q db h = h
insert_rows-keeps (r ∷ rs) q db h =
    insert_rows-keeps rs q (insert_row r db) (insert_row-keeps r q db h)

-- What has been inserted is there, whether it is new or was there before.
pub insert_rows-IsHeld :
    (rs : List NewItem) (db : Db) → All (IsHeld (insert_rows rs db).1.compliance_items) rs
unfolding insert_rows
insert_rows-IsHeld [] db = tt
insert_rows-IsHeld (r ∷ rs) db = (
  insert_rows-keeps rs r (insert_row r db) (insert_row-IsHeld r db),
  insert_rows-IsHeld rs (insert_row r db),
)

insert_row_held : (r : NewItem) (db : Db) → IsHeld db.compliance_items r → insert_row r db ≡ db
unfolding insert_row
insert_row_held r db h = rw h refl

insert_row_new :
    (r : NewItem) (db : Db)
    → any (has_key r) db.compliance_items ≡ false
    → (insert_row r db).compliance_items ≡ db.compliance_items ++ (to_item db.next_id r ∷ [])
unfolding insert_row
insert_row_new r db h = rw h refl

-- Rows that are all there are not inserted again.
pub insert_rows_held :
    (rs : List NewItem) (db : Db)
    → All (IsHeld db.compliance_items) rs
    → insert_rows rs db ≡ (0, db)
unfolding insert_rows insert_row
insert_rows_held [] db h = refl
insert_rows_held (r ∷ rs) db h = rw (h.0, insert_rows_held rs db h.1)

-- The rows that an insertion appends.
pub record IsAppended {κ} (Q : ComplianceItem → Type κ) (count : ℕ) (db db' : Db) : Type κ where
  pub new : List ComplianceItem
  pub appended : db'.compliance_items ≡ db.compliance_items ++ new
  pub counted : length new ≡ count
  pub each : All Q new

pub insert_rows-IsAppended {κ} :
    (P : NewItem → Type κ) (Q : ComplianceItem → Type κ)
    → ((id : ℕ) (r : NewItem) → P r → Q (to_item id r))
    → (rs : List NewItem) (db : Db) → All P rs
    → IsAppended Q (insert_rows rs db).0 db (insert_rows rs db).1
unfolding insert_rows
insert_rows-IsAppended P Q f [] db h = record {
  new = [];
  appended = sym (append-nil db.compliance_items);
  counted = refl;
  each = tt;
}
insert_rows-IsAppended P Q f (r ∷ rs) db h =
    let later = insert_rows-IsAppended P Q f rs (insert_row r db) h.1 in
    elim (Bool-cases (any (has_key r) db.compliance_items)) [
      | inl there ↦
          let same : insert_row r db ≡ db = insert_row_held r db there in
          record {
            new = later.new;
            appended = later.appended ∙ ap (λ (d : Db). d.compliance_items ++ later.new) same;
            counted = rw there later.counted;
            each = later.each;
          }
      | inr missing ↦ record {
        new = to_item db.next_id r ∷ later.new;
        appended =
            later.appended
            ∙ ap (λ xs. xs ++ later.new) (insert_row_new r db missing)
            ∙ append_assoc db.compliance_items (to_item db.next_id r ∷ []) later.new;
        counted = rw missing (omega (arith, later.counted));
        each = (f db.next_id r h.0, later.each);
      }
    ]
