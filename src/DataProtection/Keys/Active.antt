-- ===== src/DataProtection/Keys/Active.antt =====
-- `getActiveKey` of apps/api/src/data-protection/organization-key.service.ts, on a memory and a table
-- of keys that are well formed.
use tax_professional_managem.Common.{
  ℕ, ◌+◌, ◌≡◌, refl, ap, ◌∙◌, true, false, List, [], ◌∷◌, ◌++◌, some, arith, ◌==◌, leb, All,
  All-imp, All-both, All-append, IsDistinct, inl, inr, Option-cases, String,
}
use tax_professional_managem.Common.Table.{
  find_first, find_first_sound, find_first-All, find_first-append, delete_where, All-order,
  order_by,
}
use tax_professional_managem.Db.{Db, DataKey, OrganizationKey, CachedKey, ActiveKey}
use tax_professional_managem.Db.Action.{ok, ◌>>=◌}
use tax_professional_managem.DataProtection.Keys.{
  KeyEnv, derived_key, is_own_key, is_key_of, is_active_of, is_version_of, first_key,
  create_first_key, newest_key, newest_or_first, activate, load_newest, active_from_cache,
  cached_or, get_active_key,
}
use tax_professional_managem.DataProtection.Keys.Laws.{
  IsKept, IsSound, has_key_id, own_key_found, load_key_ok, from_cache_lookup, kept_same,
}

abbrev key_number : DataKey → ℕ
key_number k = k.id

-- A row is the one that its id and organization name.
abbrev IsFound : List DataKey → DataKey → Type 0
IsFound ks k = find_first (is_own_key k.organization_id k.id) ks ≡ some k

All-IsFound : (ks : List DataKey) → IsDistinct key_number ks → All (IsFound ks) ks
All-IsFound [] d = tt
All-IsFound (k ∷ ks) d = (
  ground arith,
  All-imp _ _ ks (λ j e. ground (arith, e.0, e.1)) (All-both _ _ ks d.0 (All-IsFound ks d.1)),
)

-- The keys of an organization that are remembered as active are its own.
abbrev pub IsActive : Db → Type 0
IsActive db =
    All
      (λ (a : ActiveKey).
        (row : DataKey) × (find_first (is_own_key a.organization_id a.key_id) db.data_keys
          ≡ some row))
      db.active_keys

-- A new identifier is not that of a key.
abbrev pub IsFresh : Db → Type 0
IsFresh db = All (λ (k : DataKey). (k.id == db.next_id) ≡ false) db.data_keys

append-IsDistinct :
    (ks : List DataKey) (k : DataKey)
    → IsDistinct key_number ks
    → All (λ (j : DataKey). (j.id == k.id) ≡ false) ks
    → IsDistinct key_number (ks ++ (k ∷ []))
append-IsDistinct [] k d f = (tt, tt)
append-IsDistinct (j ∷ js) k d f =
    (All-append _ js (k ∷ []) d.0 (ground arith, tt), append-IsDistinct js k d.1 f.1)

append-IsFound :
    (ks : List DataKey) (k : DataKey)
    → All (λ (j : DataKey). (j.id == k.id) ≡ false) ks
    → IsFound (ks ++ (k ∷ [])) k
append-IsFound [] k f = ground arith
append-IsFound (j ∷ js) k f = ground (arith, f.0, append-IsFound js k f.1)

append-IsKept :
    (env : KeyEnv) (ks : List DataKey) (k : DataKey) (e : CachedKey)
    → IsKept env ks e
    → IsKept env (ks ++ (k ∷ [])) e
append-IsKept env ks k e h = record {
  row = h.row;
  master = h.master;
  stored = find_first-append (has_key_id e.key.key_id) ks (k ∷ []) h.row h.stored;
  unwrapped = h.unwrapped;
  derived = h.derived;
}

-- The KMS unwraps a wrapped key.
abbrev pub IsOpen : KeyEnv → DataKey → Type 0
IsOpen env k = (master : String) × (env.unwrap k.wrapped_key k.kek_version ≡ some master)

-- The KMS unwraps the keys that it generates.
abbrev pub Unwraps : KeyEnv → Type 0
Unwraps env = (id organization : ℕ) → IsOpen env (first_key env id organization)

-- It unwraps those in the table.
abbrev pub IsReadable : KeyEnv → Db → Type 0
IsReadable env db = All (IsOpen env) db.data_keys

-- A row of the organization's own, in a database whose memory of keys is sound.
pub record IsOwnRow (env : KeyEnv) (organization : ℕ) (db : Db) (row : DataKey) : Type 0 where
  pub own : find_first (is_own_key organization row.id) db.data_keys ≡ some row
  pub sound : IsSound env db
  pub distinct : IsDistinct key_number db.data_keys
  pub readable : IsOpen env row

own_of_found :
    (organization : ℕ) (ks : List DataKey) (row : DataKey)
    → IsFound ks row
    → (row.organization_id == organization) ≡ true
    → find_first (is_own_key organization row.id) ks ≡ some row
own_of_found organization ks row found same =
    let e : organization ≡ row.organization_id = ground arith in
    ap (λ o. find_first (is_own_key o row.id) ks) e ∙ found

first_key_ok :
    (env : KeyEnv) (organization : ℕ) (db : Db)
    → Unwraps env
    → IsReadable env db
    → IsSound env db
    → IsDistinct key_number db.data_keys
    → IsFresh db
    → (row : DataKey) × (db1 : Db) × (create_first_key env organization db ≡ (ok row, db1))
      × IsOwnRow env organization db1 row
unfolding create_first_key
first_key_ok env organization db unwraps readable sound distinct fresh =
    elim (Option-cases (find_first (is_version_of organization 1) db.data_keys)) [
      | inl missing ↦
          let row = first_key env db.next_id organization in
          (
            row,
            record db { next_id = db.next_id + 1; data_keys = db.data_keys ++ (row ∷ []) },
            rw missing refl,
            record {
              own = append-IsFound db.data_keys row fresh;
              sound = All-imp _ _ db.cached_keys (append-IsKept env db.data_keys row) sound;
              distinct = append-IsDistinct db.data_keys row distinct fresh;
              readable = unwraps db.next_id organization;
            },
          )
      | inr (row, found) ↦ (
        row,
        db,
        rw found refl,
        record {
          own =
              own_of_found organization db.data_keys row
                (find_first-All (IsFound db.data_keys) (is_version_of organization 1) db.data_keys
                  row (All-IsFound db.data_keys distinct) found)
                (ground
                  (arith, find_first_sound (is_version_of organization 1) db.data_keys row found));
          sound = sound;
          distinct = distinct;
          readable =
              find_first-All (IsOpen env) (is_version_of organization 1) db.data_keys row readable
                found;
        },
      )
    ]

newest_ok :
    (env : KeyEnv) (organization : ℕ) (db : Db)
    → Unwraps env
    → IsReadable env db
    → IsSound env db
    → IsDistinct key_number db.data_keys
    → IsFresh db
    → (row : DataKey) × (db1 : Db) × (newest_or_first env organization
          (newest_key organization db)
          db
        ≡ (ok row, db1))
      × IsOwnRow env organization db1 row
unfolding newest_or_first ◌>>=◌
newest_ok env organization db unwraps readable sound distinct fresh =
    let sorted = order_by (λ (a b : DataKey). leb b.version a.version) db.data_keys in
    elim (Option-cases (newest_key organization db)) [
      | inl missing ↦
          rw missing (first_key_ok env organization db unwraps readable sound distinct fresh)
      | inr (row, found) ↦ (
        row,
        db,
        rw found refl,
        record {
          own =
              own_of_found organization db.data_keys row
                (find_first-All (IsFound db.data_keys) (is_key_of organization) sorted row
                  (All-order (IsFound db.data_keys) _ db.data_keys
                    (All-IsFound db.data_keys distinct))
                  found)
                (find_first_sound (is_key_of organization) sorted row found);
          sound = sound;
          distinct = distinct;
          readable =
              find_first-All (IsOpen env) (is_key_of organization) sorted row
                (All-order (IsOpen env) _ db.data_keys readable) found;
        },
      )
    ]

-- What `getActiveKey` gives: the key of a row of the organization's own.
pub record IsOwnKey (env : KeyEnv) (organization : ℕ) (db : Db) (key : OrganizationKey)
    : Type 0 where
  pub row : DataKey
  pub master : String
  pub of_row : IsOwnRow env organization db row
  pub unwrapped : env.unwrap row.wrapped_key row.kek_version ≡ some master
  pub derived : key ≡ derived_key env row.id master

load_newest_ok :
    (env : KeyEnv) (now organization : ℕ) (db : Db)
    → Unwraps env
    → IsReadable env db
    → IsSound env db
    → IsDistinct key_number db.data_keys
    → IsFresh db
    → (key : OrganizationKey) × (db' : Db) × (load_newest env now organization db ≡ (ok key, db'))
      × IsOwnKey env organization db' key
unfolding load_newest activate ◌>>=◌
load_newest_ok env now organization db unwraps readable sound distinct fresh =
    let (row, db1, made, own) =
      newest_ok env organization db unwraps readable sound distinct fresh in
    let (master, unwrapped) = own.readable in
    let stored = own_key_found organization row.id db1.data_keys row own.distinct own.own in
    let (es, loaded, kept) = load_key_ok env now row master db1 unwrapped stored own.sound in
    let db' = record db1 {
      cached_keys = es;
      active_keys =
          record { organization_id = organization; key_id = row.id }
          ∷ delete_where (is_active_of organization) db1.active_keys;
    } in
    (
      derived_key env row.id master,
      db',
      rw made (rw loaded refl),
      record {
        row = row;
        master = master;
        of_row = record {
          own = own.own;
          sound = kept;
          distinct = own.distinct;
          readable = own.readable;
        };
        unwrapped = unwrapped;
        derived = refl;
      },
    )

-- `getActiveKey` always gives a key of the organization's own, whatever is remembered, and leaves
-- the memory as true to the table as it was.
pub get_active_key_ok :
    (env : KeyEnv) (now organization : ℕ) (db : Db)
    → Unwraps env
    → IsReadable env db
    → IsSound env db
    → IsActive db
    → IsDistinct key_number db.data_keys
    → IsFresh db
    → (key : OrganizationKey) × (db' : Db) × (get_active_key env now organization db
        ≡ (ok key, db'))
      × IsOwnKey env organization db' key
unfolding get_active_key active_from_cache cached_or ◌>>=◌
get_active_key_ok env now organization db unwraps readable sound active distinct fresh =
    elim (Option-cases (find_first (is_active_of organization) db.active_keys)) [
      | inl missing ↦
          rw missing (load_newest_ok env now organization db unwraps readable sound distinct fresh)
      | inr (a, found) ↦
          let (entries, answer, asked, kept, cases) = from_cache_lookup env now a.key_id db sound in
          elim cases [
            | inl unknown ↦ rw found (
                rw asked (
                  rw unknown (
                    load_newest_ok env now organization (record db { cached_keys = entries })
                      unwraps readable kept distinct fresh)))
            | inr (e, known, same, true_to) ↦
                let (row, stored) =
                  find_first-All _ (is_active_of organization) db.active_keys a active found in
                let of_a = find_first_sound (is_active_of organization) db.active_keys a found in
                let of_row =
                  find_first_sound (is_own_key a.organization_id a.key_id) db.data_keys row
                    stored in
                let named =
                  own_key_found a.organization_id a.key_id db.data_keys row distinct stored in
                let opened =
                  find_first-All (IsOpen env) (is_own_key a.organization_id a.key_id) db.data_keys
                    row readable stored in
                let (master, unwrapped) = opened in
                let row_found =
                  find_first-All (IsFound db.data_keys) (is_own_key a.organization_id a.key_id)
                    db.data_keys row (All-IsFound db.data_keys distinct) stored in
                (
                  e.key,
                  record db { cached_keys = entries },
                  rw found (rw asked (rw known refl)),
                  record {
                    row = row;
                    master = master;
                    of_row = record {
                      own =
                          own_of_found organization db.data_keys row row_found
                            (ground (arith, of_a, of_row));
                      sound = kept;
                      distinct = distinct;
                      readable = opened;
                    };
                    unwrapped = unwrapped;
                    derived =
                        kept_same env db.data_keys e row master true_to
                          (ap (λ i. find_first (has_key_id i) db.data_keys) same ∙ named) unwrapped;
                  },
                )
          ]
    ]
