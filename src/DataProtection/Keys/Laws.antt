-- ===== src/DataProtection/Keys/Laws.antt =====
-- What the memory of data keys may answer: nothing but what the database would.
use tax_professional_managem.Common.{
  ℕ, ◌+◌, ◌≡◌, refl, ap, ◌∙◌, Bool, false, List, [], ◌∷◌, Option, none, some, arith, leb, ◌==◌, All,
  IsDistinct, inl, inr, Bool-cases, Option-cases, String, ◌⊎◌,
}
use tax_professional_managem.Common.Table.{
  find_first, find_first_sound, find_first-All, delete_where, All-delete,
}
use tax_professional_managem.Db.{Db, DataKey, OrganizationKey, CachedKey}
use tax_professional_managem.Db.Action.{ok, ◌>>=◌}
use tax_professional_managem.DataProtection.Keys.{
  KeyEnv, is_entry, from_cache, derived_key, remember, load_key, is_own_key, load_own_key,
  cached_or, get_key, cache_ttl_ms,
}

abbrev pub has_key_id : ℕ → DataKey → Bool
has_key_id id k = k.id == id

-- What is remembered of a key is what unwrapping its row gives.
pub record IsKept (env : KeyEnv) (keys : List DataKey) (e : CachedKey) : Type 0 where
  pub row : DataKey
  pub master : String
  pub stored : find_first (has_key_id e.key.key_id) keys ≡ some row
  pub unwrapped : env.unwrap row.wrapped_key row.kek_version ≡ some master
  pub derived : e.key ≡ derived_key env row.id master

abbrev pub IsSound : KeyEnv → Db → Type 0
IsSound env db = All (IsKept env db.data_keys) db.cached_keys

pub own_key_found :
    (organization id : ℕ) (ks : List DataKey) (row : DataKey)
    → IsDistinct (λ (k : DataKey). k.id) ks
    → find_first (is_own_key organization id) ks ≡ some row
    → find_first (has_key_id id) ks ≡ some row
own_key_found organization id [] row d e = e
own_key_found organization id (k ∷ ks) row d e = elim (Bool-cases (is_own_key organization id k)) [
  | inl own ↦ ground arith
  | inr other ↦
      let later : find_first (is_own_key organization id) ks ≡ some row = ground arith in
      let same = find_first_sound (is_own_key organization id) ks row later in
      let apart = find_first-All _ (is_own_key organization id) ks row d.0 later in
      let rest = own_key_found organization id ks row d.1 later in ground arith
]

-- Loading the key of a row, and remembering it.
pub load_key_ok :
    (env : KeyEnv) (now : ℕ) (row : DataKey) (master : String) (db : Db)
    → env.unwrap row.wrapped_key row.kek_version ≡ some master
    → find_first (has_key_id row.id) db.data_keys ≡ some row
    → IsSound env db
    → (es : List CachedKey) × (load_key env now row db
        ≡ (ok (derived_key env row.id master), record db { cached_keys = es }))
      × All (IsKept env db.data_keys) es
unfolding load_key remember ◌>>=◌
load_key_ok env now row master db unwrapped stored sound = (
  record { key = derived_key env row.id master; expires_at = now + cache_ttl_ms }
      ∷ delete_where (is_entry row.id) db.cached_keys,
  rw unwrapped refl,
  (
    record { row = row; master = master; stored = stored; unwrapped = unwrapped; derived = refl },
    All-delete (IsKept env db.data_keys) (is_entry row.id) db.cached_keys sound,
  ),
)

-- What the memory says of an id: nothing, or a key that is true to the table.
pub from_cache_lookup :
    (env : KeyEnv) (now id : ℕ) (db : Db)
    → IsSound env db
    → (entries : List CachedKey) × (answer : Option OrganizationKey) × (from_cache now id db
        ≡ (ok answer, record db { cached_keys = entries }))
      × All (IsKept env db.data_keys) entries
      × ((answer ≡ none)
          ⊎ ((e : CachedKey) × (answer ≡ some e.key)
              × (e.key.key_id ≡ id)
              × IsKept env db.data_keys e))
unfolding from_cache
from_cache_lookup env now id db sound =
    elim (Option-cases (find_first (is_entry id) db.cached_keys)) [
      | inl missing ↦ (db.cached_keys, none, rw missing refl, sound, inl refl)
      | inr (e, found) ↦ elim (Bool-cases (leb e.expires_at now)) [
        | inl expired ↦ (
          delete_where (is_entry id) db.cached_keys,
          none,
          rw (found, expired) refl,
          All-delete (IsKept env db.data_keys) (is_entry id) db.cached_keys sound,
          inl refl,
        )
        | inr fresh ↦ (
          db.cached_keys,
          some e.key,
          rw (found, fresh) refl,
          sound,
          inr (
            e,
            refl,
            ground (arith, find_first_sound (is_entry id) db.cached_keys e found),
            find_first-All (IsKept env db.data_keys) (is_entry id) db.cached_keys e sound found,
          ),
        )
      ]
    ]

pub kept_same :
    (env : KeyEnv) (keys : List DataKey) (e : CachedKey) (row : DataKey) (master : String)
    → IsKept env keys e
    → find_first (has_key_id e.key.key_id) keys ≡ some row
    → env.unwrap row.wrapped_key row.kek_version ≡ some master
    → e.key ≡ derived_key env row.id master
kept_same env keys e row master k stored unwrapped =
    let same : k.row ≡ row = cc (k.stored, stored) in
    let masters : k.master ≡ master = cc (k.unwrapped, unwrapped, same) in
    cc (k.derived, same, masters)

-- The memory of keys refines the table: for a key of the organization, `getKey` answers what
-- unwrapping the stored row gives, whatever is remembered, whether or not it has expired; it
-- changes no table, and what it remembers afterwards is as true to the table as before. (The keys'
-- identifiers are distinct, and the row can be unwrapped.)
pub get_key_refines :
    (env : KeyEnv) (now organization id : ℕ) (db : Db) (row : DataKey) (master : String)
    → IsSound env db
    → IsDistinct (λ (k : DataKey). k.id) db.data_keys
    → find_first (is_own_key organization id) db.data_keys ≡ some row
    → env.unwrap row.wrapped_key row.kek_version ≡ some master
    → (es : List CachedKey) × (get_key env now organization id db
        ≡ (ok (derived_key env row.id master), record db { cached_keys = es }))
      × IsSound env (record db { cached_keys = es })
unfolding get_key load_own_key cached_or ◌>>=◌
get_key_refines env now organization id db row master sound distinct own unwrapped =
    let stored = own_key_found organization id db.data_keys row distinct own in
    let named : row.id ≡ id =
      ground (arith, find_first_sound (has_key_id id) db.data_keys row stored) in
    let (entries, answer, asked, kept, cases) = from_cache_lookup env now id db sound in
    elim cases [
      | inl unknown ↦
          let (es, loaded, still) =
            load_key_ok env now row master (record db { cached_keys = entries }) unwrapped
              (ap (λ i. find_first (has_key_id i) db.data_keys) named ∙ stored) kept in
          (es, rw (asked, unknown, own) loaded, still)
      | inr (e, known, same, true_to) ↦ (
        entries,
        rw (asked, known)
            (ap (λ k. (ok k, record db { cached_keys = entries }))
              (kept_same env db.data_keys e row master true_to (rw same stored) unwrapped)),
        kept,
      )
    ]

-- `getKey` does not look at the organization before it answers from memory: a key that is
-- remembered and has not expired is given to any organization that names it.
pub get_key_any_organization :
    (env : KeyEnv) (now organization id : ℕ) (db : Db) (e : CachedKey)
    → find_first (is_entry id) db.cached_keys ≡ some e
    → leb e.expires_at now ≡ false
    → get_key env now organization id db ≡ (ok e.key, db)
unfolding get_key from_cache cached_or ◌>>=◌
get_key_any_organization env now organization id db e found fresh = rw (found, fresh) refl
