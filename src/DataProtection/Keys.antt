-- ===== src/DataProtection/Keys.antt =====
-- apps/api/src/data-protection/organization-key.service.ts: an organization's data key, unwrapped
-- once and remembered for ten minutes. That old key material is overwritten is left out: it has no
-- effect on what is returned.
pub mod Laws
pub mod Active
use tax_professional_managem.Common.{
  ℕ, ◌+◌, Bool, true, false, ◌&&◌, List, [], ◌∷◌, ◌++◌, Option, none, some, leb, ◌==◌,
  if◌then◌else◌, is_some, String,
}
use tax_professional_managem.Common.Text.{Text}
use tax_professional_managem.Common.Table.{find_first, delete_where, order_by}
use tax_professional_managem.Db.{Db, DataKey, OrganizationKey, CachedKey, ActiveKey}
use tax_professional_managem.Db.Action.{
  Action, ok, internal, pure, gets, or_throw, modify, ◌>>=◌, ◌>>◌,
}

-- What the service uses of the KMS and of `node:crypto`. `generate` gives the n-th key that is
-- made, wrapped, with the version of the key that wraps it; `unwrap` is `none` where it throws.
-- `seal` and `open_sealed` are AES-256-GCM with key, nonce and additional data: the bytes and the
-- tag, and `none` where the tag does not fit.
pub record KeyEnv : Type 0 where
  pub generate : ℕ → String × ℕ
  pub unwrap : String → ℕ → Option String
  pub derive : String → String → String
  pub seal : String → Text → Text → Text → Text × Text
  pub open_sealed : String → Text → Text → Text → Text → Option Text
  pub hmac : String → Text → String

-- `CACHE_TTL_MS`
abbrev pub cache_ttl_ms : ℕ
cache_ttl_ms = 600000

abbrev pub is_entry : ℕ → CachedKey → Bool
is_entry id e = e.key.key_id == id

-- `fromCache`, which drops an entry that has expired.
abbrev pub fresh_key : ℕ → Option CachedKey → Option OrganizationKey
fresh_key now none = none
fresh_key now (some e) = if leb e.expires_at now then none else some e.key

abbrev pub kept_entries : ℕ → ℕ → Option CachedKey → List CachedKey → List CachedKey
kept_entries now id none es = es
kept_entries now id (some e) es = if leb e.expires_at now then delete_where (is_entry id) es else es

unfoldable pub from_cache : ℕ → ℕ → Action (Option OrganizationKey)
from_cache now id db =
    let entry = find_first (is_entry id) db.cached_keys in
    (ok (fresh_key now entry), record db { cached_keys = kept_entries now id entry db.cached_keys })

abbrev pub derived_key : KeyEnv → ℕ → String → OrganizationKey
derived_key env id master = record {
  key_id = id;
  encryption_key = env.derive master "client-pii-encryption";
  index_key = env.derive master "client-pii-blind-index";
}

-- `byId.set`, which replaces the entry that is there.
unfoldable pub remember : ℕ → OrganizationKey → Action (Unit {0})
remember now key = modify (λ db. record db {
  cached_keys =
      record { key = key; expires_at = now + cache_ttl_ms }
      ∷ delete_where (is_entry key.key_id) db.cached_keys;
})

unfoldable pub load_key : KeyEnv → ℕ → DataKey → Action OrganizationKey
load_key env now row = do
  master ← or_throw (env.unwrap row.wrapped_key row.kek_version) internal
  remember now (derived_key env row.id master)
  pure (derived_key env row.id master)

abbrev pub is_own_key : ℕ → ℕ → DataKey → Bool
is_own_key organization id k = (k.id == id) && (k.organization_id == organization)

unfoldable pub load_own_key : KeyEnv → ℕ → ℕ → ℕ → Action OrganizationKey
load_own_key env now organization id = do
  found ← gets (λ db. find_first (is_own_key organization id) db.data_keys)
  row ← or_throw found internal
  load_key env now row

unfoldable pub cached_or : Option OrganizationKey → Action OrganizationKey → Action OrganizationKey
cached_or none other = other
cached_or (some key) other = pure key

-- The key that a stored ciphertext names.
unfoldable pub get_key : KeyEnv → ℕ → ℕ → ℕ → Action OrganizationKey
get_key env now organization id = do
  cached ← from_cache now id
  cached_or cached (load_own_key env now organization id)

abbrev pub is_version_of : ℕ → ℕ → DataKey → Bool
is_version_of organization version k = (k.organization_id == organization) && (k.version == version)

abbrev pub first_key : KeyEnv → ℕ → ℕ → DataKey
first_key env id organization =
    let (wrapped, version) = env.generate id in
    record {
      id = id;
      organization_id = organization;
      version = 1;
      wrapped_key = wrapped;
      kek_version = version;
    }

abbrev first_or_new : KeyEnv → ℕ → Option DataKey → Action DataKey
first_or_new env organization (some row) db = (ok row, db)
first_or_new env organization none db = (
  ok (first_key env db.next_id organization),
  record db {
    next_id = db.next_id + 1;
    data_keys = db.data_keys ++ (first_key env db.next_id organization ∷ []);
  },
)

-- `createFirstKey`: the unique index on (organization, version) lets one key win.
unfoldable pub create_first_key : KeyEnv → ℕ → Action DataKey
create_first_key env organization db =
    first_or_new env organization (find_first (is_version_of organization 1) db.data_keys) db

abbrev pub is_key_of : ℕ → DataKey → Bool
is_key_of organization k = k.organization_id == organization

-- `orderBy: { version: "desc" }`
abbrev pub newest_key : ℕ → Db → Option DataKey
newest_key organization db =
    find_first (is_key_of organization) (order_by (λ a b. leb b.version a.version) db.data_keys)

unfoldable pub newest_or_first : KeyEnv → ℕ → Option DataKey → Action DataKey
newest_or_first env organization none = create_first_key env organization
newest_or_first env organization (some row) = pure row

abbrev pub is_active_of : ℕ → ActiveKey → Bool
is_active_of organization a = a.organization_id == organization

-- `activeByOrg.set`
unfoldable pub activate : ℕ → ℕ → Action (Unit {0})
activate organization id = modify (λ db. record db {
  active_keys =
      record { organization_id = organization; key_id = id }
      ∷ delete_where (is_active_of organization) db.active_keys;
})

unfoldable pub load_newest : KeyEnv → ℕ → ℕ → Action OrganizationKey
load_newest env now organization = do
  newest ← gets (newest_key organization)
  row ← newest_or_first env organization newest
  key ← load_key env now row
  activate organization row.id
  pure key

unfoldable pub active_from_cache : ℕ → Option ActiveKey → Action (Option OrganizationKey)
active_from_cache now none = pure none
active_from_cache now (some a) = from_cache now a.key_id

-- The key for what is written now; an organization's first key is made on demand.
unfoldable pub get_active_key : KeyEnv → ℕ → ℕ → Action OrganizationKey
get_active_key env now organization = do
  active ← gets (λ db. find_first (is_active_of organization) db.active_keys)
  cached ← active_from_cache now active
  cached_or cached (load_newest env now organization)
