-- ===== src/DataProtection/Cipher.antt =====
-- apps/api/src/data-protection/pii-cipher.service.ts: personal data encrypted under the key of its
-- organization and bound to its row, and the keyed index by which an identifier is searched.
pub mod Laws
use tax_professional_managem.Common.{
  ℕ, ◌+◌, ◌-◌, Bool, true, false, not, ◌||◌, List, [], ◌∷◌, ◌++◌, Option, none, some, ltb, leb,
  ◌==◌, ◌&&◌, if◌then◌else◌, length, or_else, keep, map, String,
}
use tax_professional_managem.Common.Text.{Text, codes}
use tax_professional_managem.Common.Paging.{take}
use tax_professional_managem.Common.Paging.Laws.{drop}
use tax_professional_managem.Db.{OrganizationKey}
use tax_professional_managem.Db.Action.{
  Action, AppError, pure, throw_if, or_throw, rethrow, ◌>>=◌, ◌>>◌,
}
use tax_professional_managem.DataProtection.Keys.{KeyEnv, get_key, get_active_key}

abbrev pub nonce_length : ℕ
nonce_length = 12

abbrev pub auth_tag_length : ℕ
auth_tag_length = 16

pub record Sealed : Type 0 where
  pub ciphertext : Text
  pub key_id : ℕ

-- The layout: version, nonce, bytes, tag.
abbrev pub layout : Text → Text × Text → Text
layout nonce (body, tag) = 1 ∷ (nonce ++ (body ++ tag))

unfoldable pub encrypt : KeyEnv → Text → ℕ → ℕ → Text → Text → Action Sealed
encrypt env nonce now organization context payload = do
  key ← get_active_key env now organization
  pure (record {
    ciphertext = layout nonce (env.seal key.encryption_key nonce context payload);
    key_id = key.key_id;
  })

abbrev pub is_version_one : Text → Bool
is_version_one [] = false
is_version_one (v ∷ rest) = v == 1

abbrev pub is_malformed : Text → Bool
is_malformed bytes =
    ltb (length bytes) (1 + nonce_length + auth_tag_length) || not (is_version_one bytes)

-- The three parts of a ciphertext, by their places.
abbrev pub nonce_of : Text → Text
nonce_of bytes = take nonce_length (drop 1 bytes)

abbrev pub tag_of : Text → Text
tag_of bytes = drop (length bytes - auth_tag_length) bytes

abbrev pub body_of : Text → Text
body_of bytes =
    take (length bytes - auth_tag_length - (1 + nonce_length)) (drop (1 + nonce_length) bytes)

-- `PiiIntegrityError` is the error `e`; `parse` is `JSON.parse`, `none` where it throws.
unfoldable pub decrypt :
    {P : Type 0} → KeyEnv → AppError → (Text → Option P) → ℕ → ℕ → Text → Sealed → Action P
decrypt env e parse now organization context s = do
  throw_if (is_malformed s.ciphertext) e
  rethrow e (do
    key ← get_key env now organization s.key_id
    plaintext ←
        or_throw
          (env.open_sealed key.encryption_key (nonce_of s.ciphertext) context (body_of s.ciphertext)
            (tag_of s.ciphertext))
          e
    or_throw (parse plaintext) e)

-- `/\s/` on ASCII, and `toUpperCase` on ASCII.
abbrev pub is_space : ℕ → Bool
is_space c = (leb 9 c && leb c 13) || (c == 32)

abbrev pub upper : ℕ → ℕ
upper c = if leb b'a' c && leb c b'z' then c - 32 else c

abbrev pub non_empty : Text → Option Text
non_empty [] = none
non_empty (c ∷ cs) = some (c ∷ cs)

unfoldable pub normalize_identifier : Option Text → Option Text
normalize_identifier value = non_empty (map upper (keep (λ c. not (is_space c)) (or_else value [])))

unfoldable pub index_of : KeyEnv → ℕ → ℕ → Text → Option Text → Action (Option String)
index_of env now organization field none = pure none
index_of env now organization field (some normalized) = do
  key ← get_active_key env now organization
  pure (some (env.hmac key.index_key (field ++ (codes ":" ++ normalized))))

-- `blindIndex`
unfoldable pub blind_index : KeyEnv → ℕ → ℕ → Text → Option Text → Action (Option String)
blind_index env now organization field value =
    index_of env now organization field (normalize_identifier value)
