-- ===== src/Credentials/Crypto.antt =====
-- apps/api/src/credentials/credential-crypto.service.ts: a credential is sealed under a data key of
-- its own, which is stored wrapped by the KMS.
use tax_professional_managem.Common.{
  ℕ, ◌+◌, ◌-◌, ◌≡◌, refl, ap, ◌∙◌, sym, ◌++◌, Option, none, some, ltb, if◌then◌else◌, arith, String,
  length, length-append, inl, inr, Option-cases,
}
use tax_professional_managem.Common.Text.{Text}
use tax_professional_managem.Common.Paging.{take}
use tax_professional_managem.Common.Paging.Laws.{drop}
use tax_professional_managem.Db.{EncryptedCredential}
use tax_professional_managem.Auth.{AuthEnv}
use tax_professional_managem.Credentials.{Plaintext, CryptoEnv}
use tax_professional_managem.Credentials.Laws.{IsLossless}
use tax_professional_managem.DataProtection.Cipher.Laws.{take-append, drop-append}

-- What `generateDataKey` returns.
pub record DataKeyPair : Type 0 where
  pub plaintext_key : String
  pub wrapped : String
  pub key_version : ℕ

-- The KMS, AES-256-GCM without additional data, `randomBytes(12)` and JSON; each is `none` where it
-- throws, and takes its randomness.
pub record VaultEnv : Type 0 where
  pub generate_data_key : String → Option DataKeyPair
  pub unwrap_data_key : String → ℕ → Option String
  pub random_bytes : String → Text
  pub seal : String → Text → Text → Text × Text
  pub open_sealed : String → Text → Text → Text → Option Text
  pub stringify : Plaintext → Text
  pub parse : Text → Option Plaintext

abbrev envelope : DataKeyPair → Text → Text × Text → EncryptedCredential
envelope pair nonce sealed = record {
  payload_ciphertext = sealed.0 ++ sealed.1;
  encryption_nonce = nonce;
  wrapped_data_key = pair.wrapped;
  key_version = pair.key_version;
  algorithm = "AES-256-GCM";
}

abbrev encrypt_under :
    VaultEnv → String → Plaintext → Option DataKeyPair → Option EncryptedCredential
encrypt_under env random plaintext none = none
encrypt_under env random plaintext (some pair) =
    let nonce = env.random_bytes random in
    some (envelope pair nonce (env.seal pair.plaintext_key nonce (env.stringify plaintext)))

unfoldable pub encrypt : VaultEnv → String → Plaintext → Option EncryptedCredential
encrypt env random plaintext = encrypt_under env random plaintext (env.generate_data_key random)

-- Where `subarray` splits at `length - 16`: a negative place counts from the end, and is 0 where that
-- is before the start.
abbrev tag_place : ℕ → ℕ
tag_place size = if ltb size 16 then size + size - 16 else size - 16

abbrev parse_opened : VaultEnv → Option Text → Option Plaintext
parse_opened env none = none
parse_opened env (some payload) = env.parse payload

abbrev decrypt_under : VaultEnv → EncryptedCredential → Option String → Option Plaintext
decrypt_under env e none = none
decrypt_under env e (some key) =
    let place = tag_place (length e.payload_ciphertext) in
    parse_opened env (
      env.open_sealed key e.encryption_nonce (take place e.payload_ciphertext)
        (drop place e.payload_ciphertext))

unfoldable pub decrypt : VaultEnv → EncryptedCredential → Option Plaintext
decrypt env e = decrypt_under env e (env.unwrap_data_key e.wrapped_data_key e.key_version)

-- The service as the credentials use it.
abbrev crypto_of : AuthEnv → VaultEnv → CryptoEnv
crypto_of auth env = record { auth = auth; encrypt = encrypt env; decrypt = decrypt env }

-- What the KMS, AES-GCM and JSON promise.
pub record IsReliable (env : VaultEnv) : Type 0 where
  pub unwraps :
      (random : String) (pair : DataKeyPair)
      → env.generate_data_key random ≡ some pair
      → env.unwrap_data_key pair.wrapped pair.key_version ≡ some pair.plaintext_key
  pub tag_length :
      (key : String) (nonce payload : Text) → length (env.seal key nonce payload).1 ≡ 16
  pub opens :
      (key : String) (nonce payload : Text)
      → env.open_sealed key nonce (env.seal key nonce payload).0 (env.seal key nonce payload).1
        ≡ some payload
  pub parses : (plaintext : Plaintext) → env.parse (env.stringify plaintext) ≡ some plaintext

split_parts :
    (body tag : Text)
    → length tag ≡ 16
    → (take (tag_place (length (body ++ tag))) (body ++ tag) ≡ body)
      × (drop (tag_place (length (body ++ tag))) (body ++ tag) ≡ tag)
split_parts body tag short =
    let size : length (body ++ tag) ≡ length body + 16 =
      omega (arith, length-append body tag, short) in
    let place : tag_place (length (body ++ tag)) ≡ length body = ground (arith, size) in
    (
      ap (λ n. take n (body ++ tag)) place ∙ take-append (length body) body tag refl,
      ap (λ n. drop n (body ++ tag)) place ∙ drop-append (length body) body tag refl,
    )

-- Whatever is encrypted for the vault decrypts to the same credential.
crypto_of-IsLossless :
    (auth : AuthEnv) (env : VaultEnv) → IsReliable env → IsLossless (crypto_of auth env)
unfolding encrypt decrypt
crypto_of-IsLossless auth env reliable random p e made =
    elim (Option-cases (env.generate_data_key random)) [
      | inl failed ↦ cc
      | inr (pair, generated) ↦
          let nonce = env.random_bytes random in
          let sealed = env.seal pair.plaintext_key nonce (env.stringify p) in
          let short = reliable.tag_length pair.plaintext_key nonce (env.stringify p) in
          let (body, tag) = split_parts sealed.0 sealed.1 short in
          let same : some (envelope pair nonce sealed) ≡ some e =
            sym (ap (encrypt_under env random p) generated) ∙ made in
          let opened : decrypt env (envelope pair nonce sealed) ≡ some p =
            rw
              (
                reliable.unwraps random pair generated,
                body,
                tag,
                reliable.opens pair.plaintext_key nonce (env.stringify p),
              )
              (reliable.parses p) in
          let e1 : envelope pair nonce sealed ≡ e = cc in sym (ap (decrypt env) e1) ∙ opened
    ]
