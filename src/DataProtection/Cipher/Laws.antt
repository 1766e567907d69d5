-- ===== src/DataProtection/Cipher/Laws.antt =====
-- `encryptJson` and `decryptJson` of apps/api/src/data-protection, one after the other.
use tax_professional_managem.Common.{
  ℕ, ◌+◌, ◌-◌, ◌≡◌, ◌≢◌, refl, sym, ap, ◌∙◌, false, List, [], ◌∷◌, ◌++◌, Option, none, some, arith,
  String, length, length-append, IsDistinct, append_assoc, suc, zero, inl, inr, Option-cases,
}
use tax_professional_managem.Common.Text.{Text}
use tax_professional_managem.Common.Table.{find_first}
use tax_professional_managem.Common.Paging.{take}
use tax_professional_managem.Common.Paging.Laws.{drop}
use tax_professional_managem.Db.{Db, DataKey, OrganizationKey, CachedKey}
use tax_professional_managem.Db.Action.{AppError, Result, ok, err, or_throw, ◌>>=◌}
use tax_professional_managem.DataProtection.Keys.{
  KeyEnv, derived_key, is_own_key, get_key, get_active_key,
}
use tax_professional_managem.DataProtection.Keys.Active.{
  Unwraps, IsReadable, IsActive, IsFresh, get_active_key_ok,
}
use tax_professional_managem.DataProtection.Keys.Laws.{IsSound, get_key_refines}
use tax_professional_managem.DataProtection.Cipher.{
  Sealed, layout, encrypt, decrypt, is_malformed, nonce_of, body_of, tag_of,
}

-- What AES-256-GCM promises: a tag has 16 bytes, what was sealed opens, and it does not open with
-- other additional data.
pub record IsAuthenticated (env : KeyEnv) : Type 0 where
  pub tag_length :
      (key : String) (nonce context payload : Text)
      → length (env.seal key nonce context payload).1 ≡ 16
  pub opens :
      (key : String) (nonce context payload : Text)
      → env.open_sealed key nonce context
          (env.seal key nonce context payload).0
          (env.seal key nonce context payload).1
        ≡ some payload
  pub binds :
      (key : String) (nonce context other payload : Text)
      → other ≢ context
      → env.open_sealed key nonce other
          (env.seal key nonce context payload).0
          (env.seal key nonce context payload).1
        ≡ none

pub take-append : (n : ℕ) (xs ys : Text) → length xs ≡ n → take n (xs ++ ys) ≡ xs
take-append zero [] ys h = refl
take-append zero (x ∷ xs) ys h = absurd (omega arith)
take-append (suc n) [] ys h = absurd (omega arith)
take-append (suc n) (x ∷ xs) ys h = ap (λ zs. x ∷ zs) (take-append n xs ys (omega arith))

pub drop-append : (n : ℕ) (xs ys : Text) → length xs ≡ n → drop n (xs ++ ys) ≡ ys
drop-append zero [] ys h = refl
drop-append zero (x ∷ xs) ys h = absurd (omega arith)
drop-append (suc n) [] ys h = absurd (omega arith)
drop-append (suc n) (x ∷ xs) ys h = drop-append n xs ys (omega arith)

-- The parts of a ciphertext are found again.
module _ (nonce body tag : Text) (long : length nonce ≡ 12) (short : length tag ≡ 16) where
  abbrev whole : Text
  whole = layout nonce (body, tag)

  length-whole : length whole ≡ 29 + length body
  length-whole =
      omega (arith, length-append nonce (body ++ tag), length-append body tag, long, short)

  nonce_found : nonce_of whole ≡ nonce
  nonce_found = take-append 12 nonce (body ++ tag) long

  body_found : body_of whole ≡ body
  body_found =
      let size : length whole - 16 - 13 ≡ length body = omega (arith, length-whole) in
      let rest : drop 13 whole ≡ body ++ tag = drop-append 12 nonce (body ++ tag) long in
      rw (size, rest) (take-append (length body) body tag refl)

  tag_found : tag_of whole ≡ tag
  tag_found =
      let size : length whole - 16 ≡ length (1 ∷ (nonce ++ body)) =
        omega (arith, length-whole, length-append nonce body, long) in
      rw size (
        ap (λ ys. drop (length (1 ∷ (nonce ++ body))) (1 ∷ ys)) (sym (append_assoc nonce body tag))
        ∙ drop-append (length (1 ∷ (nonce ++ body))) (1 ∷ (nonce ++ body)) tag refl)

  well_formed : is_malformed whole ≡ false
  well_formed = let size = length-whole in ground arith

parsed : {P : Type 0} → AppError → (Text → Option P) → Db → Option Text → Result P × Db
parsed e parse db none = (err e, db)
parsed e parse db (some plaintext) = or_throw (parse plaintext) e db

-- Decrypting comes down to opening the three parts.
decrypt_parts :
    {P : Type 0} (env : KeyEnv) (e : AppError) (parse : Text → Option P) (now organization : ℕ)
    (context : Text) (s : Sealed) (db : Db) (key : OrganizationKey) (es : List CachedKey)
    (opened : Option Text)
    → is_malformed s.ciphertext ≡ false
    → get_key env now organization s.key_id db ≡ (ok key, record db { cached_keys = es })
    → env.open_sealed key.encryption_key
        (nonce_of s.ciphertext)
        context
        (body_of s.ciphertext)
        (tag_of s.ciphertext)
      ≡ opened
    → decrypt env e parse now organization context s db
      ≡ parsed e parse (record db { cached_keys = es }) opened
unfolding decrypt parsed ◌>>=◌
decrypt_parts env e parse now organization context s db key es none formed got opens =
    rw (formed, got, opens) refl
decrypt_parts env e parse now organization context s db key es (some plaintext) formed got opens =
    elim (Option-cases (parse plaintext)) [
      | inl bad ↦ rw (formed, got, opens, bad) refl
      | inr (p, good) ↦ rw (formed, got, opens, good) refl
    ]

-- Encrypting and decrypting under the active key of an organization, which is that of a row.
module _ {P : Type 0} (env : KeyEnv) (e : AppError) (parse : Text → Option P) (nonce : Text)
    (now later organization : ℕ) (context payload : Text) (db db' : Db) (row : DataKey)
    (master : String) (p : P) where
  -- What is sealed opens again, and only in its context.
  sealed_round_trip :
      (other : Text)
      → IsAuthenticated env
      → length nonce ≡ 12
      → parse payload ≡ some p
      → get_active_key env now organization db ≡ (ok (derived_key env row.id master), db')
      → IsSound env db'
      → IsDistinct (λ (k : DataKey). k.id) db'.data_keys
      → find_first (is_own_key organization row.id) db'.data_keys ≡ some row
      → env.unwrap row.wrapped_key row.kek_version ≡ some master
      → other ≢ context
      → (s : Sealed) × (es : List CachedKey) × (encrypt env nonce now organization context payload
            db
          ≡ (ok s, db'))
        × (decrypt env e parse later organization context s db'
            ≡ (ok p, record db' { cached_keys = es }))
        × (decrypt env e parse later organization other s db'
            ≡ (err e, record db' { cached_keys = es }))
  unfolding encrypt decrypt parsed ◌>>=◌
  sealed_round_trip other aead long parses active sound distinct own unwrapped foreign =
      let key = derived_key env row.id master in
      let sealed = env.seal key.encryption_key nonce context payload in
      let short = aead.tag_length key.encryption_key nonce context payload in
      let s : Sealed = record { ciphertext = layout nonce sealed; key_id = row.id } in
      let (es, got, still) =
        get_key_refines env later organization row.id db' row master sound distinct own unwrapped in
      let formed = well_formed nonce sealed.0 sealed.1 long short in
      let n = nonce_found nonce sealed.0 sealed.1 long short in
      let b = body_found nonce sealed.0 sealed.1 long short in
      let t = tag_found nonce sealed.0 sealed.1 long short in
      (
        s,
        es,
        rw active refl,
        decrypt_parts env e parse later organization context s db' key es (some payload) formed got
              (rw (n, b, t) (aead.opens key.encryption_key nonce context payload))
            ∙ rw parses refl,
        decrypt_parts env e parse later organization other s db' key es none formed got
            (rw (n, b, t) (aead.binds key.encryption_key nonce context other payload foreign)),
      )

-- Personal data round-trips: for any organization, also one that has no key yet, `encrypt` succeeds,
-- and what it returns decrypts to what was encrypted, at any later time; and with the context of any
-- other row, or of a row of another firm, the same ciphertext is refused. (The cipher keeps its
-- promises, the KMS unwraps the keys that it generates and those in the table, the nonce has 12
-- bytes, the remembered keys are true to the table, and the keys' identifiers are distinct, a new
-- one's too.)
pub encrypt_round_trip :
    {P : Type 0} (env : KeyEnv) (e : AppError) (parse : Text → Option P) (nonce : Text)
    (now later organization : ℕ) (context other payload : Text) (db : Db) (p : P)
    → IsAuthenticated env
    → Unwraps env
    → IsReadable env db
    → length nonce ≡ 12
    → parse payload ≡ some p
    → IsSound env db
    → IsActive db
    → IsDistinct (λ (k : DataKey). k.id) db.data_keys
    → IsFresh db
    → other ≢ context
    → (s : Sealed) × (db' : Db) × (es : List CachedKey) × (encrypt env nonce now organization
          context payload db
        ≡ (ok s, db'))
      × (decrypt env e parse later organization context s db'
          ≡ (ok p, record db' { cached_keys = es }))
      × (decrypt env e parse later organization other s db'
          ≡ (err e, record db' { cached_keys = es }))
encrypt_round_trip env e parse nonce now later organization context other payload db p aead unwraps
      readable long parses sound active distinct fresh foreign =
    let (key, db', given, own) =
      get_active_key_ok env now organization db unwraps readable sound active distinct fresh in
    let row = own.of_row in
    let asked = given ∙ ap (λ k. (ok k, db')) own.derived in
    let (s, es, sealed, opened, refused) =
      sealed_round_trip env e parse nonce now later organization context payload db db' own.row
        own.master p other aead long parses asked row.sound row.distinct row.own own.unwrapped
        foreign in
    (s, db', es, sealed, opened, refused)
