-- ===== src/Tests/Keys.antt =====
-- A firm with a data key, and a cipher that writes the additional data before the text.
use tax_professional_managem.Common.{
  ◌≡◌, ◌≢◌, refl, true, false, List, [], ◌∷◌, Option, none, some, arith, if◌then◌else◌, Bool-cases,
  inl, inr, ◌==◌, ◌&&◌, ap,
}
use tax_professional_managem.Common.Text.{Text, codes, text_eq}
use tax_professional_managem.Db.{Db, DataKey, CachedKey}
use tax_professional_managem.Db.Action.{ok, err, server_error, client_data_integrity}
use tax_professional_managem.DataProtection.Keys.{KeyEnv, derived_key, get_key}
use tax_professional_managem.DataProtection.Keys.Laws.{IsSound, get_key_refines}
use tax_professional_managem.DataProtection.Cipher.{Sealed, encrypt, decrypt}
use tax_professional_managem.DataProtection.Cipher.Laws.{IsAuthenticated, encrypt_round_trip}
use tax_professional_managem.Tests.{firm}

abbrev tag : Text
tag = 1 ∷ 2 ∷ 3 ∷ 4 ∷ 5 ∷ 6 ∷ 7 ∷ 8 ∷ 9 ∷ 10 ∷ 11 ∷ 12 ∷ 13 ∷ 14 ∷ 15 ∷ 16 ∷ []

-- The additional data, each character after a 1, then a 0 and the text.
pub join : Text → Text → Text
join [] text = 0 ∷ text
join (c ∷ cs) text = 1 ∷ (c ∷ join cs text)

pub split : Text → Text → Option Text
split [] [] = none
split [] (b ∷ text) = if b == 0 then some text else none
split (c ∷ cs) [] = none
split (c ∷ cs) (b ∷ []) = none
split (c ∷ cs) (b ∷ (d ∷ rest)) =
    let later = split cs rest in if (b == 1) && (c == d) then later else none

split-join : (context text : Text) → split context (join context text) ≡ some text
unfolding join split
split-join [] text = refl
split-join (c ∷ cs) text = ground (arith, split-join cs text)

split_other : (context other text : Text) → other ≢ context → split other (join context text) ≡ none
unfolding join split
split_other [] [] text h = absurd (h refl)
split_other [] (o ∷ os) [] h = refl
split_other [] (o ∷ os) (t ∷ ts) h = refl
split_other (c ∷ cs) [] text h = refl
split_other (c ∷ cs) (o ∷ os) text h = elim (Bool-cases (o == c)) [
  | inl same ↦ let e : o ≡ c = ground arith in rw same (split_other cs os text (λ k. h (cc (e, k))))
  | inr apart ↦ rw apart refl
]

abbrev pub key_env : KeyEnv
key_env = record {
  generate = λ n. ("wrapped", 1);
  unwrap = λ wrapped version. if version == 1 then some "master" else none;
  derive = λ master purpose. purpose;
  seal = λ key nonce context text. (join context text, tag);
  open_sealed = λ key nonce context body t. split context body;
  hmac = λ key text. "index";
}

authenticated : IsAuthenticated key_env
authenticated = record {
  tag_length = λ key nonce context payload. refl;
  opens = λ key nonce context payload. split-join context payload;
  binds = λ key nonce context other payload h. split_other context other payload h;
}

abbrev data_key : DataKey
data_key = record {
  id = 18;
  organization_id = 2;
  version = 1;
  wrapped_key = "wrapped";
  kek_version = 1;
}

abbrev vault : Db
vault = record firm { data_keys = data_key ∷ [] }

get_key_refines_example :
    (es : List CachedKey) × (get_key key_env 5 2 18 vault
      ≡ (ok (derived_key key_env 18 "master"), record vault { cached_keys = es }))
    × IsSound key_env (record vault { cached_keys = es })
get_key_refines_example =
    get_key_refines key_env 5 2 18 vault data_key "master" tt (tt, tt) refl refl

-- A firm that has no key yet, beside one that has.
abbrev other_vault : Db
other_vault = record firm { data_keys = record data_key { organization_id = 3 } ∷ [] }

abbrev nonce : Text
nonce = 1 ∷ 2 ∷ 3 ∷ 4 ∷ 5 ∷ 6 ∷ 7 ∷ 8 ∷ 9 ∷ 10 ∷ 11 ∷ 12 ∷ []

other_context : codes "client:2:10" ≢ codes "client:2:9"
unfolding text_eq
other_context = λ e. let h : false ≡ true = ap (text_eq (codes "client:2:9")) e in cc

encrypt_round_trip_example :
    (s : Sealed) × (db' : Db) × (es : List CachedKey) × (encrypt key_env nonce 5 2
        (codes "client:2:9")
        (codes "PAN")
        other_vault
      ≡ (ok s, db'))
    × (decrypt key_env (server_error client_data_integrity) some 900000 2 (codes "client:2:9") s db'
        ≡ (ok (codes "PAN"), record db' { cached_keys = es }))
    × (decrypt key_env
          (server_error client_data_integrity)
          some
          900000
          2
          (codes "client:2:10")
          s
          db'
        ≡ (err (server_error client_data_integrity), record db' { cached_keys = es }))
encrypt_round_trip_example =
    encrypt_round_trip key_env (server_error client_data_integrity) some nonce 5 900000 2
      (codes "client:2:9") (codes "client:2:10") (codes "PAN") other_vault (codes "PAN")
      authenticated (λ id organization. ("master", refl)) (("master", refl), tt) refl refl tt tt
      (tt, tt) (refl, tt) other_context
