-- ===== src/DueRules/Suggestions.antt =====
-- `suggestedTypeCodes` of apps/api/src/compliance/due-rules.ts.
use tax_professional_managem.Common.{
  arith, ◌≡◌, refl, Bool, true, false, not, ◌&&◌, ◌||◌, List, [], ◌∷◌, Option, none, some,
  if◌then◌else◌, String, str_eq, All, All-of_all, all, any, and-true→both, is_some,
}
use mathlib.Core.Bool.{beq}
use tax_professional_managem.Types.{EntityType, llp, private_limited, public_limited}
use tax_professional_managem.DueRules.{CatalogEntry}
use tax_professional_managem.DueRules.Catalog.{compliance_catalog}

-- A JavaScript `Map`, in the order in which its keys were first set.
abbrev pub Suggestions : Type 0
Suggestions = List (String × String)

abbrev pub set_entry : String → String → Suggestions → Suggestions
set_entry k v [] = (k, v) ∷ []
set_entry k v ((j, w) ∷ m) = if str_eq j k then (k, v) ∷ m else (j, w) ∷ set_entry k v m

-- `suggestions.get(code) ?? null`
abbrev pub get_entry : String → Suggestions → Option String
get_entry k [] = none
get_entry k ((j, w) ∷ m) = if str_eq j k then some w else get_entry k m

-- The loop that sets one reason for several codes.
abbrev pub set_all : List String → String → Suggestions → Suggestions
set_all [] v m = m
set_all (k ∷ ks) v m = set_all ks v (set_entry k v m)

-- A string that is neither null nor empty.
abbrev pub is_present : Option String → Bool
is_present none = false
is_present (some s) = not (str_eq s "")

-- `COMPANIES`
abbrev pub is_company : EntityType → Bool
is_company private_limited = true
is_company public_limited = true
is_company _ = false

abbrev pub is_llp : EntityType → Bool
is_llp llp = true
is_llp _ = false

-- The tests of the function, and what each of them adds, in order.
unfoldable pub suggest : Bool → Bool → Bool → Bool → Suggestions
suggest company partnership gstin tan =
    let income_tax =
      if company
      then set_entry "ITR_AUDIT" "Companies file by 31 October (accounts are always audited)" []
      else set_entry "ITR" "Every assessee files an income tax return" [] in
    let advance =
      set_entry "ADVANCE_TAX" "Applies when estimated tax liability is ₹10,000 or more"
        income_tax in
    let with_gst =
      if gstin
      then set_all ("GSTR1" ∷ "GSTR3B" ∷ "GSTR9" ∷ []) "Client has a GSTIN on file" advance
      else advance in
    let with_tds =
      if tan
      then set_all ("TDS_PAYMENT" ∷ "TDS_24Q" ∷ "TDS_26Q" ∷ "FORM16" ∷ "FORM16A" ∷ [])
          "Client has a TAN on file" with_gst
      else with_gst in
    let with_company =
      if company
      then set_entry "DIR3_KYC" "Every director with a DIN" (
          set_entry "DPT3" "Every company files DPT-3 for outstanding loans/deposits"
            (set_all ("AGM" ∷ "AOC4" ∷ "MGT7" ∷ []) "Annual filings every company makes" with_tds))
      else with_tds in
    if partnership
    then set_entry "DIR3_KYC" "Every designated partner with a DIN"
        (set_all ("LLP_FORM11" ∷ "LLP_FORM8" ∷ []) "Annual filings every LLP makes" with_company)
    else with_company

unfoldable pub suggested_type_codes : EntityType → Option String → Option String → Suggestions
unfolding suggest
suggested_type_codes entity gstin tan =
    suggest (is_company entity) (is_llp entity) (is_present gstin) (is_present tan)

abbrev pub is_one_of : String → List String → Bool
is_one_of s [] = false
is_one_of s (t ∷ ts) = str_eq s t || is_one_of s ts

-- Which clients a catalog code is meant for: companies, LLPs, those with a GSTIN or a TAN on file.
abbrev pub applies : String → Bool → Bool → Bool → Bool → Bool
applies code company partnership gstin tan =
    if is_one_of code ("ITR_AUDIT" ∷ "AGM" ∷ "AOC4" ∷ "MGT7" ∷ "DPT3" ∷ [])
    then company
    else if str_eq code "ITR"
    then not company
    else if str_eq code "ADVANCE_TAX"
    then true
    else if is_one_of code ("GSTR1" ∷ "GSTR3B" ∷ "GSTR9" ∷ [])
    then gstin
    else if is_one_of code ("TDS_PAYMENT" ∷ "TDS_24Q" ∷ "TDS_26Q" ∷ "FORM16" ∷ "FORM16A" ∷ [])
    then tan
    else if is_one_of code ("LLP_FORM11" ∷ "LLP_FORM8" ∷ [])
    then partnership
    else if str_eq code "DIR3_KYC"
    then company || partnership
    else false

abbrev agrees : Suggestions → Bool → Bool → Bool → Bool → CatalogEntry → Bool
agrees m company partnership gstin tan e =
    beq (is_some (get_entry e.code m)) (applies e.code company partnership gstin tan)

abbrev pub is_catalogued : String × String → Bool
is_catalogued (code, _) = any (λ e. str_eq e.code code) compliance_catalog

-- Both directions at once, for one outcome of the four tests.
abbrev suggest_check : Bool → Bool → Bool → Bool → Bool
suggest_check c p g t =
    all (agrees (suggest c p g t) c p g t) compliance_catalog && all is_catalogued (suggest c p g t)

suggest_checked : (c p g t : Bool) → suggest_check c p g t ≡ true
unfolding suggest compliance_catalog
suggest_checked false false false false = refl
suggest_checked false false false true = refl
suggest_checked false false true false = refl
suggest_checked false false true true = refl
suggest_checked false true false false = refl
suggest_checked false true false true = refl
suggest_checked false true true false = refl
suggest_checked false true true true = refl
suggest_checked true false false false = refl
suggest_checked true false false true = refl
suggest_checked true false true false = refl
suggest_checked true false true true = refl
suggest_checked true true false false = refl
suggest_checked true true false true = refl
suggest_checked true true true false = refl
suggest_checked true true true true = refl

beq-true→eq : (a b : Bool) → beq a b ≡ true → a ≡ b
beq-true→eq a b h = ground arith

-- For every client, a type of the catalog is suggested exactly when it applies to the client, and
-- nothing is suggested that the catalog does not have.
pub suggested_type_codes_lem :
    (entity : EntityType) (gstin tan : Option String)
    → let m = suggested_type_codes entity gstin tan in
      All
        (λ e.
          is_some (get_entry e.code m)
          ≡ applies e.code (is_company entity) (is_llp entity) (is_present gstin) (is_present tan))
        compliance_catalog
      × All (λ kv. is_catalogued kv ≡ true) m
unfolding suggested_type_codes
suggested_type_codes_lem entity gstin tan =
    let c = is_company entity in
    let p = is_llp entity in
    let g = is_present gstin in
    let t = is_present tan in
    let (to, from) = and-true→both _ _ (suggest_checked c p g t) in
    (
      All-of_all _ _ compliance_catalog to (λ e. beq-true→eq _ _),
      All-of_all _ is_catalogued (suggest c p g t) from (λ kv h. h),
    )
