-- ===== src/Common/Text.antt =====
-- Texts that the program takes apart or puts together, as the list of their character codes.
pub mod Laws
use tax_professional_managem.Common.{
  ℕ, zero, suc, ◌+◌, ◌-◌, ◌*◌, ◌/◌, ◌%◌, Bool, true, false, ◌&&◌, List, [], ◌∷◌, ◌++◌, ltb, leb,
  ◌==◌, if◌then◌else◌, String,
}
use Prim.Native.Char.{code}

abbrev pub Text : Type 0
Text = List ℕ

-- The character codes of a literal.
abbrev pub codes : String → Text
codes String.[] = []
codes (String.◌∷◌ c s) = code c ∷ codes s

-- `a === b`
unfoldable pub text_eq : Text → Text → Bool
text_eq [] [] = true
text_eq (x ∷ xs) (y ∷ ys) = (x == y) && text_eq xs ys
text_eq _ _ = false

-- `\d`
abbrev pub is_digit : ℕ → Bool
is_digit c = leb b'0' c && leb c b'9'

-- `String(n)`: the digits of n, before those of `rest`. A number below 10 ^ fuel is done in `fuel`
-- rounds.
unfoldable pub decimal_onto : ℕ → ℕ → Text → Text
decimal_onto zero n rest = rest
decimal_onto (suc fuel) n rest =
    let more = decimal_onto fuel (n / 10) ((n % 10 + b'0') ∷ rest) in
    if ltb n 10 then (n + b'0') ∷ rest else more

unfoldable pub decimal : ℕ → Text
decimal n = decimal_onto (n + 1) n []

-- `String(n).padStart(2, "0")` for a number below 100.
unfoldable pub two_digits : ℕ → Text
two_digits n = (n / 10 + b'0') ∷ (n % 10 + b'0') ∷ []
