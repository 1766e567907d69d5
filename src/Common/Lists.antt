-- ===== src/Common/Lists.antt =====
-- Lists measured by native numbers, under the library's names, and predicates over their elements.
use Prim.Native.Nat.{ℕ, suc, ◌+◌}
use mathlib.Core.Path.{◌≡◌, refl, ap}
use mathlib.Core.Logic.{inl, inr}
use mathlib.Core.Bool.{Bool, true, false, ◌&&◌, ◌||◌}
use mathlib.Core.List.{List, [], ◌∷◌, ◌++◌, map}
use native.Mathlib.Omega.{arith}
use tax_professional_managem.Common.Tests.{if◌then◌else◌, ◌==◌, and-true→both, Bool-cases}

module _ {ℓ} {A : Type ℓ} where
  abbrev pub length : List A → ℕ
  length [] = 0
  length (x ∷ xs) = suc (length xs)

  abbrev pub all : (A → Bool) → List A → Bool
  all p [] = true
  all p (x ∷ xs) = p x && all p xs

  abbrev pub any : (A → Bool) → List A → Bool
  any p [] = false
  any p (x ∷ xs) = p x || any p xs

  -- `xs.filter(p)`
  abbrev pub keep : (A → Bool) → List A → List A
  keep p [] = []
  keep p (x ∷ xs) = if p x then x ∷ keep p xs else keep p xs

  abbrev pub All {κ} : (A → Type κ) → List A → Type κ
  All P [] = Unit
  All P (x ∷ xs) = P x × All P xs

  -- No two elements have the same number.
  abbrev pub IsDistinct : (A → ℕ) → List A → Type 0
  IsDistinct id [] = Unit
  IsDistinct id (x ∷ xs) = All (λ y. (id y == id x) ≡ false) xs × IsDistinct id xs

  pub length-append : (xs ys : List A) → length (xs ++ ys) ≡ length xs + length ys
  length-append [] ys = omega arith
  length-append (x ∷ xs) ys = omega (arith, length-append xs ys)

  pub All-append {κ} : (P : A → Type κ) (xs ys : List A) → All P xs → All P ys → All P (xs ++ ys)
  All-append P [] ys hx hy = hy
  All-append P (x ∷ xs) ys hx hy = (hx.0, All-append P xs ys hx.1 hy)

  pub All-middle {κ} :
      (P : A → Type κ) (xs : List A) (y : A) (ys : List A) → All P (xs ++ (y ∷ ys)) → P y
  All-middle P [] y ys h = h.0
  All-middle P (x ∷ xs) y ys h = All-middle P xs y ys h.1

  pub All-of_all {κ} :
      (P : A → Type κ) (p : A → Bool) (xs : List A)
      → all p xs ≡ true
      → ((x : A) → p x ≡ true → P x)
      → All P xs
  All-of_all P p [] e f = tt
  All-of_all P p (x ∷ xs) e f =
      let (here, later) = and-true→both (p x) (all p xs) e in (f x here, All-of_all P p xs later f)

  pub All-imp {κ τ} :
      (P : A → Type κ) (Q : A → Type τ) (xs : List A) → ((a : A) → P a → Q a) → All P xs → All Q xs
  All-imp P Q [] f h = tt
  All-imp P Q (x ∷ xs) f h = (f x h.0, All-imp P Q xs f h.1)

  pub All-both {κ τ} :
      (P : A → Type κ) (Q : A → Type τ) (xs : List A)
      → All P xs
      → All Q xs
      → All (λ a. P a × Q a) xs
  All-both P Q [] h k = tt
  All-both P Q (x ∷ xs) h k = ((h.0, k.0), All-both P Q xs h.1 k.1)

  pub any-append : (p : A → Bool) (xs ys : List A) → any p (xs ++ ys) ≡ (any p xs || any p ys)
  any-append p [] ys = refl
  any-append p (x ∷ xs) ys = ground (arith, any-append p xs ys)

  pub All-keep {κ} :
      (P : A → Type κ) (p : A → Bool) (xs : List A)
      → ((x : A) → p x ≡ true → P x)
      → All P (keep p xs)
  All-keep P p [] f = tt
  All-keep P p (x ∷ xs) f = elim (Bool-cases (p x)) [
    | inl hit ↦ rw hit (f x hit, All-keep P p xs f)
    | inr miss ↦ rw miss (All-keep P p xs f)
  ]

  pub keep_none : (p : A → Bool) (xs : List A) → All (λ x. p x ≡ false) xs → keep p xs ≡ []
  keep_none p [] h = refl
  keep_none p (x ∷ xs) h = ground (arith, h.0, keep_none p xs h.1)

pub length-map {ℓ κ} :
    {A : Type ℓ} {B : Type κ} (f : A → B) (xs : List A) → length (map f xs) ≡ length xs
length-map f [] = refl
length-map f (x ∷ xs) = ap suc (length-map f xs)

-- `xs.includes(n)`
abbrev pub includes : List ℕ → ℕ → Bool
includes xs n = any (λ x. x == n) xs
