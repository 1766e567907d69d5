-- ===== src/Common/Table.antt =====
-- A database table as the list of its rows, in the order of insertion, and the queries that the
-- services make. A `where` clause is a test on a row.
use Prim.Native.Nat.{ℕ, ◌+◌}
use mathlib.Core.Path.{◌≡◌, refl, subst}
use mathlib.Core.Logic.{inl, inr}
use mathlib.Core.Bool.{Bool, true, false}
use mathlib.Core.Option.{Option, none, some}
use mathlib.Core.Option
use tax_professional_managem.Common.Lists.{any, All}
use mathlib.Core.List.{List, [], ◌∷◌, ◌++◌}
use native.Mathlib.Omega.{arith}
use tax_professional_managem.Common.Tests.{if◌then◌else◌, Bool-cases}

module _ {A : Type 0} where
  -- `findUnique`, `findFirst`
  abbrev pub find_first : (A → Bool) → List A → Option A
  find_first p [] = none
  find_first p (x ∷ xs) = if p x then some x else find_first p xs

  -- `count`
  abbrev pub count_where : (A → Bool) → List A → ℕ
  count_where p [] = 0
  count_where p (x ∷ xs) = (if p x then 1 else 0) + count_where p xs

  -- `update`, `updateMany`: `f` on the rows that pass the test.
  abbrev pub update_where : (A → Bool) → (A → A) → List A → List A
  update_where p f [] = []
  update_where p f (x ∷ xs) = (if p x then f x else x) ∷ update_where p f xs

  -- `delete`, `deleteMany`
  abbrev pub delete_where : (A → Bool) → List A → List A
  delete_where p [] = []
  delete_where p (x ∷ xs) = if p x then delete_where p xs else x ∷ delete_where p xs

  pub find_first_sound :
      (p : A → Bool) (xs : List A) (x : A) → find_first p xs ≡ some x → p x ≡ true
  find_first_sound p [] x e = cc
  find_first_sound p (y ∷ ys) x e = elim (Bool-cases (p y)) [
    | inl hit ↦ ground arith
    | inr miss ↦ find_first_sound p ys x (ground arith)
  ]

  pub find_first-All {κ} :
      (P : A → Type κ) (p : A → Bool) (xs : List A) (x : A)
      → All P xs
      → find_first p xs ≡ some x
      → P x
  find_first-All P p [] x h e = cc
  find_first-All P p (y ∷ xs) x h e = elim (Bool-cases (p y)) [
    | inl hit ↦ subst P (ground arith) h.0
    | inr miss ↦ find_first-All P p xs x h.1 (ground arith)
  ]

  pub find_first-append :
      (p : A → Bool) (xs ys : List A) (x : A)
      → find_first p xs ≡ some x
      → find_first p (xs ++ ys) ≡ some x
  find_first-append p [] ys x e = cc
  find_first-append p (y ∷ xs) ys x e = ground (arith, find_first-append p xs ys x)

  -- The row as `update_where q f` leaves it.
  abbrev pub updated : (A → Bool) → (A → A) → A → A
  updated q f x = if q x then f x else x

  -- An update that keeps what the rows are found by updates the row that is found.
  pub find_first-update :
      (p q : A → Bool) (f : A → A) (xs : List A)
      → ((x : A) → p (f x) ≡ p x)
      → find_first p (update_where q f xs) ≡ Option.map (updated q f) (find_first p xs)
  find_first-update p q f [] h = refl
  find_first-update p q f (x ∷ xs) h = ground (arith, h x, find_first-update p q f xs h)

  pub any-update :
      (r q : A → Bool) (f : A → A) (xs : List A)
      → ((x : A) → r (f x) ≡ true → r x ≡ true)
      → any r xs ≡ false
      → any r (update_where q f xs) ≡ false
  any-update r q f [] h e = refl
  any-update r q f (x ∷ xs) h e = ground (arith, h x, any-update r q f xs h)

  pub any-update_true :
      (r q : A → Bool) (f : A → A) (xs : List A)
      → ((x : A) → r x ≡ true → r (f x) ≡ true)
      → any r xs ≡ true
      → any r (update_where q f xs) ≡ true
  any-update_true r q f [] h e = e
  any-update_true r q f (x ∷ xs) h e = ground (arith, h x, any-update_true r q f xs h)

  pub any-append_last :
      (r : A → Bool) (xs : List A) (x : A) → r x ≡ true → any r (xs ++ (x ∷ [])) ≡ true
  any-append_last r [] x e = ground arith
  any-append_last r (y ∷ xs) x e = ground (arith, any-append_last r xs x e)

  -- After an update that makes them fail, no row passes the test.
  pub any-update_self :
      (r : A → Bool) (f : A → A) (xs : List A)
      → ((x : A) → r (f x) ≡ false)
      → any r (update_where r f xs) ≡ false
  any-update_self r f [] h = refl
  any-update_self r f (x ∷ xs) h = ground (arith, h x, any-update_self r f xs h)

  pub any_of_count : (r : A → Bool) (xs : List A) → any r xs ≡ false → count_where r xs ≡ 0
  any_of_count r [] e = refl
  any_of_count r (x ∷ xs) e = ground (arith, any_of_count r xs)

  -- Tests that agree on the rows make the same query.
  pub update_where_agree :
      (p q : A → Bool) (f : A → A) (xs : List A)
      → All (λ x. p x ≡ q x) xs
      → update_where p f xs ≡ update_where q f xs
  update_where_agree p q f [] h = refl
  update_where_agree p q f (x ∷ xs) h = ground (arith, h.0, update_where_agree p q f xs h.1)

  pub count_where_agree :
      (p q : A → Bool) (xs : List A) → All (λ x. p x ≡ q x) xs → count_where p xs ≡ count_where q xs
  count_where_agree p q [] h = refl
  count_where_agree p q (x ∷ xs) h = ground (arith, h.0, count_where_agree p q xs h.1)

  pub All-update {κ} :
      (P : A → Type κ) (q : A → Bool) (f : A → A) (xs : List A)
      → All (λ x. P (updated q f x)) xs
      → All P (update_where q f xs)
  All-update P q f [] h = tt
  All-update P q f (x ∷ xs) h = (h.0, All-update P q f xs h.1)

  pub All-delete {κ} :
      (P : A → Type κ) (p : A → Bool) (xs : List A) → All P xs → All P (delete_where p xs)
  All-delete P p [] h = tt
  All-delete P p (x ∷ xs) h = elim (Bool-cases (p x)) [
    | inl hit ↦ rw hit (All-delete P p xs h.1)
    | inr miss ↦ rw miss (h.0, All-delete P p xs h.1)
  ]

  -- `orderBy`: a stable sort, where `before x y` tells that `x` may stand before `y`.
  abbrev pub insert_ordered : (A → A → Bool) → A → List A → List A
  insert_ordered before x [] = x ∷ []
  insert_ordered before x (y ∷ ys) =
      if before x y then x ∷ (y ∷ ys) else y ∷ insert_ordered before x ys

  abbrev pub order_by : (A → A → Bool) → List A → List A
  order_by before [] = []
  order_by before (x ∷ xs) = insert_ordered before x (order_by before xs)

  pub All-insert {κ} :
      (P : A → Type κ) (before : A → A → Bool) (x : A) (ys : List A)
      → P x
      → All P ys
      → All P (insert_ordered before x ys)
  All-insert P before x [] h hs = (h, tt)
  All-insert P before x (y ∷ ys) h hs = elim (Bool-cases (before x y)) [
    | inl first ↦ rw first (h, hs)
    | inr later ↦ rw later (hs.0, All-insert P before x ys h hs.1)
  ]

  pub All-order {κ} :
      (P : A → Type κ) (before : A → A → Bool) (xs : List A) → All P xs → All P (order_by before xs)
  All-order P before [] hs = tt
  All-order P before (x ∷ xs) hs =
      All-insert P before x (order_by before xs) hs.0 (All-order P before xs hs.1)
