-- ===== src/Common/Paging/Laws.antt =====
-- The pages of a list: their size, and that following the cursors visits every row once.
use Prim.Native.Nat.{ℕ, zero, suc, ◌+◌, ◌-◌, ◌≤◌, ◌<◌, min}
use mathlib.Core.Path.{◌≡◌, refl, sym, ap, ◌∙◌, subst}
use mathlib.Core.Logic.{inl, inr}
use mathlib.Core.Bool.{true, false}
use mathlib.Core.Option.{Option, none, some}
use mathlib.Core.List.{List, [], ◌∷◌, ◌++◌, append_assoc, append-nil}
use native.Mathlib.Omega.{arith}
use tax_professional_managem.Common.Tests.{ltb, ltb→lt, ◌==◌, ==_self, or_else, Bool-cases}
use tax_professional_managem.Common.Lists.{length, All, All-middle, IsDistinct}
use tax_professional_managem.Common.Paging.{
  take, page_limit, rows_after, from_cursor, last_id, page_of,
}

abbrev pub drop : {A : Type 0} → ℕ → List A → List A
drop zero xs = xs
drop (suc n) [] = []
drop (suc n) (x ∷ xs) = drop n xs

plus_one : (k : ℕ) → suc k + 1 ≡ suc (suc k)
plus_one k = omega arith

module _ {A : Type 0} where
  pub length-take : (n : ℕ) (xs : List A) → length (take n xs) ≡ min n (length xs)
  length-take zero xs = omega arith
  length-take (suc n) [] = omega arith
  length-take (suc n) (x ∷ xs) = omega (arith, length-take n xs)

  length-drop : (n : ℕ) (xs : List A) → length (drop n xs) ≡ length xs - n
  length-drop zero xs = omega arith
  length-drop (suc n) [] = omega arith
  length-drop (suc n) (x ∷ xs) = omega (arith, length-drop n xs)

  take-drop : (n : ℕ) (xs : List A) → take n xs ++ drop n xs ≡ xs
  take-drop zero xs = refl
  take-drop (suc n) [] = refl
  take-drop (suc n) (x ∷ xs) = ap (λ ys. x ∷ ys) (take-drop n xs)

  take_whole : (n : ℕ) (xs : List A) → length xs ≤ n → take n xs ≡ xs
  take_whole zero [] h = refl
  take_whole zero (x ∷ xs) h = absurd (omega arith)
  take_whole (suc n) [] h = refl
  take_whole (suc n) (x ∷ xs) h = ap (λ ys. x ∷ ys) (take_whole n xs (omega arith))

  take-take : (n : ℕ) (xs : List A) → take n (take (suc n) xs) ≡ take n xs
  take-take zero xs = refl
  take-take (suc n) [] = refl
  take-take (suc n) (x ∷ xs) = ap (λ ys. x ∷ ys) (take-take n xs)

  -- A page is never longer than the limit that was asked for, nor than 200 rows.
  pub page_of_bound :
      (id : A → ℕ) (limit cursor : Option ℕ) (rows : List A)
      → length (page_of id limit cursor rows).items ≤ min (or_else limit 50) 200
  unfolding page_of
  page_of_bound id limit cursor rows =
      let found = take (page_limit limit + 1) (from_cursor id cursor rows) in
      let short = length-take (page_limit limit) found in
      elim (Bool-cases (ltb (page_limit limit) (length found))) [
        | inl more ↦ rw more (omega arith)
        | inr last ↦ rw last ground arith
      ]

  -- The rows that a client sees who follows the cursors from page to page, at most `fuel` pages.
  unfoldable pub all_pages : (A → ℕ) → ℕ → Option ℕ → Option ℕ → List A → List A
  all_pages id zero limit cursor rows = []
  all_pages id (suc fuel) limit cursor rows =
      let page = page_of id limit cursor rows in
      page.items
      ++ elim page.next_cursor [ none ↦ [] | some next ↦ all_pages id fuel limit (some next) rows ]

  -- The last row of a page that others follow.
  split_page :
      (id : A → ℕ) (k : ℕ) (xs : List A)
      → suc k < length xs
      → (init : List A) × (x : A) × (last_id id (take (suc k) xs) ≡ some (id x))
        × (xs ≡ init ++ (x ∷ drop (suc k) xs))
  unfolding last_id
  split_page id k [] h = absurd (omega arith)
  split_page id zero (x ∷ []) h = absurd (omega arith)
  split_page id zero (x ∷ (y ∷ ys)) h = ([], x, refl, refl)
  split_page id (suc k) (x ∷ []) h = absurd (omega arith)
  split_page id (suc k) (x ∷ (y ∷ ys)) h =
      let (init, z, last, parts) = split_page id k (y ∷ ys) (omega arith) in
      (x ∷ init, z, last, ap (λ zs. x ∷ zs) parts)

  before_distinct :
      (id : A → ℕ) (before : List A) (x : A) (after : List A)
      → IsDistinct id (before ++ (x ∷ after))
      → rows_after id (id x) (before ++ (x ∷ after)) ≡ after
  unfolding rows_after
  before_distinct id [] x after h = rw (==_self (id x)) refl
  before_distinct id (y ∷ before) x after h =
      let apart : (id y == id x) ≡ false = ground (arith, All-middle _ before x after h.0) in
      rw apart (before_distinct id before x after h.1)

  -- Where the page ends early, the next one begins where it ends.
  page_more :
      (id : A → ℕ) (k : ℕ) (limit cursor : Option ℕ) (rows before rest : List A)
      → page_limit limit ≡ suc k
      → IsDistinct id rows
      → rows ≡ before ++ rest
      → from_cursor id cursor rows ≡ rest
      → suc k < length rest
      → (seen : List A) × (x : A) × ((page_of id limit cursor rows).items ≡ take (suc k) rest)
        × ((page_of id limit cursor rows).next_cursor ≡ some (id x))
        × (rows ≡ seen ++ drop (suc k) rest)
        × (from_cursor id (some (id x)) rows ≡ drop (suc k) rest)
  unfolding page_of
  page_more id k limit cursor rows before rest lim distinct parts here more =
      let (init, x, last, middle) = split_page id k rest more in
      let after = drop (suc k) rest in
      let whole : rows ≡ (before ++ init) ++ (x ∷ after) =
        parts ∙ ap (λ ys. before ++ ys) middle ∙ sym (append_assoc before init (x ∷ after)) in
      let long : ltb (page_limit limit) (length (take (page_limit limit + 1) rest)) ≡ true =
        ground (arith, lim, length-take (page_limit limit + 1) rest) in
      let first : take (page_limit limit) (take (page_limit limit + 1) rest) ≡ take (suc k) rest =
        rw (lim, plus_one k) (take-take (suc k) rest) in
      (
        (before ++ init) ++ (x ∷ []),
        x,
        rw (here, long) first,
        rw (here, long, first) last,
        whole ∙ sym (append_assoc (before ++ init) (x ∷ []) after),
        ap (rows_after id (id x)) whole
            ∙ before_distinct id (before ++ init) x after (subst (IsDistinct id) whole distinct),
      )

  page_last :
      (id : A → ℕ) (k : ℕ) (limit cursor : Option ℕ) (rows rest : List A)
      → page_limit limit ≡ suc k
      → from_cursor id cursor rows ≡ rest
      → length rest ≤ suc k
      → ((page_of id limit cursor rows).items ≡ rest)
        × ((page_of id limit cursor rows).next_cursor ≡ none)
  unfolding page_of
  page_last id k limit cursor rows rest lim here short =
      let whole = take_whole (page_limit limit + 1) rest (omega (arith, lim)) in
      let last : ltb (page_limit limit) (length rest) ≡ false = ground (arith, lim) in
      rw (here, whole, last) (refl, refl)

  all_pages_end :
      (id : A → ℕ) (k : ℕ) (limit : Option ℕ) (n : ℕ) (cursor : Option ℕ) (rows rest : List A)
      → page_limit limit ≡ suc k
      → from_cursor id cursor rows ≡ rest
      → length rest ≤ suc k
      → all_pages id (suc n) limit cursor rows ≡ rest
  unfolding all_pages
  all_pages_end id k limit n cursor rows rest lim here short =
      let (items, next) = page_last id k limit cursor rows rest lim here short in
      rw (items, next) (append-nil rest)

  all_pages_from :
      (id : A → ℕ) (k : ℕ) (limit : Option ℕ) (n : ℕ) (cursor : Option ℕ)
      (rows before rest : List A)
      → page_limit limit ≡ suc k
      → IsDistinct id rows
      → rows ≡ before ++ rest
      → from_cursor id cursor rows ≡ rest
      → length rest ≤ n
      → all_pages id (suc n) limit cursor rows ≡ rest
  unfolding all_pages
  all_pages_from id k limit zero cursor rows before rest lim distinct parts here le =
      all_pages_end id k limit zero cursor rows rest lim here (omega arith)
  all_pages_from id k limit (suc n) cursor rows before rest lim distinct parts here le =
      elim (Bool-cases (ltb (suc k) (length rest))) [
        | inl more ↦
            let (seen, x, items, next, later, there) =
              page_more id k limit cursor rows before rest lim distinct parts here
                (ltb→lt (suc k) (length rest) more) in
            let rest' = drop (suc k) rest in
            let shorter = length-drop (suc k) rest in
            let onward =
              all_pages_from id k limit n (some (id x)) rows seen rest' lim distinct later there
                (omega arith) in
            rw (items, next) (rw onward (take-drop (suc k) rest))
        | inr final ↦ all_pages_end id k limit (suc n) cursor rows rest lim here (ground arith)
      ]

  -- A client that starts without a cursor and follows the cursor of every page sees each row
  -- exactly once, in order, and is done after no more pages than there are rows, and one. (The
  -- identifiers are distinct, and the limit asked for is at least 1, as the requests' validation
  -- demands.)
  pub all_pages_lem :
      (id : A → ℕ) (limit : Option ℕ) (rows : List A)
      → 1 ≤ or_else limit 50
      → IsDistinct id rows
      → all_pages id (suc (length rows)) limit none rows ≡ rows
  all_pages_lem id limit rows positive distinct =
      let lim : page_limit limit ≡ suc (page_limit limit - 1) = omega (arith, positive) in
      all_pages_from id (page_limit limit - 1) limit (length rows) none rows [] rows lim distinct
        refl refl (omega arith)

  All-take {κ} : (P : A → Type κ) (n : ℕ) (xs : List A) → All P xs → All P (take n xs)
  All-take P zero xs h = tt
  All-take P (suc n) [] h = tt
  All-take P (suc n) (x ∷ xs) h = (h.0, All-take P n xs h.1)

  All-after {κ} :
      (P : A → Type κ) (id : A → ℕ) (cursor : Option ℕ) (xs : List A)
      → All P xs
      → All P (from_cursor id cursor xs)
  unfolding rows_after
  All-after P id none xs h = h
  All-after P id (some c) [] h = tt
  All-after P id (some c) (x ∷ xs) h = elim (Bool-cases (id x == c)) [
    | inl hit ↦ rw hit h.1
    | inr miss ↦ rw miss (All-after P id (some c) xs h.1)
  ]

  -- A page holds rows of the list only.
  pub All-page {κ} :
      (P : A → Type κ) (id : A → ℕ) (limit cursor : Option ℕ) (rows : List A)
      → All P rows
      → All P (page_of id limit cursor rows).items
  unfolding page_of
  All-page P id limit cursor rows h =
      let found = take (page_limit limit + 1) (from_cursor id cursor rows) in
      let of_found : All P found = All-take P _ _ (All-after P id cursor rows h) in
      elim (Bool-cases (ltb (page_limit limit) (length found))) [
        | inl more ↦ rw more (All-take P _ found of_found)
        | inr last ↦ rw last of_found
      ]
