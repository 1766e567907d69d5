-- ===== src/Common/Paging.antt =====
-- The paged lists of clients.service.ts, tasks.service.ts, documents.service.ts,
-- compliance.service.ts and audit.controller.ts under apps/api/src: a page begins after the row
-- that the cursor names. Rows come filtered and in their order.
pub mod Laws
use Prim.Native.Nat.{ℕ, zero, suc, ◌+◌, min}
use mathlib.Core.Bool.{Bool, true, false}
use mathlib.Core.Option.{Option, none, some}
use mathlib.Core.List.{List, [], ◌∷◌}
use tax_professional_managem.Common.Tests.{if◌then◌else◌, ltb, ◌==◌, or_else}
use tax_professional_managem.Common.Lists.{length, any}

module _ {ℓ} {A : Type ℓ} where
  abbrev pub take : ℕ → List A → List A
  take zero xs = []
  take (suc n) [] = []
  take (suc n) (x ∷ xs) = x ∷ take n xs

pub record Page (A : Type 0) : Type 0 where
  pub items : List A
  pub next_cursor : Option ℕ
  pub has_more : Bool
  pub total : ℕ

-- `Math.min(limit ?? 50, 200)`
abbrev pub page_limit : Option ℕ → ℕ
page_limit limit = min (or_else limit 50) 200

module _ {A : Type 0} (id : A → ℕ) where
  -- `cursor: { id }, skip: 1`: the rows after the one of that id.
  unfoldable pub rows_after : ℕ → List A → List A
  rows_after cursor [] = []
  rows_after cursor (x ∷ xs) = if id x == cursor then xs else rows_after cursor xs

  abbrev pub from_cursor : Option ℕ → List A → List A
  from_cursor none xs = xs
  from_cursor (some cursor) xs = rows_after cursor xs

  unfoldable pub last_id : List A → Option ℕ
  last_id [] = none
  last_id (x ∷ []) = some (id x)
  last_id (x ∷ (y ∷ ys)) = last_id (y ∷ ys)

  abbrev page_with : ℕ → ℕ → List A → Page A
  page_with limit total found =
      if ltb limit (length found)
      then record {
        items = take limit found;
        next_cursor = last_id (take limit found);
        has_more = true;
        total = total;
      }
      else record { items = found; next_cursor = none; has_more = false; total = total }

  -- The rows of one page. `known` is the cursor once it has been found to name a row of the
  -- organization: another cursor is ignored.
  unfoldable pub page_of : Option ℕ → Option ℕ → List A → Page A
  page_of limit known rows =
      page_with (page_limit limit) (length rows)
        (take (page_limit limit + 1) (from_cursor known rows))
