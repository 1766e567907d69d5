-- ===== src/Web/Format.antt =====
-- apps/web/lib/format.ts: financial years, dates and labels. The formats that follow the user's
-- locale are left out.
pub mod Years
use tax_professional_managem.Common.{
  ℕ, suc, ◌+◌, ◌-◌, ◌*◌, ◌/◌, ◌%◌, Bool, true, false, ◌&&◌, List, [], ◌∷◌, ◌++◌, map, Option, none,
  some, ltb, leb, ◌==◌, if◌then◌else◌,
}
use tax_professional_managem.Common.Int.{ℤ, pos, negsuc}
use tax_professional_managem.Common.Text.{Text, codes, text_eq, decimal, two_digits}
use tax_professional_managem.Common.Paging.{take}
use tax_professional_managem.Common.Table.{order_by}
use tax_professional_managem.Dates.Civil.{CivilDate}
use tax_professional_managem.Types.{ComplianceStatus}
use tax_professional_managem.Reports.{is_unfiled}
use tax_professional_managem.Notifications.Reminders.{monthly_period, numbered_month}

-- `financialYearFrom`
unfoldable pub financial_year_from : ℕ → Text
financial_year_from start = decimal start ++ (codes "-" ++ two_digits ((start + 1) % 100))

-- `currentFinancialYear`, from the local date.
abbrev pub current_start : CivilDate → ℕ
current_start now = if leb 3 now.month then now.year else now.year - 1

unfoldable pub current_financial_year : CivilDate → Text
current_financial_year now = financial_year_from (current_start now)

-- `Number(text)` on digits.
abbrev pub number_from : ℕ → Text → ℕ
number_from n [] = n
number_from n (c ∷ cs) = number_from (10 * n + (c - b'0')) cs

-- `financialYearOptions`
unfoldable pub financial_year_options : CivilDate → List Text
financial_year_options now =
    let current = number_from 0 (take 4 (current_financial_year now)) in
    map financial_year_from ((current - 1) ∷ current ∷ (current + 1) ∷ [])

-- `a < b` on strings.
abbrev pub text_lt : Text → Text → Bool
text_lt [] [] = false
text_lt [] (y ∷ ys) = true
text_lt (x ∷ xs) [] = false
text_lt (x ∷ xs) (y ∷ ys) =
    let rest = text_lt xs ys in if ltb x y then true else if x == y then rest else false

-- `isOverdue`; `today` is `todayIsoDate()`.
unfoldable pub is_overdue : Text → Text → ComplianceStatus → Bool
is_overdue today due status = is_unfiled status && text_lt (take 10 due) today

abbrev label_or : Option (Text × ℕ) → Text → Text
label_or (some (year, month)) period = numbered_month month ++ (codes " " ++ year)
label_or none period = if text_eq period (codes "ANNUAL") then codes "Annual" else period

-- `periodLabel`
unfoldable pub period_label : Option Text → Text
period_label none = codes "—"
period_label (some []) = codes "—"
period_label (some (c ∷ cs)) = label_or (monthly_period (c ∷ cs)) (c ∷ cs)

-- `Math.round(n / d)` of a difference that may be negative; below zero it is 0 or less.
abbrev pub rounded : ℕ → ℕ → ℕ
rounded n d = (2 * n + d) / (2 * d)

-- `formatRelative`, from the time that has gone by in milliseconds.
unfoldable pub format_relative : ℤ → Text
format_relative (negsuc n) = codes "just now"
format_relative (pos ms) =
    let minutes = rounded ms 60000 in
    let hours = rounded minutes 60 in
    let days = rounded hours 24 in
    if ltb minutes 1
    then codes "just now"
    else if ltb minutes 60
    then decimal minutes ++ codes "m ago"
    else if ltb hours 24
    then decimal hours ++ codes "h ago"
    else decimal days ++ codes "d ago"

-- `Object.keys(COMPLIANCE_CATEGORY_LABELS)`
abbrev pub category_order : List Text
category_order = codes "GST" ∷ codes "INCOME_TAX" ∷ codes "TDS" ∷ codes "MCA" ∷ codes "PF_ESI" ∷ []

-- `order.includes(category) ? order.indexOf(category) : order.length`
abbrev pub rank_in : Text → List Text → ℕ
rank_in category [] = 0
rank_in category (c ∷ cs) = if text_eq c category then 0 else suc (rank_in category cs)

module _ {A : Type 0} where
  -- `groups.set(key, [...(groups.get(key) ?? []), item])`
  abbrev pub add_to_category : Text → A → List (Text × List A) → List (Text × List A)
  add_to_category key x [] = (key, x ∷ []) ∷ []
  add_to_category key x ((k, xs) ∷ gs) =
      let rest = add_to_category key x gs in
      if text_eq k key then (k, xs ++ (x ∷ [])) ∷ gs else (k, xs) ∷ rest

  abbrev pub groups_from : (A → Text) → List (Text × List A) → List A → List (Text × List A)
  groups_from category gs [] = gs
  groups_from category gs (x ∷ xs) = groups_from category (add_to_category (category x) x gs) xs

  -- `groupByCategory`
  unfoldable pub group_by_category : (A → Text) → List A → List (Text × List A)
  group_by_category category xs =
      order_by (λ a b. leb (rank_in a.0 category_order) (rank_in b.0 category_order))
        (groups_from category [] xs)
