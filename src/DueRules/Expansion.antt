-- ===== src/DueRules/Expansion.antt =====
-- The filings that a rule expands to: how many, for which months, and due when.
use tax_professional_managem.Common.{
  ℕ, zero, suc, ◌+◌, ◌-◌, ◌*◌, ◌%◌, ◌≤◌, ◌<◌, min, ◌≡◌, refl, ap, ◌∙◌, Bool, true, false, List, [],
  ◌∷◌, ◌++◌, Option, none, some, not, includes, keep, inl, inr, ◌==◌, if◌then◌else◌, arith, All,
  length, Bool-cases,
}
use tax_professional_managem.Common.Text.{decimal, two_digits}
use tax_professional_managem.Dates.Civil.{
  is_leap, month_days, days_before_month, days_before_year, day_number, date_utc, utc_parts,
}
use tax_professional_managem.Dates.Civil.Laws.{
  day_number-in_year, days_before_year-suc, days_before_month-suc, days_before_month-twelve,
  month_days-pos,
}
use tax_professional_managem.Dates.Laws.{utc_parts-date_utc, date_utc-day_number}
use tax_professional_managem.DueRules.{
  monthly, fixed, Exception, FixedDate, Filing, utc_day, day_in, period_month, period_year,
  is_skipped, monthly_filing, monthly_filings, expand_from,
}

december_end : (y : ℕ) → day_number y 12 0 ≡ days_before_year (y + 1) - 1
unfolding day_number days_before_month
december_end y = omega arith

-- Day 0 of a month is the last day of the month before it.
day_number-zero :
    (y m : ℕ) → m < 12 → day_number y (m + 1) 0 ≡ day_number y m (month_days (is_leap y) m)
day_number-zero y m hm = elim (Bool-cases (m == 11)) [
  | inl last ↦
      let december : m ≡ 11 = ground arith in
      let fits = days_before_month-suc (is_leap y) 11 in
      rw
        (
          december,
          december_end y,
          day_number-in_year y 11 (month_days (is_leap y) 11) (omega arith),
        )
        (omega (arith, days_before_year-suc y, days_before_month-twelve (is_leap y)))
  | inr earlier ↦
      rw
        (
          day_number-in_year y (m + 1) 0 (ground arith),
          day_number-in_year y m (month_days (is_leap y) m) hm,
        )
        (omega (arith, days_before_month-suc (is_leap y) m))
]

date_utc-zero :
    (y m : ℕ) → 100 ≤ y → m < 12 → date_utc y (m + 1) 0 ≡ date_utc y m (month_days (is_leap y) m)
date_utc-zero y m hy hm = rw (
  date_utc-day_number y (m + 1) 0 hy,
  date_utc-day_number y m (month_days (is_leap y) m) hy,
  day_number-zero y m hm,
)

-- A due date is the day that the rule names, or the last day of a month that is too short for it.
pub utc_day_parts :
    (y m d : ℕ)
    → 100 ≤ y
    → 1 ≤ m
    → m ≤ 12
    → 1 ≤ d
    → utc_parts (utc_day y m d)
      ≡ record { year = y; month = m - 1; day = min d (month_days (is_leap y) (m - 1)) }
unfolding utc_day
utc_day_parts y m d hy hm hl hd =
    let back : m ≡ m - 1 + 1 = omega arith in
    let long = month_days-pos (is_leap y) (m - 1) in
    let last : utc_parts (date_utc y m 0)
        ≡ record { year = y; month = m - 1; day = month_days (is_leap y) (m - 1) } =
      ap (λ (k : ℕ). utc_parts (date_utc y k 0)) back
      ∙ ap utc_parts (date_utc-zero y (m - 1) hy (omega arith))
      ∙ utc_parts-date_utc y (m - 1) (month_days (is_leap y) (m - 1)) hy (omega arith) (omega arith)
          (omega arith) in
    rw last (
      utc_parts-date_utc y (m - 1) (min d (month_days (is_leap y) (m - 1))) hy (omega arith)
        (omega arith) (omega arith))

-- The months of a calendar, counted from January of the year 0.
abbrev pub month_index : ℕ → ℕ → ℕ
month_index year month = year * 12 + month

-- What a rule must say for its dates to be the ones that it names: days that every such month has.
abbrev pub IsDayFor : ℕ → ℕ → Type 0
IsDayFor month day = (1 ≤ month) × (month ≤ 12) × (1 ≤ day) × (day ≤ month_days false (month - 1))

month_days_common : (leap : Bool) (m : ℕ) → month_days false m ≤ month_days leap m
unfolding month_days
month_days_common true m = ground arith
month_days_common false m = omega arith

-- A due date that every year has is not moved.
pub utc_day_exact :
    (y m d : ℕ)
    → 100 ≤ y
    → IsDayFor m d
    → utc_parts (utc_day y m d) ≡ record { year = y; month = m - 1; day = d }
utc_day_exact y m d hy h =
    let whole = month_days_common (is_leap y) (m - 1) in
    utc_day_parts y m d hy h.0 h.1 h.2
    ∙ ap (λ (k : ℕ). record { year = y; month = m - 1; day = k }) (omega arith)

-- The filing of a month is due in the month that follows, in the next year after December.
pub monthly_filing-next_month :
    (start day month : ℕ) (es : Option (List Exception))
    → 100 ≤ start
    → 1 ≤ month
    → month ≤ 12
    → 1 ≤ day_in day es month
    → let due = utc_parts (monthly_filing start day es month).due_date in
      (month_index due.year due.month ≡ month_index (period_year start month) (month - 1) + 1)
      × (due.day ≡ min (day_in day es month) (month_days (is_leap due.year) (month % 12)))
unfolding monthly_filing
monthly_filing-next_month start day month es hs lo hi hd =
    let due_year = if month == 12 then period_year start month + 1 else period_year start month in
    let late : 100 ≤ due_year = ground arith in
    rw
      (utc_day_parts due_year (month % 12 + 1) (day_in day es month) late (omega arith)
        (omega arith) hd)
      (
        ground arith,
        ap (λ (k : ℕ). min (day_in day es month) (month_days (is_leap due_year) k)) (omega arith),
      )

-- The filing for a month of the financial year that starts in `start`: named after the month, and
-- due in the month after it, on the rule's day for the month or the last day that there is.
pub record IsMonthly (start day : ℕ) (es : Option (List Exception)) (month : ℕ) (f : Filing)
    : Type 0 where
  pub label : f.period ≡ decimal (period_year start month) ++ (b'-' ∷ two_digits month)
  pub next_month :
      month_index (utc_parts f.due_date).year (utc_parts f.due_date).month
      ≡ month_index (period_year start month) (month - 1) + 1
  pub due_day :
      (utc_parts f.due_date).day
      ≡ min (day_in day es month) (month_days (is_leap (utc_parts f.due_date).year) (month % 12))

-- A filing for each of the months, in their order, and no other.
abbrev pub AllMonthly : ℕ → ℕ → Option (List Exception) → List ℕ → List Filing → Type 0
AllMonthly start day es [] [] = Unit
AllMonthly start day es (m ∷ ms) (f ∷ fs) =
    IsMonthly start day es m f × AllMonthly start day es ms fs
AllMonthly start day es _ _ = ⊥

-- The months of a financial year, from April to March.
abbrev pub year_months : List ℕ
year_months = 4 ∷ 5 ∷ 6 ∷ 7 ∷ 8 ∷ 9 ∷ 10 ∷ 11 ∷ 12 ∷ 1 ∷ 2 ∷ 3 ∷ []

-- The months that a rule is for: those that it lists, or all.
abbrev pub is_month : Option (List ℕ) → ℕ → Bool
is_month none m = true
is_month (some ms) m = includes ms m

abbrev months_from : ℕ → ℕ → List ℕ
months_from zero i = []
months_from (suc rounds) i = period_month i ∷ months_from rounds (i + 1)

is_month_or_skipped : (ms : Option (List ℕ)) (m : ℕ) → is_month ms m ≡ not (is_skipped ms m)
is_month_or_skipped none m = refl
is_month_or_skipped (some ms) m = ground arith

module _ (start day : ℕ) (months : Option (List ℕ)) (es : Option (List Exception)) where
  monthly_filings-AllMonthly :
      (rounds i : ℕ)
      → 100 ≤ start
      → ((m : ℕ) → 1 ≤ day_in day es m)
      → AllMonthly start day es
          (keep (is_month months) (months_from rounds i))
          (monthly_filings rounds i start day months es)
  unfolding monthly_filings
  monthly_filings-AllMonthly zero i hs hd = tt
  monthly_filings-AllMonthly (suc rounds) i hs hd =
      let rest = monthly_filings-AllMonthly rounds (i + 1) hs hd in
      let either = is_month_or_skipped months (period_month i) in
      elim (Bool-cases (is_skipped months (period_month i))) [
        | inl skipped ↦
            let asked : is_month months (period_month i) ≡ false = either ∙ ap not skipped in
            rw (asked, skipped) rest
        | inr due ↦
            let asked : is_month months (period_month i) ≡ true = either ∙ ap not due in
            let facts =
              monthly_filing-next_month start day (period_month i) es hs (omega arith) (omega arith)
                (hd (period_month i)) in
            rw (asked, due)
              (
                record {
                  label = unfold monthly_filing in refl;
                  next_month = facts.0;
                  due_day = facts.1;
                },
                rest,
              )
      ]

  -- One filing for each month that the rule does not leave out.
  abbrev due_months : ℕ → ℕ → ℕ
  due_months zero i = 0
  due_months (suc rounds) i =
      (if is_skipped months (period_month i) then 0 else 1) + due_months rounds (i + 1)

  length-monthly_filings :
      (rounds i : ℕ) → length (monthly_filings rounds i start day months es) ≡ due_months rounds i
  unfolding monthly_filings
  length-monthly_filings zero i = refl
  length-monthly_filings (suc rounds) i = ground (arith, length-monthly_filings rounds (i + 1))

  -- A monthly rule expands to a filing for each month of the financial year that it is for, due in
  -- the month that follows it, if the rule names no day 0.
  pub expand_from-AllMonthly :
      100 ≤ start
      → ((m : ℕ) → 1 ≤ day_in day es m)
      → AllMonthly start day es
          (keep (is_month months) year_months)
          (expand_from start (monthly day months es))
  unfolding expand_from
  expand_from-AllMonthly hs hd = monthly_filings-AllMonthly 12 0 hs hd

-- The filing of a listed date: on that very day of the start or the end year.
abbrev pub IsExact : ℕ → FixedDate → Filing → Type 0
IsExact start d f =
    (f.period ≡ d.period)
    × (utc_parts f.due_date
        ≡ record { year = start + d.year_offset; month = d.month - 1; day = d.day })

abbrev pub AllExact : ℕ → List FixedDate → List Filing → Type 0
AllExact start [] [] = Unit
AllExact start (d ∷ ds) (f ∷ fs) = IsExact start d f × AllExact start ds fs
AllExact start _ _ = ⊥

-- A rule of fixed dates expands to its dates, one by one and in their order.
pub expand_from-AllExact :
    (start : ℕ) (dates : List FixedDate)
    → 100 ≤ start
    → All (λ d. IsDayFor d.month d.day) dates
    → AllExact start dates (expand_from start (fixed dates))
unfolding expand_from
expand_from-AllExact start [] hs h = tt
expand_from-AllExact start (d ∷ dates) hs h = (
  (refl, utc_day_exact (start + d.year_offset) d.month d.day (omega arith) h.0),
  expand_from-AllExact start dates hs h.1,
)
