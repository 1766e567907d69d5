-- ===== src/Dates/Laws.antt =====
-- The arithmetic of due dates: the day that counts is the one of the Indian calendar.
use tax_professional_managem.Common.{
  ℕ, ◌+◌, ◌*◌, ◌/◌, ◌%◌, ◌≤◌, ◌<◌, ◌≡◌, ◌↔◌, refl, arith, ltb, Bool-cases, inl, inr, ap, ◌∙◌,
}
use tax_professional_managem.Common.Int.{ℤ, pos, negsuc, neg_part}
use tax_professional_managem.Dates.{ist_offset_ms, start_of_today_ist, add_days, days_between}
use tax_professional_managem.Dates.Civil.{
  day_ms, is_leap, month_days, days_before_year, day_number, date_utc, utc_parts, civil_of_day,
}
use tax_professional_managem.Dates.Civil.Laws.{
  civil_of_day-IsCivil, civil_of_day-day_number, day_number-civil_of_day, days_before_year_mono,
  day_number-in_year, days_before_year-suc, month-fits,
}

-- `Date.UTC` takes a year below 100 for one of the twentieth century.
abbrev pub year_100_ms : ℕ
year_100_ms = 36525 * 86400000

-- A due date is a calendar day, stored as UTC midnight of that day.
abbrev pub IsMidnight : ℕ → Type 0
IsMidnight t = t % day_ms ≡ 0

pub date_utc-day_number : (y m d : ℕ) → 100 ≤ y → date_utc y m d ≡ day_number y m d * day_ms
unfolding date_utc
date_utc-day_number y m d h = ground arith

-- The fields of a date are those that `Date.UTC` made it from.
pub utc_parts-date_utc :
    (y m d : ℕ)
    → 100 ≤ y
    → m < 12
    → 1 ≤ d
    → d ≤ month_days (is_leap y) m
    → utc_parts (date_utc y m d) ≡ record { year = y; month = m; day = d }
unfolding utc_parts
utc_parts-date_utc y m d hy hm hd hl =
    let whole : day_number y m d * day_ms / day_ms ≡ day_number y m d = omega arith in
    rw (date_utc-day_number y m d hy, whole) (civil_of_day-day_number y m d hm hd hl)

days_before_year_100 : days_before_year 100 ≡ 36525
unfolding days_before_year
days_before_year_100 = refl

year_of_day-ge : (n : ℕ) → 36525 ≤ n → 100 ≤ (civil_of_day n).year
year_of_day-ge n h =
    let c = civil_of_day n in
    let valid = civil_of_day-IsCivil n in
    let whole = day_number-civil_of_day n in
    let parts = day_number-in_year c.year c.month c.day valid.month_lt in
    let fits = month-fits (is_leap c.year) c.month c.day valid.month_lt valid.day_le in
    let next = days_before_year-suc c.year in
    let first = valid.day_pos in
    elim (Bool-cases (ltb c.year 100)) [
      | inl early ↦
          absurd (ground (arith, days_before_year_mono (c.year + 1) 100, days_before_year_100))
      | inr late ↦ ground arith
    ]

pub start_of_today_ist_lem :
    (now : ℕ) → year_100_ms ≤ now → start_of_today_ist now ≡ (now + ist_offset_ms) / day_ms * day_ms
unfolding start_of_today_ist utc_parts
start_of_today_ist_lem now h =
    let n = (now + ist_offset_ms) / day_ms in
    let c = civil_of_day n in
    date_utc-day_number c.year c.month c.day (year_of_day-ge n (omega arith))
    ∙ ap (λ (k : ℕ). k * day_ms) (day_number-civil_of_day n)

-- A filing counts as overdue exactly from the moment when its due date is over in India.
pub overdue_iff :
    (now due : ℕ)
    → year_100_ms ≤ now
    → IsMidnight due
    → (due < start_of_today_ist now) ↔ (due + day_ms ≤ now + ist_offset_ms)
overdue_iff now due h whole =
    let today = start_of_today_ist_lem now h in (λ before. omega arith, λ over. omega arith)

pub start_of_today_ist-IsMidnight :
    (now : ℕ) → year_100_ms ≤ now → IsMidnight (start_of_today_ist now)
start_of_today_ist-IsMidnight now h = omega (arith, start_of_today_ist_lem now h)

-- Counting the days up to a date moved by `n` days gives `n` back, for either sign of `n`.
pub days_between-add_days :
    (date : ℕ) (n : ℤ) → neg_part n * day_ms ≤ date → days_between date (add_days date n) ≡ n
unfolding days_between add_days
days_between-add_days date (pos n) h = ground arith
days_between-add_days date (negsuc n) h = ground arith

-- Between two calendar days the count is negative exactly when the second is the earlier one.
pub days_between-neg_iff :
    (from to : ℕ)
    → IsMidnight from
    → IsMidnight to
    → (neg_part (days_between from to) ≡ 0) ↔ (from ≤ to)
unfolding days_between
days_between-neg_iff from to hf ht = (λ e. ground arith, λ le. ground arith)
