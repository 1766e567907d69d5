-- ===== src/Dates/Civil.antt =====
-- `Date.UTC` and the `getUTC…` methods of JavaScript, which common/dates.ts and
-- compliance/due-rules.ts build on. A time value is in milliseconds, counted from 1 January of the
-- year 0 (JavaScript counts from 1970: the same value up to a constant, so that every time that
-- the program meets is a natural number). Months are counted from 0.
pub mod Laws
use tax_professional_managem.Common.{
  ℕ, zero, suc, ◌≡◌, refl, ◌+◌, ◌-◌, ◌*◌, ◌/◌, ◌%◌, Bool, true, false, not, ◌&&◌, ◌||◌, ltb, ◌==◌,
  if◌then◌else◌,
}

-- `24 * 60 * 60 * 1000`
abbrev pub day_ms : ℕ
day_ms = 86400000

pub record CivilDate : Type 0 where
  pub year : ℕ
  -- 0 for January
  pub month : ℕ
  pub day : ℕ

unfoldable pub is_leap : ℕ → Bool
is_leap y = (y % 4 == 0) && (not (y % 100 == 0) || (y % 400 == 0))

abbrev pub february_days : Bool → ℕ
february_days true = 29
february_days false = 28

-- The length of a month, in a leap year or not.
unfoldable pub month_days : Bool → ℕ → ℕ
month_days leap m =
    if m == 1
    then february_days leap
    else if (m == 3) || (m == 5) || (m == 8) || (m == 10)
    then 30
    else 31

-- The days of the months before `m`.
unfoldable pub days_before_month : Bool → ℕ → ℕ
days_before_month leap zero = 0
days_before_month leap (suc m) = days_before_month leap m + month_days leap m

-- The days of the years before `y`.
unfoldable pub days_before_year : ℕ → ℕ
days_before_year y = y * 365 + (y + 3) / 4 - (y + 99) / 100 + (y + 399) / 400

-- The number of days from 1 January of the year 0 to day `d` (from 1) of month `m`. A month past
-- the twelfth is one of the next year, and day 0 is the last day of the month before.
unfoldable pub day_number : ℕ → ℕ → ℕ → ℕ
day_number y m d =
    days_before_year (y + m / 12) + days_before_month (is_leap (y + m / 12)) (m % 12) + d - 1

-- `Date.UTC(y, m, d)`: the years 0 to 99 stand for 1900 to 1999.
unfoldable pub date_utc : ℕ → ℕ → ℕ → ℕ
date_utc y m d = day_number (if ltb y 100 then 1900 + y else y) m d * day_ms

-- The first year from `y` on that does not end by day `n`.
unfoldable pub find_year : ℕ → ℕ → ℕ → ℕ
find_year zero y n = y
find_year (suc fuel) y n =
    let later = find_year fuel (y + 1) n in if ltb n (days_before_year (y + 1)) then y else later

-- The month from `m` on that holds day `d` (from 0), counted from the first of `m`.
unfoldable pub find_month : ℕ → Bool → ℕ → ℕ → ℕ → CivilDate
find_month zero leap y m d = record { year = y; month = m; day = d + 1 }
find_month (suc fuel) leap y m d =
    let later = find_month fuel leap y (m + 1) (d - month_days leap m) in
    if ltb d (month_days leap m) then record { year = y; month = m; day = d + 1 } else later

-- `getUTCFullYear`, `getUTCMonth` and `getUTCDate` of the day `n`. A year has at most 366 days, so
-- the year of day n is n / 366 or later, and n rounds are enough to reach it.
unfoldable pub civil_of_day : ℕ → CivilDate
civil_of_day n =
    let y = find_year (n + 1) (n / 366) n in find_month 11 (is_leap y) y 0 (n - days_before_year y)

-- The same of a time value.
unfoldable pub utc_parts : ℕ → CivilDate
utc_parts t = civil_of_day (t / day_ms)

leap_day : utc_parts (date_utc 2024 2 0) ≡ record { year = 2024; month = 1; day = 29 }
unfolding utc_parts date_utc civil_of_day day_number find_year find_month days_before_year
    days_before_month month_days is_leap
leap_day = refl
