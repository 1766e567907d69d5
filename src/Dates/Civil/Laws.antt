-- ===== src/Dates/Civil/Laws.antt =====
-- The day count and the calendar fields determine one another.
use native.Mathlib.Numerals.{add-one}
use tax_professional_managem.Common.{
  ℕ, zero, suc, ◌+◌, ◌-◌, ◌*◌, ◌/◌, ◌%◌, ◌≤◌, ◌<◌, ◌≡◌, refl, Bool, true, false, ltb, inl, inr,
  Bool-cases, ◌==◌, arith, ap, ◌∙◌,
}
use tax_professional_managem.Dates.Civil.{
  CivilDate, is_leap, month_days, days_before_month, days_before_year, day_number, find_year,
  find_month, civil_of_day,
}

abbrev pub year_days : Bool → ℕ
year_days true = 366
year_days false = 365

pub days_before_year-suc :
    (y : ℕ) → days_before_year (y + 1) ≡ days_before_year y + year_days (is_leap y)
unfolding days_before_year is_leap
days_before_year-suc y = ground arith

pub days_before_year_mono : (x y : ℕ) → x ≤ y → days_before_year x ≤ days_before_year y
unfolding days_before_year
days_before_year_mono x y h = omega arith

pub days_before_year-ge : (y : ℕ) → y * 365 ≤ days_before_year y
unfolding days_before_year
days_before_year-ge y = omega arith

pub days_before_year-le : (y : ℕ) → days_before_year y ≤ y * 366
unfolding days_before_year
days_before_year-le y = omega arith

pub days_before_month-twelve : (leap : Bool) → days_before_month leap 12 ≡ year_days leap
unfolding days_before_month month_days
days_before_month-twelve true = refl
days_before_month-twelve false = refl

pub month_days-pos : (leap : Bool) (m : ℕ) → 28 ≤ month_days leap m
unfolding month_days
month_days-pos leap m = ground arith

pub month_days-le : (leap : Bool) (m : ℕ) → month_days leap m ≤ 31
unfolding month_days
month_days-le leap m = ground arith

days_before_month_zero : (leap : Bool) → days_before_month leap 0 ≡ 0
unfolding days_before_month
days_before_month_zero leap = refl

pub days_before_month-suc :
    (leap : Bool) (m : ℕ)
    → days_before_month leap (m + 1) ≡ days_before_month leap m + month_days leap m
unfolding days_before_month
days_before_month-suc leap m = rw add-one

pub days_before_month_mono :
    (leap : Bool) (m M : ℕ) → m ≤ M → days_before_month leap m ≤ days_before_month leap M
days_before_month_mono leap m zero h = grind arith
days_before_month_mono leap m (suc M) h = elim (Bool-cases (m == suc M)) [
  | inl same ↦ grind arith
  | inr less ↦
      let ih = days_before_month_mono leap m M (ground arith) in
      let step = days_before_month-suc leap M in grind arith
]

find_year-eq :
    (fuel y n Y : ℕ)
    → y ≤ Y
    → Y ≤ y + fuel
    → days_before_year Y ≤ n
    → n < days_before_year (Y + 1)
    → find_year fuel y n ≡ Y
unfolding find_year
find_year-eq zero y n Y a b lo hi = omega arith
find_year-eq (suc fuel) y n Y a b lo hi = ground (
  arith,
  find_year-eq fuel (y + 1) n Y,
  days_before_year_mono (y + 1) Y,
  days_before_year_mono (Y + 1) (y + 1),
)

find_month-eq :
    (fuel : ℕ) (leap : Bool) (y m d M D : ℕ)
    → m ≤ M
    → M ≤ m + fuel
    → D < month_days leap M
    → days_before_month leap m + d ≡ days_before_month leap M + D
    → find_month fuel leap y m d ≡ record { year = y; month = M; day = D + 1 }
unfolding find_month
find_month-eq zero leap y m d M D a b c e = grind arith
find_month-eq (suc fuel) leap y m d M D a b c e = elim (Bool-cases (m == M)) [
  | inl same ↦ grind arith
  | inr less ↦
      let past = days_before_month_mono leap (m + 1) M (ground arith) in
      let step = days_before_month-suc leap m in
      ground (arith, find_month-eq fuel leap y (m + 1) (d - month_days leap m) M D)
]

pub day_number-in_year :
    (y m d : ℕ)
    → m < 12
    → day_number y m d ≡ days_before_year y + days_before_month (is_leap y) m + d - 1
unfolding day_number
day_number-in_year y m d h =
    let same_year : y + m / 12 ≡ y = omega arith in
    let same_month : m % 12 ≡ m = omega arith in rw (same_year, same_month)

-- A day of month `m` ends no later than its year.
pub month-fits :
    (leap : Bool) (m d : ℕ)
    → m < 12
    → d ≤ month_days leap m
    → days_before_month leap m + d ≤ year_days leap
month-fits leap m d hm hd = omega (
  arith,
  days_before_month-suc leap m,
  days_before_month_mono leap (m + 1) 12,
  days_before_month-twelve leap,
)

-- The calendar fields of a day number are those that it was made from, when they name a real day.
pub civil_of_day-day_number :
    (y m d : ℕ)
    → m < 12
    → 1 ≤ d
    → d ≤ month_days (is_leap y) m
    → civil_of_day (day_number y m d) ≡ record { year = y; month = m; day = d }
unfolding civil_of_day
civil_of_day-day_number y m d hm hd hl =
    let n = day_number y m d in
    let count = day_number-in_year y m d hm in
    let fits = month-fits (is_leap y) m d hm hl in
    let next = days_before_year-suc y in
    let longest : year_days (is_leap y) ≤ 366 = ground arith in
    let low = days_before_year-ge y in
    let high = days_before_year-le (y + 1) in
    let year : find_year (n + 1) (n / 366) n ≡ y =
      find_year-eq (n + 1) (n / 366) n y (omega arith) (omega arith) (omega arith) (omega arith) in
    rw year (
      find_month-eq 11 (is_leap y) y 0 (n - days_before_year y) m (d - 1) (omega arith)
        (omega arith) (omega arith) (omega (arith, days_before_month_zero (is_leap y)))
      ∙ ap (λ (k : ℕ). record { year = y; month = m; day = k }) (omega arith))

find_year_bounds :
    (fuel y n : ℕ)
    → days_before_year y ≤ n
    → n < days_before_year (y + fuel + 1)
    → let Y = find_year fuel y n in (days_before_year Y ≤ n) × (n < days_before_year (Y + 1))
unfolding find_year
find_year_bounds zero y n lo hi = (lo, grind arith)
find_year_bounds (suc fuel) y n lo hi =
    let shift : y + suc fuel + 1 ≡ y + 1 + fuel + 1 = omega arith in
    let hi' : n < days_before_year (y + 1 + fuel + 1) = rw shift at hi in
    ground (arith, find_year_bounds fuel (y + 1) n)

-- What the search for a month finds: a real day of that month, as many days on.
record IsDayOf (y m d : ℕ) (last : ℕ) (c : CivilDate) : Type 0 where
  same_year : c.year ≡ y
  month_le : c.month ≤ last
  day_pos : 1 ≤ c.day
  day_le : c.day ≤ month_days (is_leap y) c.month
  count : days_before_month (is_leap y) c.month + c.day ≡ days_before_month (is_leap y) m + d + 1

find_month-IsDayOf :
    (fuel y m d : ℕ)
    → days_before_month (is_leap y) m + d < days_before_month (is_leap y) (m + fuel + 1)
    → IsDayOf y m d (m + fuel) (find_month fuel (is_leap y) y m d)
unfolding find_month
find_month-IsDayOf zero y m d h =
    let here : m + 0 + 1 ≡ m + 1 = omega arith in
    let h' : days_before_month (is_leap y) m + d < days_before_month (is_leap y) (m + 1) =
      rw here at h in
    let step = days_before_month-suc (is_leap y) m in
    record {
      same_year = refl;
      month_le = omega arith;
      day_pos = omega arith;
      day_le = omega arith;
      count = omega arith;
    }
find_month-IsDayOf (suc fuel) y m d h =
    let shift : m + suc fuel + 1 ≡ m + 1 + fuel + 1 = omega arith in
    let h' : days_before_month (is_leap y) m + d
        < days_before_month (is_leap y) (m + 1 + fuel + 1) =
      rw shift at h in
    let step = days_before_month-suc (is_leap y) m in
    elim (Bool-cases (ltb d (month_days (is_leap y) m))) [
      | inl found ↦ rw found (record {
        same_year = refl;
        month_le = omega arith;
        day_pos = omega arith;
        day_le = ground arith;
        count = omega arith;
      })
      | inr on ↦
          let later =
            find_month-IsDayOf fuel y (m + 1) (d - month_days (is_leap y) m) (ground arith) in
          rw on (record {
            same_year = later.same_year;
            month_le = omega (arith, later.month_le);
            day_pos = later.day_pos;
            day_le = later.day_le;
            count = ground (arith, later.count);
          })
    ]

-- The calendar fields of day `n` are those of a real day.
pub record IsCivil (c : CivilDate) : Type 0 where
  pub month_lt : c.month < 12
  pub day_pos : 1 ≤ c.day
  pub day_le : c.day ≤ month_days (is_leap c.year) c.month

year_of_day_bounds :
    (n : ℕ)
    → let Y = find_year (n + 1) (n / 366) n in
      (days_before_year Y ≤ n) × (n < days_before_year (Y + 1))
year_of_day_bounds n =
    find_year_bounds (n + 1) (n / 366) n (omega (arith, days_before_year-le (n / 366)))
      (omega (arith, days_before_year-ge (n / 366 + (n + 1) + 1)))

civil_of_day-IsDayOf :
    (n : ℕ)
    → let Y = find_year (n + 1) (n / 366) n in
      IsDayOf Y 0 (n - days_before_year Y) 11 (civil_of_day n)
unfolding civil_of_day
civil_of_day-IsDayOf n =
    let Y = find_year (n + 1) (n / 366) n in
    let (lo, hi) = year_of_day_bounds n in
    find_month-IsDayOf 11 Y 0 (n - days_before_year Y) (
      omega (
        arith,
        days_before_year-suc Y,
        days_before_month-twelve (is_leap Y),
        days_before_month_zero (is_leap Y),
      ))

pub civil_of_day-IsCivil : (n : ℕ) → IsCivil (civil_of_day n)
civil_of_day-IsCivil n =
    let found = civil_of_day-IsDayOf n in
    record {
      month_lt = omega (arith, found.month_le);
      day_pos = found.day_pos;
      day_le = rw found.same_year found.day_le;
    }

-- The day number of the fields of day `n` is `n`.
pub day_number-civil_of_day :
    (n : ℕ) → let c = civil_of_day n in day_number c.year c.month c.day ≡ n
day_number-civil_of_day n =
    let c = civil_of_day n in
    let Y = find_year (n + 1) (n / 366) n in
    let found = civil_of_day-IsDayOf n in
    let (lo, hi) = year_of_day_bounds n in
    rw (day_number-in_year c.year c.month c.day (omega (arith, found.month_le)), found.same_year)
      (omega (arith, found.count, found.day_pos, days_before_month_zero (is_leap Y)))
