-- ===== src/Dates.antt =====
-- apps/api/src/common/dates.ts. A `Date` is a time value as in `Dates.Civil`.
pub mod Civil
pub mod Laws
use tax_professional_managem.Common.{ℕ, ◌+◌, ◌-◌, ◌*◌, ◌/◌, leb, if◌then◌else◌}
use tax_professional_managem.Common.Int.{ℤ, pos, pos_part, neg_part, sub_ℕ}
use Civil.{day_ms, date_utc, utc_parts}

-- `5.5 * 60 * 60 * 1000`
abbrev pub ist_offset_ms : ℕ
ist_offset_ms = 19800000

unfoldable pub start_of_today_ist : ℕ → ℕ
start_of_today_ist now =
    let ist = utc_parts (now + ist_offset_ms) in date_utc ist.year ist.month ist.day

unfoldable pub add_days : ℕ → ℤ → ℕ
add_days date days = date + pos_part days * day_ms - neg_part days * day_ms

-- `Math.round` takes a half upwards: -1.5 to -1.
unfoldable pub days_between : ℕ → ℕ → ℤ
days_between from to =
    if leb from to
    then pos ((2 * (to - from) + day_ms) / (2 * day_ms))
    else sub_ℕ 0 ((2 * (from - to) + day_ms - 1) / (2 * day_ms))
