-- ===== src/Engine/Date.antt =====
-- src/engine.rs: days and calendar dates. An `i64` operation wraps around; where a loop adds up days, the
-- wrap-around of the sum is that of its steps.
pub mod Calendar
pub mod Text
mod Tests
use run_alex_db.Common.{ℕ, zero, suc, ◌+◌, ◌-◌, ◌%◌, List, [], ◌∷◌, Bool, ◌&&◌, ◌||◌, not}
use run_alex_db.Common.{if◌then◌else◌, ltb, ◌==◌, get_or}
use run_alex_db.Common.Int.{
  ℤ, pos, negsuc, pos_part, neg_part, add_ℤ, sub_ℤ, sub_ℕ, ltb_ℤ, magnitude, wrap_i64, to_u64,
}

unfoldable pub is_leap : ℕ → Bool
is_leap y = (y % 4 == 0) && not (y % 100 == 0) || (y % 400 == 0)

unfoldable pub days_in_year : ℕ → ℕ
days_in_year y = if is_leap y then 366 else 365

-- `mdays`.
abbrev pub month_lengths : Bool → List ℕ
month_lengths leap =
    31 ∷ (if leap then 29 else 28) ∷ 31 ∷ 30 ∷ 31 ∷ 30 ∷ 31 ∷ 31 ∷ 30 ∷ 31 ∷ 30 ∷ 31 ∷ []

-- The loop over years: the year in which the days run out, and how many are left. Each round but the last
-- takes 365 days at least.
unfoldable pub year_loop : ℕ → ℕ → ℕ → ℕ × ℕ
year_loop zero y rem = (y, rem)
year_loop (suc fuel) y rem =
    let later = year_loop fuel (y + 1) (rem - days_in_year y) in
    if ltb rem (days_in_year y) then (y, rem) else later

unfoldable pub month_loop : List ℕ → ℕ → ℕ → ℕ × ℕ
month_loop [] mo rem = (mo, rem)
month_loop (md ∷ mds) mo rem =
    let later = month_loop mds (mo + 1) (rem - md) in if ltb rem md then (mo, rem) else later

-- `days_to_ymd`: year, month and day.
unfoldable pub days_to_ymd : ℕ → ℕ × ℕ × ℕ
days_to_ymd days =
    let (y, rem) = year_loop (suc days) 1970 days in
    let (mo, rem) = month_loop (month_lengths (is_leap y)) 1 rem in (y, mo, rem + 1)

-- The days of the first `k` years from 1970 on.
unfoldable pub years_from : ℕ → ℕ
years_from zero = 0
years_from (suc k) = years_from k + days_in_year (1970 + k)

-- The days of the `k` years before 1970; whether a year is a leap year does not depend on its sign.
unfoldable pub years_before : ℕ → ℕ
years_before zero = 0
years_before (suc k) = years_before k + days_in_year (magnitude (sub_ℕ 1969 k))

-- The days of the first `k` months: past December a month has 30.
unfoldable pub sum_first : List ℕ → ℕ → ℕ
sum_first mdays zero = 0
sum_first mdays (suc k) = sum_first mdays k + get_or mdays k 30

-- The days from 1970 to the start of a year, less than nothing for an earlier one.
unfoldable pub days_to_year : ℤ → ℤ
days_to_year y =
    if ltb_ℤ y (pos 1970)
    then sub_ℕ 0 (years_before (pos_part (sub_ℤ (pos 1970) y)))
    else pos (years_from (pos_part y - 1970))

-- The loop over months runs `(m - 1) as usize` times: for a month below 1 that is close to 2 ^ 64.
unfoldable pub days_to_month : ℤ → ℤ → ℕ
days_to_month y m = sum_first (month_lengths (is_leap (magnitude y))) (to_u64 (sub_ℤ m (pos 1)))

-- `days + d - 1`.
unfoldable pub day_number : ℤ → ℕ → ℤ → ℤ
day_number years months d = wrap_i64 (sub_ℤ (add_ℤ (add_ℤ years (pos months)) d) (pos 1))

unfoldable pub ymd_to_days : ℤ → ℤ → ℤ → ℤ
ymd_to_days y m d = day_number (days_to_year y) (days_to_month y m) d
