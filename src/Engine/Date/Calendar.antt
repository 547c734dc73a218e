-- ===== src/Engine/Date/Calendar.antt =====
-- Days and dates are each other's inverse.
use run_alex_db.Common.{
  ℕ, zero, suc, ◌+◌, ◌-◌, ◌*◌, ◌^◌, ◌≤◌, ◌<◌, ◌≡◌, refl, ap, ◌∙◌, arith, List, [], ◌∷◌,
}
use run_alex_db.Common.{
  Bool, false, Bool-cases, inl, inr, if◌then◌else◌, ltb, ltb→lt, ltb→le, get_or, length, All,
}
use run_alex_db.Common.Int.{pos, sub_ℤ, ltb_ℤ, wrap_i64, to_u64, of_u64}
use run_alex_db.Engine.Date.{
  is_leap, days_in_year, month_lengths, year_loop, month_loop, days_to_ymd, years_from, sum_first,
  days_to_year, days_to_month, day_number, ymd_to_days,
}

-- The loop over years ends within its fuel: the days left are less than a year, and those of the years
-- passed make up the rest.
years_from-suc : (k : ℕ) → years_from (suc k) ≡ years_from k + days_in_year (1970 + k)
unfolding years_from
years_from-suc k = refl

years_from-zero : years_from 0 ≡ 0
unfolding years_from
years_from-zero = refl

year_loop_lem :
    (fuel k rem : ℕ)
    → rem < fuel
    → (j : ℕ) × (r : ℕ) × (year_loop fuel (1970 + k) rem ≡ (1970 + j, r))
      × (years_from j + r ≡ years_from k + rem)
      × (r < days_in_year (1970 + j))
      × (k ≤ j)
unfolding year_loop
year_loop_lem zero k rem h = absurd (omega arith)
year_loop_lem (suc fuel) k rem h = elim (Bool-cases (ltb rem (days_in_year (1970 + k)))) [
  | inl last ↦ (k, rem, rw last refl, refl, ltb→lt _ _ last, omega arith)
  | inr more ↦
      let yd : 1 ≤ days_in_year (1970 + k) = unfold days_in_year in ground arith in
      let large : days_in_year (1970 + k) ≤ rem = ltb→le _ _ more in
      let (j, r, e, total, small, up) =
        year_loop_lem fuel (suc k) (rem - days_in_year (1970 + k)) (omega arith) in
      (
        j,
        r,
        rw more (ap (λ y. year_loop fuel y (rem - days_in_year (1970 + k))) (omega arith) ∙ e),
        omega (arith, years_from-suc k, total),
        small,
        omega arith,
      )
]

sum_first-zero : (l : List ℕ) → sum_first l 0 ≡ 0
unfolding sum_first
sum_first-zero l = refl

sum_first-cons : (x : ℕ) (l : List ℕ) (k : ℕ) → sum_first (x ∷ l) (suc k) ≡ x + sum_first l k
unfolding sum_first
sum_first-cons x l zero = omega arith
sum_first-cons x l (suc k) = omega (arith, sum_first-cons x l k)

month_loop_lem :
    (l : List ℕ) (mo rem : ℕ)
    → rem < sum_first l (length l)
    → (i : ℕ) × (r : ℕ) × (month_loop l mo rem ≡ (mo + i, r))
      × (sum_first l i + r ≡ rem)
      × (r < get_or l i 30)
      × (i < length l)
unfolding month_loop
month_loop_lem [] mo rem h = absurd (omega (arith, sum_first-zero []))
month_loop_lem (md ∷ l) mo rem h = elim (Bool-cases (ltb rem md)) [
  | inl last ↦ (
    0,
    rem,
    rw last (ap (λ m. (m, rem)) (omega arith)),
    omega (arith, sum_first-zero (md ∷ l)),
    ltb→lt _ _ last,
    omega arith,
  )
  | inr more ↦
      let large : md ≤ rem = ltb→le _ _ more in
      let (i, r, e, total, small, inside) =
        month_loop_lem l (mo + 1) (rem - md) (omega (arith, sum_first-cons md l (length l), h)) in
      (
        suc i,
        r,
        rw more (e ∙ ap (λ m. (m, r)) (omega arith)),
        omega (arith, sum_first-cons md l i),
        small,
        omega arith,
      )
]

-- The months of a year make up the year.
twelve_months : (y : ℕ) → sum_first (month_lengths (is_leap y)) 12 ≡ days_in_year y
unfolding sum_first days_in_year
twelve_months y = elim (Bool-cases (is_leap y)) [
  | inl leap ↦ rw leap refl
  | inr common ↦ rw common refl
]

-- What `days_to_ymd` finds, for every number of days: the loops end, and the day it names is so many days
-- from the start of 1970.
pub record IsDate (days : ℕ) : Type 0 where
  pub years : ℕ
  pub months : ℕ
  pub day : ℕ
  pub found : days_to_ymd days ≡ (1970 + years, 1 + months, day + 1)
  pub month_in : months < 12
  pub day_in : day < get_or (month_lengths (is_leap (1970 + years))) months 30
  pub counts :
      years_from years + (sum_first (month_lengths (is_leap (1970 + years))) months + day) ≡ days

date_of_loops :
    (days y rem mo d : ℕ)
    → year_loop (suc days) 1970 days ≡ (y, rem)
    → month_loop (month_lengths (is_leap y)) 1 rem ≡ (mo, d)
    → days_to_ymd days ≡ (y, mo, d + 1)
unfolding days_to_ymd
date_of_loops days y rem mo d h h' = rw h (rw h' refl)

pub days_to_ymd-IsDate : (days : ℕ) → IsDate days
days_to_ymd-IsDate days =
    let (j, r, e, total, small, up) = year_loop_lem (suc days) 0 days (omega arith) in
    let (i, d, e', total', small', inside) =
      month_loop_lem (month_lengths (is_leap (1970 + j))) 1 r
        (omega (arith, twelve_months (1970 + j))) in
    record {
      years = j;
      months = i;
      day = d;
      found = date_of_loops days _ _ _ _ e e';
      month_in = inside;
      day_in = small';
      counts = omega (arith, years_from-zero);
    }

-- The numbers of a date are in range.
years_from-le : (k : ℕ) → 2 * k ≤ years_from k
years_from-le zero = omega arith
years_from-le (suc k) =
    let positive : 2 ≤ days_in_year (1970 + k) = unfold days_in_year in ground arith in
    omega (arith, years_from-suc k, years_from-le k)

get_or-le : (l : List ℕ) (i d k : ℕ) → All (λ x. x ≤ k) l → d ≤ k → get_or l i d ≤ k
get_or-le [] i d k hs h = h
get_or-le (x ∷ l) zero d k (hx, hs) h = hx
get_or-le (x ∷ l) (suc i) d k (hx, hs) h = get_or-le l i d k hs h

month_length-le : (leap : Bool) (i : ℕ) → get_or (month_lengths leap) i 30 ≤ 31
month_length-le leap i =
    let feb : (if leap then 29 else 28) ≤ 31 = ground arith in
    get_or-le (month_lengths leap) i 30 31
      ((
        omega arith,
        (
          feb,
          (
            omega arith,
            (
              omega arith,
              (
                omega arith,
                (
                  omega arith,
                  (
                    omega arith,
                    (omega arith, (omega arith, (omega arith, (omega arith, (omega arith, tt))))),
                  ),
                ),
              ),
            ),
          ),
        ),
      ))
      (omega arith)

month_rounds : (i : ℕ) → i < 12 → to_u64 (sub_ℤ (pos (1 + i)) (pos 1)) ≡ i
unfolding to_u64
month_rounds i h = ground arith

days_to_year_from : (j : ℕ) → days_to_year (pos (1970 + j)) ≡ pos (years_from j)
unfolding days_to_year
days_to_year_from j =
    let past : 1970 + j - 1970 ≡ j = omega arith in
    let late : ltb_ℤ (pos (1970 + j)) (pos 1970) ≡ false = ground arith in rw (late, past) refl

days_to_month_from :
    (y i : ℕ)
    → i < 12
    → days_to_month (pos y) (pos (1 + i)) ≡ sum_first (month_lengths (is_leap y)) i
unfolding days_to_month
days_to_month_from y i h =
    ap (λ z. sum_first (month_lengths (is_leap z)) (to_u64 (sub_ℤ (pos (1 + i)) (pos 1))))
      (omega arith)
    ∙ ap (sum_first (month_lengths (is_leap y))) (month_rounds i h)

day_number_from :
    (a b d : ℕ) → a + (b + d) < 2 ^ 63 → day_number (pos a) b (pos (d + 1)) ≡ pos (a + (b + d))
unfolding day_number wrap_i64 to_u64 of_u64
day_number_from a b d h = ground arith

ymd_to_days-date :
    (j i d : ℕ)
    → i < 12
    → years_from j + (sum_first (month_lengths (is_leap (1970 + j))) i + d) < 2 ^ 63
    → ymd_to_days (pos (1970 + j)) (pos (1 + i)) (pos (d + 1))
      ≡ pos (years_from j + (sum_first (month_lengths (is_leap (1970 + j))) i + d))
unfolding ymd_to_days
ymd_to_days-date j i d hi small =
    rw (days_to_year_from j, days_to_month_from (1970 + j) i hi) (day_number_from _ _ d small)

pub date_small :
    (days : ℕ)
    → days < 2 ^ 63
    → ((days_to_ymd days).0 < 2 ^ 63)
      × ((days_to_ymd days).1 < 2 ^ 63)
      × ((days_to_ymd days).2 < 2 ^ 63)
date_small days h =
    let date = days_to_ymd-IsDate days in
    let late = month_length-le (is_leap (1970 + date.years)) date.months in
    rw date.found (
      omega (arith, years_from-le date.years, date.counts),
      omega (arith, date.month_in),
      omega (arith, late, date.day_in),
    )

-- Going from a number of days since 1970 to a date and back gives the days again: for every number of days
-- that an `i64` holds. So both loops of `days_to_ymd` end with a date, and two numbers of days never have
-- the same date.
pub ymd_to_days-days_to_ymd :
    (days : ℕ)
    → days < 2 ^ 63
    → ymd_to_days (pos (days_to_ymd days).0) (pos (days_to_ymd days).1) (pos (days_to_ymd days).2)
      ≡ pos days
ymd_to_days-days_to_ymd days h =
    let date = days_to_ymd-IsDate days in
    rw date.found (
      ymd_to_days-date date.years date.months date.day date.month_in (omega (arith, date.counts))
      ∙ ap pos date.counts)
