-- ===== src/Engine/Date/Text.antt =====
-- src/engine.rs: dates as texts, sums of dates and DATE_FORMAT; `none` is the source's `None`, and in
-- `mysql_date_format` a panic.
pub mod Sums
use run_alex_db.Common.{
  ℕ, zero, suc, ◌+◌, ◌-◌, Option, none, some, List, [], ◌∷◌, ◌++◌, Bool, true, false, ◌>>=◌, ◌&&◌,
  ◌||◌,
}
use run_alex_db.Common.{if◌then◌else◌, ltb, leb, ◌==◌, get_or, get_elem?, take, ◌>>◌, guard}
use run_alex_db.Common.Int.{
  ℤ, pos, negsuc, add_ℤ, sub_ℤ, mul_ℤ, neg_ℤ, div_ℤ, mod_ℤ, eqb_ℤ, ltb_ℤ, pos_part, magnitude,
  wrap_i64, to_u64,
}
use run_alex_db.Common.Dict.{Str, str}
use run_alex_db.Common.Decimal.{show_ℤ, parse_i64, padded_ℤ}
use run_alex_db.Common.Text.{split_at_first}
use run_alex_db.Common.Ascii.{trim, first_word}
use run_alex_db.Engine.Date.{month_lengths, is_leap, days_to_ymd, ymd_to_days, sum_first}

-- `s.splitn(n, c)`.
unfoldable pub splitn : ℕ → ℕ → Str → List Str
splitn zero c s = []
splitn (suc zero) c s = s ∷ []
splitn (suc (suc n)) c s = elim (split_at_first c s) [
  | none ↦ s ∷ []
  | some (l, r) ↦ l ∷ splitn (suc n) c r
]

-- The three numbers of a list of three texts.
unfoldable pub three_numbers : List Str → Option (ℤ × ℤ × ℤ)
three_numbers (a ∷ b ∷ c ∷ []) = do
  y ← parse_i64 a
  m ← parse_i64 b
  d ← parse_i64 c
  some (y, m, d)
three_numbers parts = none

-- Year, month and day of the first word of a text.
unfoldable pub parse_ymd : Str → Option (ℤ × ℤ × ℤ)
unfolding three_numbers
parse_ymd s = do date_part ← first_word (trim s); three_numbers (splitn 3 b'-' date_part)

unfoldable pub parse_date_str : Str → Option ℤ
parse_date_str s = do (y, m, d) ← parse_ymd s; some (ymd_to_days y m d)

unfoldable pub format_date_ymd : ℤ → ℤ → ℤ → Str
format_date_ymd y m d = padded_ℤ 4 y ++ (b'-' ∷ (padded_ℤ 2 m ++ (b'-' ∷ padded_ℤ 2 d)))

-- The date of a day, as `date_add_days` writes it: from the year 1970 on it is that of `days_to_ymd`, and
-- before it the date of the mirrored day, taken from 1970, 13 and kept.
unfoldable pub date_of_day : ℤ → Str
date_of_day (pos n) = let (y, mo, d) = days_to_ymd n in format_date_ymd (pos y) (pos mo) (pos d)
date_of_day (negsuc n) =
    let (y, mo, d) = days_to_ymd n in
    format_date_ymd (sub_ℤ (pos 1970) (pos y)) (sub_ℤ (pos 13) (pos mo)) (pos d)

unfoldable pub date_add_days : Str → ℤ → Option Str
date_add_days date_str delta_days = do
  base ← parse_date_str date_str
  some (date_of_day (wrap_i64 (add_ℤ base delta_days)))

-- The day of the month, or the month's last day if that is earlier; 30 where there is no such month.
unfoldable pub clamp_day : ℤ → ℤ → ℤ → ℤ
clamp_day ny nm d =
    let max_d =
      pos (get_or (month_lengths (is_leap (magnitude ny))) (to_u64 (sub_ℤ nm (pos 1))) 30) in
    if ltb_ℤ max_d d then max_d else d

unfoldable pub add_months : Str → ℤ → Option Str
unfolding clamp_day
add_months date_str months = do
  (y, m, d) ← parse_ymd date_str
  let total = wrap_i64 (add_ℤ (add_ℤ (mul_ℤ y (pos 12)) (sub_ℤ m (pos 1))) months)
  let ny = div_ℤ total (pos 12)
  let nm = add_ℤ (mod_ℤ total (pos 12)) (pos 1)
  some (format_date_ymd ny nm (clamp_day ny nm d))

-- `filter_map(|p| p.parse().ok())`.
unfoldable pub parse_all : List Str → List ℤ
parse_all [] = []
parse_all (p ∷ ps) =
    let rest = parse_all ps in elim (parse_i64 p) [ none ↦ rest | some n ↦ n ∷ rest ]

-- `p.split('.').next()` of each part.
unfoldable pub before_dots : List Str → List Str
before_dots [] = []
before_dots (p ∷ ps) = elim (split_at_first b'.' p) [ none ↦ p | some (l, r) ↦ l ] ∷ before_dots ps

abbrev pub weekday_names : List Str
weekday_names =
    str "Sunday"
    ∷ str "Monday"
    ∷ str "Tuesday"
    ∷ str "Wednesday"
    ∷ str "Thursday"
    ∷ str "Friday"
    ∷ str "Saturday"
    ∷ []

abbrev pub month_names : List Str
month_names =
    str "January"
    ∷ str "February"
    ∷ str "March"
    ∷ str "April"
    ∷ str "May"
    ∷ str "June"
    ∷ str "July"
    ∷ str "August"
    ∷ str "September"
    ∷ str "October"
    ∷ str "November"
    ∷ str "December"
    ∷ []

-- `0 = Sunday`, from the days since 1970.
unfoldable pub weekday : Str → Str
weekday date =
    let total_days : ℤ = elim (parse_date_str date) [ none ↦ pos 0 | some n ↦ n ] in
    let r = mod_ℤ (add_ℤ (mod_ℤ total_days (pos 7)) (pos 4)) (pos 7) in
    get_or weekday_names (pos_part (mod_ℤ (add_ℤ r (pos 7)) (pos 7))) []

-- The fields of a date and a time.
pub record Fields : Type 0 where
  pub date : Str
  pub y : ℤ
  pub m : ℤ
  pub d : ℤ
  pub h : ℤ
  pub mi : ℤ
  pub sec : ℤ

unfoldable pub fields_of : Str → Fields
unfolding parse_all before_dots
fields_of date_str =
    let parts = splitn 2 b' ' (trim date_str) in
    let date = get_or parts 0 [] in
    let dp = parse_all (splitn 3 b'-' date) in
    let tp = parse_all (before_dots (splitn 3 b':' (get_or parts 1 (str "00:00:00")))) in
    record {
      date = date;
      y = get_or dp 0 (pos 0);
      m = get_or dp 1 (pos 0);
      d = get_or dp 2 (pos 0);
      h = get_or tp 0 (pos 0);
      mi = get_or tp 1 (pos 0);
      sec = get_or tp 2 (pos 0);
    }

-- The name of month `m`, if there is one.
abbrev month_name : ℤ → Str
month_name m =
    if ltb_ℤ (pos 0) m && ltb_ℤ m (pos 13) then get_or month_names (pos_part m - 1) [] else []

abbrev clock_hour : ℤ → ℤ
clock_hour h = if eqb_ℤ (mod_ℤ h (pos 12)) (pos 0) then pos 12 else mod_ℤ h (pos 12)

-- The day of the year for `%j`: the months before are those of a common year, and past December there is
-- none to index.
unfoldable pub day_of_year : ℤ → ℤ → Option ℤ
day_of_year m d = do
  guard (leb (pos_part m) 13)
  some (wrap_i64 (add_ℤ (pos (sum_first (month_lengths false) (pos_part m - 1))) d))

-- What one letter behind `%` stands for.
unfoldable pub format_code : Fields → ℕ → Option Str
unfolding weekday day_of_year
format_code f c =
    if c == b'Y'
    then some (padded_ℤ 4 f.y)
    else if c == b'y'
    then some (padded_ℤ 2 (mod_ℤ f.y (pos 100)))
    else if c == b'm'
    then some (padded_ℤ 2 f.m)
    else if c == b'c'
    then some (show_ℤ f.m)
    else if c == b'd'
    then some (padded_ℤ 2 f.d)
    else if c == b'e'
    then some (show_ℤ f.d)
    else if c == b'H'
    then some (padded_ℤ 2 f.h)
    else if (c == b'h') || (c == b'I')
    then some (padded_ℤ 2 (clock_hour f.h))
    else if c == b'i'
    then some (padded_ℤ 2 f.mi)
    else if (c == b's') || (c == b'S')
    then some (padded_ℤ 2 f.sec)
    else if c == b'p'
    then some (if ltb_ℤ f.h (pos 12) then str "AM" else str "PM")
    else if c == b'M'
    then some (month_name f.m)
    else if c == b'b'
    then some (take 3 (month_name f.m))
    else if c == b'j'
    then (do n ← day_of_year f.m f.d; some (padded_ℤ 3 n))
    else if c == b'W'
    then some (weekday f.date)
    else if c == b'a'
    then some (take 3 (weekday f.date))
    else if c == b'%'
    then some (b'%' ∷ [])
    else some (b'%' ∷ c ∷ [])

-- The loop over the characters of the format.
unfoldable pub format_loop : Fields → Str → Option Str
unfolding format_code
format_loop f [] = some []
format_loop f (c ∷ []) = some (c ∷ [])
format_loop f (c ∷ k ∷ fmt) =
    let plain = format_loop f (k ∷ fmt) in
    let coded = format_loop f fmt in
    if c == b'%'
    then (do s ← format_code f k; rest ← coded; some (s ++ rest))
    else (do rest ← plain; some (c ∷ rest))

unfoldable pub mysql_date_format : Str → Str → Option Str
unfolding fields_of format_loop
mysql_date_format date_str fmt = format_loop (fields_of date_str) fmt
