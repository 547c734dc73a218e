-- ===== src/Engine/Date/Tests.antt =====
-- The laws of dates at concrete days.
use run_alex_db.Common.{◌≡◌, refl, ◌>>=◌, arith}
use run_alex_db.Common.Int.{pos, negsuc, add_ℤ}
use run_alex_db.Engine.Date.{days_to_ymd, ymd_to_days, year_loop, month_loop, days_in_year, is_leap}
use run_alex_db.Engine.Date.Calendar.{ymd_to_days-days_to_ymd}
use run_alex_db.Engine.Date.Text.{date_add_days, date_of_day}
use run_alex_db.Engine.Date.Text.Sums.{date_add_days-date_add_days}

-- A day in a leap year.
leap_day : days_to_ymd 59 ≡ (1970, 3, 1)
unfolding days_to_ymd year_loop month_loop days_in_year is_leap
leap_day = refl

ymd_to_days-days_to_ymd_example :
    ymd_to_days (pos (days_to_ymd 20000).0) (pos (days_to_ymd 20000).1) (pos (days_to_ymd 20000).2)
    ≡ pos 20000
ymd_to_days-days_to_ymd_example = ymd_to_days-days_to_ymd 20000 (omega arith)

date_add_days-date_add_days_example :
    (date_add_days (date_of_day (pos 365)) (negsuc 64) >>= (λ date. date_add_days date (pos 400)))
    ≡ date_add_days (date_of_day (pos 365)) (add_ℤ (negsuc 64) (pos 400))
date_add_days-date_add_days_example =
    date_add_days-date_add_days 365 300 (negsuc 64) (pos 400) (omega arith) (omega arith) refl
