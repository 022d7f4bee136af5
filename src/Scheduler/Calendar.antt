-- ===== src/Scheduler/Calendar.antt =====
-- The civil calendar behind `Date.UTC` and `getUTC…` (used by src/scheduler/schedule.ts), from 1970
-- on. A year is counted from 1970 and a month from 0; a day is counted from the epoch.
pub mod RoundTrip
use open_dilim.Prelude.{
  ℕ, zero, suc, ◌+◌, ◌-◌, ◌*◌, ◌/◌, ◌%◌, Bool, true, false, not, ◌&&◌, ◌||◌, ltb, ◌==◌,
  if◌then◌else◌,
}

abbrev pub ms_per_minute : ℕ
ms_per_minute = 60000

abbrev pub ms_per_hour : ℕ
ms_per_hour = 3600000

abbrev pub ms_per_day : ℕ
ms_per_day = 86400000

unfoldable pub is_leap : ℕ → Bool
is_leap year = let y = 1970 + year in y % 4 == 0 && (not (y % 100 == 0) || y % 400 == 0)

unfoldable pub year_length : ℕ → ℕ
unfolding is_leap
year_length year = if is_leap year then 366 else 365

unfoldable pub month_length : ℕ → ℕ → ℕ
unfolding is_leap
month_length year month =
    if month == 1
    then (if is_leap year then 29 else 28)
    else if month == 3 || month == 5 || month == 8 || month == 10
    then 30
    else 31

-- The days before a year, and before a month of a year.
unfoldable pub year_start : ℕ → ℕ
unfolding year_length
year_start zero = 0
year_start (suc year) = year_start year + year_length year

unfoldable pub month_start : ℕ → ℕ → ℕ
unfolding month_length
month_start year zero = 0
month_start year (suc month) = month_start year month + month_length year month

pub record Civil : Type 0 where
  pub year : ℕ
  pub month : ℕ
  pub date : ℕ

-- `Date.UTC(year, month, date)` in days: a date past the end of the month rolls over.
unfoldable pub utc_day : ℕ → ℕ → ℕ → ℕ
unfolding year_start month_start
utc_day year month date = year_start year + month_start year month + date - 1

-- The month that holds a day of the year, among the months left.
in_month : ℕ → ℕ → ℕ → ℕ → Civil
unfolding month_length
in_month zero year month day = record { year = year; month = month; date = day + 1 }
in_month (suc left) year month day =
    let next = in_month left year (suc month) (day - month_length year month) in
    if ltb day (month_length year month)
    then record { year = year; month = month; date = day + 1 }
    else next

-- Each year takes at least one day, so as many rounds as days are enough.
in_year : ℕ → ℕ → ℕ → Civil
unfolding year_length in_month
in_year zero year day = in_month 11 year 0 day
in_year (suc rounds) year day =
    let next = in_year rounds (suc year) (day - year_length year) in
    if ltb day (year_length year) then in_month 11 year 0 day else next

-- `getUTCFullYear`, `getUTCMonth` and `getUTCDate` of a day.
unfoldable pub civil_of_day : ℕ → Civil
unfolding in_year
civil_of_day day = in_year day 0 day

-- `getUTCDay`: 0 is Sunday; the epoch was a Thursday.
unfoldable pub weekday : ℕ → ℕ
weekday day = (day + 4) % 7
