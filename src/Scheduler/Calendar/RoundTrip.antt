-- ===== src/Scheduler/Calendar/RoundTrip.antt =====
-- `Date.UTC` undoes the `getUTC…` readers.
use open_dilim.Prelude.{
  ℕ, zero, suc, ◌+◌, ◌-◌, ◌≤◌, ◌<◌, ◌≡◌, refl, ◌∙◌, arith, ltb→lt, ltb, Bool-cases, inl, inr,
}
use open_dilim.Scheduler.Calendar.{
  year_length, month_length, year_start, month_start, Civil, utc_day, in_month, in_year,
  civil_of_day,
}

day_of : Civil → ℕ
day_of c = utc_day c.year c.month c.date

month_start_next :
    (year month : ℕ)
    → month_start year (suc month) ≡ month_start year month + month_length year month
unfolding month_start
month_start_next year month = refl

year_start_next : (year : ℕ) → year_start (suc year) ≡ year_start year + year_length year
unfolding year_start
year_start_next year = refl

in_month-day_of :
    (left year month day : ℕ)
    → day_of (in_month left year month day) ≡ year_start year + month_start year month + day
unfolding in_month day_of utc_day
in_month-day_of zero year month day = omega arith
in_month-day_of (suc left) year month day =
    let rest = in_month-day_of left year (suc month) (day - month_length year month) in
    let next = month_start_next year month in
    elim (Bool-cases (ltb day (month_length year month))) [
      | inl e ↦ rw e (omega arith)
      | inr e ↦ rw e (ground arith)
    ]

in_january : (year day : ℕ) → day_of (in_month 11 year 0 day) ≡ year_start year + day
in_january year day = in_month-day_of 11 year 0 day ∙ (unfold month_start in omega arith)

in_year-day_of : (rounds year day : ℕ) → day_of (in_year rounds year day) ≡ year_start year + day
unfolding in_year
in_year-day_of zero year day = in_january year day
in_year-day_of (suc rounds) year day =
    let rest = in_year-day_of rounds (suc year) (day - year_length year) in
    let next = year_start_next year in
    elim (Bool-cases (ltb day (year_length year))) [
      | inl e ↦ rw e (in_january year day)
      | inr e ↦ rw e (ground arith)
    ]

abbrev pub IsDate : Civil → Type 0
IsDate c = (c.month ≤ 11) × (1 ≤ c.date) × (c.date ≤ month_length c.year c.month)

in_month-IsDate :
    (left year month day : ℕ)
    → left + month ≡ 11
    → month_start year month + day < month_start year 12
    → IsDate (in_month left year month day)
unfolding in_month
in_month-IsDate zero year month day last within =
    let eleven : month ≡ 11 = omega arith in
    let before : day < month_length year 11 =
      omega (arith, rw eleven at within, month_start_next year 11) in
    (omega arith, omega arith, rw eleven (omega arith))
in_month-IsDate (suc left) year month day last within =
    let rest =
      in_month-IsDate left year (suc month) (day - month_length year month) (omega arith) in
    let next = month_start_next year month in
    elim (Bool-cases (ltb day (month_length year month))) [
      | inl e ↦ rw e (omega arith, omega arith, ground arith)
      | inr e ↦ rw e (rest (ground arith))
    ]

months_of_year : (year : ℕ) → month_start year 12 ≡ year_length year
unfolding month_start month_length year_length
months_of_year year = ground arith

january-IsDate : (year day : ℕ) → day < year_length year → IsDate (in_month 11 year 0 day)
january-IsDate year day within =
    in_month-IsDate 11 year 0 day (omega arith)
      (unfold month_start in omega (arith, months_of_year year))

year_length-positive : (year : ℕ) → 1 ≤ year_length year
unfolding year_length
year_length-positive year = ground arith

in_year-IsDate : (rounds year day : ℕ) → day ≤ rounds → IsDate (in_year rounds year day)
unfolding in_year
in_year-IsDate zero year day enough =
    january-IsDate year day (omega (arith, year_length-positive year))
in_year-IsDate (suc rounds) year day enough =
    let rest = in_year-IsDate rounds (suc year) (day - year_length year) in
    elim (Bool-cases (ltb day (year_length year))) [
      | inl e ↦ rw e (january-IsDate year day (ltb→lt day (year_length year) e))
      | inr e ↦ rw e (rest (omega (arith, year_length-positive year)))
    ]

-- Reading the year, the month and the date of a day gives a date of the calendar, and putting them
-- together again gives the day.
pub utc_day-civil_of_day :
    (day : ℕ)
    → IsDate (civil_of_day day)
      × (utc_day (civil_of_day day).year (civil_of_day day).month (civil_of_day day).date ≡ day)
unfolding civil_of_day
utc_day-civil_of_day day = (
  in_year-IsDate day 0 day (omega arith),
  unfold day_of in in_year-day_of day 0 day ∙ (unfold year_start in omega arith),
)
