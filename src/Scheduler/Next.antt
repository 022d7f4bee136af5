-- ===== src/Scheduler/Next.antt =====
-- The next instant at which a cron expression fires (nextRunAfter and matchesDay of
-- src/scheduler/schedule.ts). Instants are milliseconds since the epoch, from 1970 on.
pub mod Days
pub mod Earliest
use open_dilim.Prelude.{
  ℕ, zero, suc, ◌+◌, ◌-◌, ◌*◌, ◌/◌, Bool, true, false, not, ◌&&◌, ◌||◌, Option, none, some, List,
  [], ◌∷◌, ◌++◌, any, ltb, ◌==◌, if◌then◌else◌,
}
use open_dilim.Prelude.Text.{Text, codes}
use open_dilim.Prelude.Decimal.{show}
use open_dilim.Task.{Result, ok, thrown}
use open_dilim.Scheduler.Calendar.{
  ms_per_minute, ms_per_hour, ms_per_day, Civil, utc_day, civil_of_day, weekday,
}
use open_dilim.Scheduler.Cron.{CronSpec, ◌>>=◌, parse_cron, cron_error}

abbrev pub vn_utc_offset_minutes : ℕ
vn_utc_offset_minutes = 420

abbrev pub max_days_ahead : ℕ
max_days_ahead = 366 * 8

unfoldable pub includes : List ℕ → ℕ → Bool
includes values value = any (λ v. v == value) values

unfoldable pub matches_day : CronSpec → ℕ → Bool
unfolding includes civil_of_day weekday
matches_day spec day =
    let date = civil_of_day day in
    let dom_hit = includes spec.day_of_month date.date in
    let dow_hit = includes spec.day_of_week (weekday day) in
    if includes spec.month (date.month + 1)
    then (if spec.dom_unrestricted && spec.dow_unrestricted
        then true
        else if spec.dom_unrestricted
        then dow_hit
        else if spec.dow_unrestricted
        then dom_hit
        else dom_hit || dow_hit)
    else false

-- The loop over the minutes: the first candidate that is not too early.
unfoldable pub first_minute : ℕ → ℕ → List ℕ → Option ℕ
first_minute hour_start from [] = none
first_minute hour_start from (minute ∷ minutes) =
    let later = first_minute hour_start from minutes in
    let candidate = hour_start + minute * ms_per_minute in
    if ltb candidate from then later else some candidate

abbrev pub or_later : Option ℕ → Option ℕ → Option ℕ
or_later none later = later
or_later (some t) later = some t

unfoldable pub first_hour : ℕ → ℕ → List ℕ → List ℕ → Option ℕ
unfolding first_minute
first_hour day_start from [] minutes = none
first_hour day_start from (hour ∷ hours) minutes =
    or_later (first_minute (day_start + hour * ms_per_hour) from minutes)
      (first_hour day_start from hours minutes)

-- `Date.UTC(year, month, date)` of a day, in milliseconds.
unfoldable pub start_of_day : ℕ → ℕ
unfolding civil_of_day utc_day
start_of_day day =
    let date = civil_of_day day in utc_day date.year date.month date.date * ms_per_day

-- The loop over the days, `cursor` being the day of the first candidate.
unfoldable pub search_days : CronSpec → ℕ → Civil → ℕ → ℕ → Option ℕ
unfolding matches_day first_hour start_of_day utc_day
search_days spec from cursor day_ahead zero = none
search_days spec from cursor day_ahead (suc rounds) =
    let later = search_days spec from cursor (suc day_ahead) rounds in
    let day = utc_day cursor.year cursor.month (cursor.date + day_ahead) in
    if matches_day spec day
    then or_later (first_hour (start_of_day day) from spec.hour spec.minute) later
    else later

found : Text → ℕ → Option ℕ → Result ℕ
found expr offset_ms none = thrown (
    cron_error expr
      (codes " không có mốc chạy nào trong " ++ show max_days_ahead ++ codes " ngày tới."))
found expr offset_ms (some candidate) = ok (candidate - offset_ms)

unfoldable pub first_candidate : ℕ → ℕ → ℕ
first_candidate after_ms offset_ms =
    after_ms / ms_per_minute * ms_per_minute + ms_per_minute + offset_ms

-- The days from 0 to `max_days_ahead` ahead.
unfoldable pub next_run_after : Text → ℕ → ℕ → Result ℕ
unfolding parse_cron search_days civil_of_day found first_candidate
next_run_after expr after_ms offset_minutes = do
  spec ← parse_cron expr
  let offset_ms = offset_minutes * ms_per_minute
  let from = first_candidate after_ms offset_ms
  let cursor = civil_of_day (from / ms_per_day)
  found expr offset_ms (search_days spec from cursor 0 (suc max_days_ahead))
