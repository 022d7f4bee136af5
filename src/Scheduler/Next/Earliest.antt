-- ===== src/Scheduler/Next/Earliest.antt =====
-- The next run is the earliest instant at which the expression fires (nextRunAfter of
-- src/scheduler/schedule.ts).
use open_dilim.Prelude.{
  ℕ, suc, ◌+◌, ◌-◌, ◌*◌, ◌/◌, ◌%◌, ◌≤◌, ◌<◌, ◌≡◌, refl, ◌⊎◌, inl, inr, true, Option, none, some,
  arith, Bool-cases, leb, leb→le,
}
use open_dilim.Prelude.Text.{Text}
use open_dilim.Task.{Result, ok, thrown}
use open_dilim.Scheduler.Calendar.{ms_per_minute, ms_per_hour, ms_per_day, civil_of_day}
use open_dilim.Scheduler.Cron.{CronSpec, ◌>>=◌, parse_cron}
use open_dilim.Scheduler.Cron.Validity.{IsValid, Within, parse_cron-IsValid}
use open_dilim.Scheduler.Next.{
  max_days_ahead, includes, matches_day, search_days, found, first_candidate, next_run_after,
}
use open_dilim.Scheduler.Next.Days.{Least, Least-iff, OnDay, includes-All, search_days-Least}

-- The expression fires at an instant of local time: at a full minute, and its minute, its hour and
-- its day are all named.
pub record Fires (spec : CronSpec) (local : ℕ) : Type 0 where
  pub full : local % ms_per_minute ≡ 0
  pub minute : includes spec.minute (local / ms_per_minute % 60) ≡ true
  pub hour : includes spec.hour (local / ms_per_hour % 24) ≡ true
  pub day : matches_day spec (local / ms_per_day) ≡ true

module _ (spec : CronSpec) (valid : IsValid spec) (from : ℕ) where
  -- The candidates of the search are the instants at which the expression fires.
  OnDay-Fires :
      (s : ℕ)
      → OnDay spec from (from / ms_per_day) valid.hour valid.minute 0 (suc max_days_ahead) s
      → Fires spec s × (from ≤ s) × (s / ms_per_day ≤ from / ms_per_day + max_days_ahead)
  OnDay-Fires s (k, a, b, hit, (h, i, (m, j, at, late))) =
      let hour = includes-All (Within 0 23) spec.hour h valid.hour.1 i in
      let minute = includes-All (Within 0 59) spec.minute m valid.minute.1 j in
      let day_is : s / ms_per_day ≡ from / ms_per_day + k = omega arith in
      let hour_is : s / ms_per_hour % 24 ≡ h = omega arith in
      let minute_is : s / ms_per_minute % 60 ≡ m = omega arith in
      (
        record {
          full = omega arith;
          minute = rw minute_is j;
          hour = rw hour_is i;
          day = rw day_is hit;
        },
        late,
        omega arith,
      )

  Fires-OnDay :
      (s : ℕ)
      → Fires spec s
      → from ≤ s
      → s / ms_per_day ≤ from / ms_per_day + max_days_ahead
      → OnDay spec from (from / ms_per_day) valid.hour valid.minute 0 (suc max_days_ahead) s
  Fires-OnDay s f late near =
      let day_is : from / ms_per_day + (s / ms_per_day - from / ms_per_day) ≡ s / ms_per_day =
        omega arith in
      let at = f.full in
      (
        s / ms_per_day - from / ms_per_day,
        omega arith,
        omega arith,
        rw day_is f.day,
        (
          s / ms_per_hour % 24,
          f.hour,
          (s / ms_per_minute % 60, f.minute, rw day_is (omega arith), late),
        ),
      )

-- The outcome of a search for the next run.
abbrev pub Earliest : Text → ℕ → ℕ → Result ℕ → Type 0
Earliest expr after_ms offset_ms (ok t) =
    (spec : CronSpec) × (parse_cron expr ≡ ok spec)
    × (after_ms < t)
    × Fires spec (t + offset_ms)
    × ((s : ℕ) → after_ms < s → Fires spec (s + offset_ms) → t ≤ s)
Earliest expr after_ms offset_ms (thrown e) =
    (parse_cron expr ≡ thrown e)
    ⊎ ((spec : CronSpec) × (parse_cron expr ≡ ok spec)
        × ((s : ℕ)
            → after_ms < s
            → (s + offset_ms) / ms_per_day
              ≤ first_candidate after_ms offset_ms / ms_per_day + max_days_ahead
            → Fires spec (s + offset_ms)
            → ⊥))

module _ (expr : Text) (after_ms offset_minutes : ℕ) where
  abbrev offset_ms : ℕ
  offset_ms = offset_minutes * ms_per_minute

  abbrev from : ℕ
  from = first_candidate after_ms offset_ms

  not_before :
      (spec : CronSpec) (s : ℕ) → after_ms < s → Fires spec (s + offset_ms) → from ≤ s + offset_ms
  unfolding first_candidate
  not_before spec s later f = let full = f.full in omega arith

  found-Earliest :
      (spec : CronSpec) (o : Option ℕ)
      → parse_cron expr ≡ ok spec
      → IsValid spec
      → Least
          (λ s. Fires spec s × (from ≤ s) × (s / ms_per_day ≤ from / ms_per_day + max_days_ahead))
          o
      → Earliest expr after_ms offset_ms (found expr offset_ms o)
  unfolding found
  found-Earliest spec none read valid least =
      inr (spec, read, λ s later near f. least (s + offset_ms) (f, not_before spec s later f, near))
  found-Earliest spec (some t) read valid ((f, late, near), least) =
      let back : t - offset_ms + offset_ms ≡ t = unfold first_candidate in omega arith in
      (
        spec,
        read,
        (unfold first_candidate in omega arith),
        rw back f,
        λ s later g.
            elim (Bool-cases
              (leb ((s + offset_ms) / ms_per_day) (from / ms_per_day + max_days_ahead))) [
                | inl e ↦
                    let first =
                      least (s + offset_ms) (g, not_before spec s later g, leb→le _ _ e) in
                    omega arith
                | inr e ↦ ground arith
              ],
      )

  -- If the result is an instant, the expression can be read and this is the earliest later instant at
  -- which it fires, at a full minute whose minute, hour and day of local time are all named. If it
  -- throws, the expression cannot be read or fires at no later instant of the days that are searched.
  pub next_run_after-Earliest :
      Earliest expr after_ms offset_ms (next_run_after expr after_ms offset_minutes)
  unfolding next_run_after
  next_run_after-Earliest = of_spec (parse_cron expr) refl
    where
      of_spec :
          (r : Result CronSpec)
          → parse_cron expr ≡ r
          → Earliest expr after_ms offset_ms (
              r >>= λ spec.
              found expr offset_ms
                (search_days spec from (civil_of_day (from / ms_per_day)) 0 (suc max_days_ahead)))
      of_spec (thrown e) read = inl read
      of_spec (ok spec) read =
          let valid = parse_cron-IsValid expr spec read in
          found-Earliest spec _ read valid (
            Least-iff
              (OnDay spec from (from / ms_per_day) valid.hour valid.minute 0 (suc max_days_ahead)) _
              (OnDay-Fires spec valid from)
              (λ s (f, late, near). Fires-OnDay spec valid from s f late near) _
              (search_days-Least spec from (from / ms_per_day) valid.hour valid.minute 0
                (suc max_days_ahead)))
