-- ===== src/Workflow/Schedule/Hours.antt =====
-- Reminders fall into office hours (shiftIntoOfficeHours and nextRemindAt of
-- src/workflows/schedule.ts).
use open_dilim.Prelude.{ℕ, ◌+◌, ◌*◌, ◌%◌, ◌≤◌, ◌<◌, ◌≡◌, true, some, arith}
use open_dilim.Workflow.Types.{WorkflowDef}
use open_dilim.Workflow.Schedule.{
  ms_per_hour, ms_per_day, offset_ms, office_start_hour, office_end_hour, shift_into_office_hours,
  next_remind_at,
}

-- The local hour of an instant lies from 8:00 up to, and not at, 18:00.
abbrev pub InOfficeHours : ℕ → Type 0
InOfficeHours ms =
    (office_start_hour * ms_per_hour ≤ (ms + offset_ms) % ms_per_day)
    × ((ms + offset_ms) % ms_per_day < office_end_hour * ms_per_hour)

-- The shifted instant is the earliest instant in office hours that is not before the given one.
pub shift_into_office_hours-least :
    (ms : ℕ)
    → (ms ≤ shift_into_office_hours ms)
      × InOfficeHours (shift_into_office_hours ms)
      × ((other : ℕ) → ms ≤ other → InOfficeHours other → shift_into_office_hours ms ≤ other)
unfolding shift_into_office_hours
shift_into_office_hours-least ms = (ground arith, ground arith, λ other before within. ground arith)

-- The next reminder is later than the instant from which it is reckoned, and falls into office
-- hours where the definition asks for that.
pub next_remind_at-later :
    (def : WorkflowDef) (from_ms next : ℕ)
    → next_remind_at def from_ms ≡ some next
    → (from_ms < next) × (def.office_hours_only ≡ true → InOfficeHours next)
unfolding next_remind_at
next_remind_at-later def from_ms next e =
    let (later, within, _) = shift_into_office_hours-least (from_ms + def.remind_interval_ms) in
    ground (arith, later, within)
