-- ===== src/Workflow/Schedule.antt =====
-- When to remind and when to close (src/workflows/schedule.ts). Times are milliseconds since the
-- epoch, so `Math.floor(local / MS_PER_DAY)` is the quotient.
pub mod Hours
use open_dilim.Prelude.{
  ℕ, ◌+◌, ◌-◌, ◌*◌, ◌/◌, Bool, Option, none, some, ltb, leb, ◌==◌, if◌then◌else◌,
}
use open_dilim.Workflow.Types.{WorkflowDef}

abbrev pub vn_utc_offset_minutes : ℕ
vn_utc_offset_minutes = 420

abbrev pub ms_per_minute : ℕ
ms_per_minute = 60000

abbrev pub ms_per_hour : ℕ
ms_per_hour = 3600000

abbrev pub ms_per_day : ℕ
ms_per_day = 24 * ms_per_hour

abbrev pub offset_ms : ℕ
offset_ms = vn_utc_offset_minutes * ms_per_minute

abbrev pub office_start_hour : ℕ
office_start_hour = 8

abbrev pub office_end_hour : ℕ
office_end_hour = 18

unfoldable pub shift_into_office_hours : ℕ → ℕ
shift_into_office_hours ms =
    let local = ms + offset_ms in
    let day_start = local / ms_per_day * ms_per_day in
    let open_at = day_start + office_start_hour * ms_per_hour in
    if ltb local open_at
    then open_at - offset_ms
    else if leb (day_start + office_end_hour * ms_per_hour) local
    then open_at + ms_per_day - offset_ms
    else ms

unfoldable pub next_remind_at : WorkflowDef → ℕ → Option ℕ
next_remind_at def from_ms =
    if def.remind_interval_ms == 0
    then none
    else let raw = from_ms + def.remind_interval_ms in
      some (if def.office_hours_only then shift_into_office_hours raw else raw)

unfoldable pub expires_at : WorkflowDef → ℕ → ℕ
expires_at def from_ms = from_ms + def.ttl_ms
