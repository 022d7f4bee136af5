-- ===== src/Scheduler/Poller.antt =====
-- The tick of the scheduler (tick and runJob of src/scheduler/poller.ts). `others` is what other
-- instances do to the table between the reading of the due jobs and the claim of a job. The timer
-- around the ticks runs one after the other and is not modelled.
pub mod Jobs
use open_dilim.Prelude.{ℕ, Bool, true, false, Option, none, some, List, [], ◌∷◌}
use open_dilim.Prelude.Text.{Text}
use open_dilim.Task.{
  Task, Result, ok, thrown, Failure, continue, ◌>>=◌, ◌>>◌, pure, throw, ignore_failure,
}
use open_dilim.Chat.Ports.{Bus}
use open_dilim.Workflow.Row.{Runtime}
use open_dilim.Scheduler.Repo.{Table, SchedulerJob, ClaimInput, claim, due}
use open_dilim.Scheduler.Fire.{Announcer, fire_job}
use open_dilim.Scheduler.Next.{vn_utc_offset_minutes, next_run_after}

pub record World : Type 0 where
  pub jobs : Table
  pub bus : Bus
  pub open bus use *

abbrev pub on_bus : {A : Type 0} → Task Bus A → Task World A
on_bus m w = let (r, bus') = m w.bus in (r, record w { bus = bus' })

abbrev pub claiming : ClaimInput → Task World Bool
claiming input w =
    let (granted, jobs') = claim input w.clock w.jobs in (ok granted, record w { jobs = jobs' })

abbrev pub others_run : (Table → Table) → Task World (Unit {0})
others_run others w = (ok tt, record w { jobs = others w.jobs })

unfoldable pub if_claimed : Announcer → SchedulerJob → ℕ → Bool → Task World (Unit {0})
if_claimed announcer job scheduled false = pure tt
if_claimed announcer job scheduled true = do on_bus (fire_job announcer job scheduled); pure tt

-- A new job is only put on the schedule.
unfoldable pub with_next :
    Announcer → SchedulerJob → ℕ → (Table → Table) → Option ℕ → ℕ → Task World (Unit {0})
unfolding if_claimed
with_next announcer job now_ms others none next = do
  others_run others
  claiming (record { id = job.id; expected = none; next = next; ran = none })
  pure tt
with_next announcer job now_ms others (some scheduled) next = do
  others_run others
  claimed ←
      claiming (record { id = job.id; expected = some scheduled; next = next; ran = some now_ms })
  if_claimed announcer job scheduled claimed

unfoldable pub with_schedule :
    Announcer → SchedulerJob → ℕ → (Table → Table) → Result ℕ → Task World (Unit {0})
unfolding with_next
with_schedule announcer job now_ms others (thrown e) = throw e
with_schedule announcer job now_ms others (ok next) =
    with_next announcer job now_ms others job.next_run_at next

-- A broken expression throws before the claim.
unfoldable pub run_job : Announcer → SchedulerJob → ℕ → (Table → Table) → Task World (Unit {0})
unfolding with_schedule next_run_after
run_job announcer job now_ms others =
    with_schedule announcer job now_ms others
      (next_run_after job.schedule now_ms vn_utc_offset_minutes)

unfoldable pub run_jobs :
    Announcer → List SchedulerJob → ℕ → (SchedulerJob → Table → Table) → Task World (Unit {0})
unfolding run_job
run_jobs announcer [] now_ms others = pure tt
run_jobs announcer (job ∷ jobs) now_ms others = do
  ignore_failure (run_job announcer job now_ms (others job))
  run_jobs announcer jobs now_ms others

unfoldable pub tick :
    Runtime → Announcer → ℕ → (SchedulerJob → Table → Table) → Task World (Unit {0})
unfolding run_jobs due
tick runtime announcer now_ms others w =
    run_jobs announcer (due runtime now_ms w.jobs) now_ms others w
