-- ===== src/Scheduler/Poller/Jobs.antt =====
-- A job is fired only behind a granted claim (runJob and tick of src/scheduler/poller.ts).
use open_dilim.Prelude.{
  ℕ, ◌*◌, ◌<◌, ◌≡◌, refl, ap, subst, ◌⊎◌, inl, inr, Bool, true, false, Option, none, some, List, [],
  ◌∷◌, ◌++◌,
}
use open_dilim.Task.{Result, ok, thrown, continue, pure}
use open_dilim.Chat.Ports.{Bus}
use open_dilim.Scheduler.Repo.{Table, SchedulerJob, ClaimInput, claim}
use open_dilim.Scheduler.Fire.{Announcer, build_cron_envelope, fire_job}
use open_dilim.Scheduler.Fire.Delivery.{Fired, fire_job-Fired}
use open_dilim.Scheduler.Next.{vn_utc_offset_minutes, next_run_after}
use open_dilim.Scheduler.Next.Earliest.{Earliest, next_run_after-Earliest}
use open_dilim.Scheduler.Calendar.{ms_per_minute}
use open_dilim.Scheduler.Poller.{World, if_claimed, with_next, with_schedule, run_job, run_jobs}

abbrev pub claim_of : SchedulerJob → ℕ → ℕ → ℕ → ClaimInput
claim_of job scheduled now_ms next = record {
  id = job.id;
  expected = some scheduled;
  next = next;
  ran = some now_ms;
}

-- The claim of the run that was read was granted and moved the job to a later run, and the turn of
-- the run was queued once.
pub record IsRun (job : SchedulerJob) (now_ms : ℕ) (table : Table) (before after : World)
    : Type 0 where
  pub scheduled : ℕ
  pub next : ℕ
  pub read : job.next_run_at ≡ some scheduled
  pub on_schedule : next_run_after job.schedule now_ms vn_utc_offset_minutes ≡ ok next
  pub later : now_ms < next
  pub granted : (claim (claim_of job scheduled now_ms next) before.clock table).0 ≡ true
  pub moved : after.jobs ≡ (claim (claim_of job scheduled now_ms next) before.clock table).1
  pub queued : after.ingress ≡ before.ingress ++ build_cron_envelope job scheduled ∷ []

module _ (announcer : Announcer) (job : SchedulerJob) (now_ms : ℕ) (others : Table → Table)
    (w : World) where
  abbrev pub Ran : World → Type 0
  Ran after = (after.ingress ≡ w.ingress) ⊎ IsRun job now_ms (others w.jobs) w after

  next-later :
      (next : ℕ)
      → next_run_after job.schedule now_ms vn_utc_offset_minutes ≡ ok next
      → now_ms < next
  next-later next e =
      let (spec, read, later, fires, least) =
        subst (Earliest job.schedule now_ms (vn_utc_offset_minutes * ms_per_minute)) e
          (next_run_after-Earliest job.schedule now_ms vn_utc_offset_minutes) in
      later

  module _ (next : ℕ) (e : next_run_after job.schedule now_ms vn_utc_offset_minutes ≡ ok next)
      (scheduled : ℕ) (read : job.next_run_at ≡ some scheduled) where
    abbrev after_claim : World
    after_claim = record w {
      jobs = (claim (claim_of job scheduled now_ms next) w.clock (others w.jobs)).1;
    }

    Fired-Ran :
        (claim (claim_of job scheduled now_ms next) w.clock (others w.jobs)).0 ≡ true
        → (r : Result Bool) (bus : Bus) → Fired job scheduled w.bus r bus
        → Ran (record after_claim { bus = bus })
    Fired-Ran granted (ok true) bus f = inr (record {
      scheduled = scheduled;
      next = next;
      read = read;
      on_schedule = e;
      later = next-later next e;
      granted = granted;
      moved = refl;
      queued = f.queued;
    })
    Fired-Ran granted (ok false) bus f = inl (ap (λ b. b.ingress) f.1)
    Fired-Ran granted (thrown x) bus (down, inl unqueued) = inl unqueued
    Fired-Ran granted (thrown x) bus (down, inr (fresh, queued)) = inr (record {
      scheduled = scheduled;
      next = next;
      read = read;
      on_schedule = e;
      later = next-later next e;
      granted = granted;
      moved = refl;
      queued = queued;
    })

    claimed-Ran :
        (granted : Bool)
        → (claim (claim_of job scheduled now_ms next) w.clock (others w.jobs)).0 ≡ granted
        → Ran (if_claimed announcer job scheduled granted after_claim).1
    unfolding if_claimed
    claimed-Ran false g = inl refl
    claimed-Ran true g = of_fired _ _ refl (fire_job-Fired announcer job scheduled w.bus)
      where
        of_fired :
            (r : Result Bool) (bus : Bus)
            → fire_job announcer job scheduled w.bus ≡ (r, bus)
            → Fired job scheduled w.bus r bus
            → Ran (continue {A = Bool} (λ _. pure tt) (r, record after_claim { bus = bus })).1
        of_fired (ok b) bus _ f = Fired-Ran g (ok b) bus f
        of_fired (thrown x) bus _ f = Fired-Ran g (thrown x) bus f

  with_next-Ran :
      (next : ℕ) (scheduled : Option ℕ)
      → next_run_after job.schedule now_ms vn_utc_offset_minutes ≡ ok next
      → job.next_run_at ≡ scheduled
      → Ran (with_next announcer job now_ms others scheduled next w).1
  unfolding with_next
  with_next-Ran next none e read = inl refl
  with_next-Ran next (some scheduled) e read = claimed-Ran next e scheduled read _ refl

  with_schedule-Ran :
      (r : Result ℕ)
      → next_run_after job.schedule now_ms vn_utc_offset_minutes ≡ r
      → Ran (with_schedule announcer job now_ms others r w).1
  unfolding with_schedule
  with_schedule-Ran (thrown x) e = inl refl
  with_schedule-Ran (ok next) e = with_next-Ran next job.next_run_at e refl

  -- Whatever other instances did to the table since the job was read: either the run queues
  -- nothing, or its claim of the instant that was read is granted on the table as it then stands and
  -- moves the job to the next run by its schedule, later than the present, and exactly one turn is
  -- queued, that of the run that was due.
  pub run_job-Ran : Ran (run_job announcer job now_ms others w).1
  unfolding run_job
  run_job-Ran = with_schedule-Ran (next_run_after job.schedule now_ms vn_utc_offset_minutes) refl

module _ (announcer : Announcer) (now_ms : ℕ) (others : SchedulerJob → Table → Table) where
  -- The run of a list of jobs never throws, and runs the jobs at its end whatever became of those at
  -- its beginning.
  pub run_jobs-append :
      (xs ys : List SchedulerJob) (w : World)
      → ((run_jobs announcer (xs ++ ys) now_ms others w).0 ≡ ok tt)
        × (run_jobs announcer (xs ++ ys) now_ms others w
            ≡ run_jobs announcer ys now_ms others (run_jobs announcer xs now_ms others w).1)
  unfolding run_jobs
  run_jobs-append [] [] w = (refl, refl)
  run_jobs-append [] (y ∷ ys) w =
      ((run_jobs-append [] ys (run_job announcer y now_ms (others y) w).1).0, refl)
  run_jobs-append (x ∷ xs) ys w = run_jobs-append xs ys (run_job announcer x now_ms (others x) w).1
