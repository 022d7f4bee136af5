-- ===== src/Scheduler/Tests.antt =====
-- Runs of the scheduler on small inputs, and the theorems at them (src/scheduler).
use open_dilim.Prelude.{◌≤◌, ◌≡◌, refl, ◌↔◌, true, false, none, some, List, [], ◌∷◌, arith}
use open_dilim.Prelude.Text.{Text, codes, text_eq}
use open_dilim.Task.{Result, ok, thrown}
use open_dilim.Chat.Ports.{Bus, served}
use open_dilim.Scheduler.Calendar.{civil_of_day}
use open_dilim.Scheduler.Number.{integer_of_text}
use open_dilim.Scheduler.Cron.{CronSpec, Range, steps, parse_cron, parse_field}
use open_dilim.Scheduler.Cron.Validity.{IsValid, parse_cron-IsValid}
use open_dilim.Scheduler.Cron.Values.{IsStep, steps-includes}
use open_dilim.Scheduler.Next.{includes, next_run_after, vn_utc_offset_minutes}
use open_dilim.Scheduler.Next.Earliest.{Earliest, next_run_after-Earliest}
use open_dilim.Scheduler.Repo.{Table, SchedulerJob, ClaimInput, CreateInput, created}
use open_dilim.Scheduler.Repo.Claims.{
  Statement, claiming, creating, updating, removing, grants, claims-le-one,
}
use open_dilim.Scheduler.Fire.{Announcer, fire_job}
use open_dilim.Scheduler.Fire.Delivery.{Fired, fire_job-Fired}
use open_dilim.Scheduler.Poller.{World, run_job}
use open_dilim.Scheduler.Poller.Jobs.{Ran, run_job-Ran}

-- 29 February 2024.
leap_day : civil_of_day 19782 ≡ record { year = 54; month = 1; date = 29 }
unfolding civil_of_day
leap_day = refl

reads_numbers :
    (integer_of_text (codes " 0x1F ") ≡ some 31)
    × (integer_of_text (codes "1.50e1") ≡ some 15)
    × (integer_of_text (codes "1.5") ≡ none)
    × (integer_of_text (codes "") ≡ some 0)
    × (integer_of_text (codes "5a") ≡ none)
unfolding integer_of_text
reads_numbers = (refl, refl, refl, refl, refl)

reads_field :
    parse_field (codes "40-50/5,*/30,1") 0 59 (codes "") ≡ ok (0 ∷ 1 ∷ 30 ∷ 40 ∷ 45 ∷ 50 ∷ [])
unfolding parse_field
reads_field = refl

abbrev five_o_clock : Text
five_o_clock = codes "0 17 * * *"

abbrev minutes : Range
minutes = record { from = 5; to = 20 }

steps-includes_example : (includes (steps minutes 5) 15 ≡ true) ↔ IsStep 5 20 5 15
steps-includes_example = steps-includes minutes 5 15 (omega arith)

abbrev spec_of : Result CronSpec → CronSpec
spec_of (ok spec) = spec
spec_of (thrown e) = record {
  minute = [];
  hour = [];
  day_of_month = [];
  month = [];
  day_of_week = [];
  dom_unrestricted = false;
  dow_unrestricted = false;
}

parse_cron-IsValid_example : IsValid (spec_of (parse_cron five_o_clock))
parse_cron-IsValid_example =
    parse_cron-IsValid five_o_clock (spec_of (parse_cron five_o_clock)) (unfold parse_cron in refl)

-- 17:00 in Hanoi is 10:00 UTC.
runs_at_five : next_run_after five_o_clock 0 vn_utc_offset_minutes ≡ ok 36000000
unfolding next_run_after parse_cron
runs_at_five = refl

next_run_after-Earliest_example :
    Earliest five_o_clock 0 25200000 (next_run_after five_o_clock 0 vn_utc_offset_minutes)
next_run_after-Earliest_example = next_run_after-Earliest five_o_clock 0 vn_utc_offset_minutes

abbrev report : CreateInput
report = record {
  id = codes "job-0001-x";
  schedule = five_o_clock;
  channel = codes "zalo";
  identity = codes "u1";
  task = codes "tồn kho";
  target = codes "kho";
}

abbrev table : Table
table = record (created report 0) { next_run_at = some 36000000 } ∷ []

abbrev job : SchedulerJob
job = record {
  id = codes "job-0001-x";
  schedule = five_o_clock;
  channel = codes "zalo";
  identity = codes "u1";
  task = codes "tồn kho";
  target = codes "kho";
  next_run_at = some 36000000;
}

abbrev claim_run : ClaimInput
claim_run = record {
  id = codes "job-0001-x";
  expected = some 36000000;
  next = 122400000;
  ran = some 36000010;
}

abbrev statements : List Statement
statements =
    claiming claim_run 36000010
    ∷ claiming claim_run 36000011
    ∷ updating (codes "zalo") (codes "kho") (codes "job-0001") none (some (codes "x")) 36000012
    ∷ creating report 36000013
    ∷ removing (codes "zalo") (codes "kho") (codes "job-0001")
    ∷ []

claims-le-one_example : grants (codes "job-0001-x") 36000000 statements table ≤ 1
claims-le-one_example =
    claims-le-one (codes "job-0001-x") 36000000 statements table (unfold text_eq in omega arith)
      (omega arith, (omega arith, (tt, (tt, (tt, tt)))))

abbrev announcer : Announcer
announcer = record { typing = some (λ _. true); broadcaster = true }

abbrev bus : Bus
bus = record {
  clock = 36000010;
  outages = record {
    dedupe = λ _. served;
    rpush = λ _. served;
    ltrim = λ _. served;
    expire = λ _. served;
    broker = λ _. served;
    broadcaster = λ _. false;
  };
  seen = [];
  history = λ _. [];
  ingress = [];
  sent = [];
}

abbrev world : World
world = record { jobs = table; bus = bus }

fire_job-Fired_example :
    Fired job 36000000 bus
      (fire_job announcer job 36000000 bus).0
      (fire_job announcer job 36000000 bus).1
fire_job-Fired_example = fire_job-Fired announcer job 36000000 bus

run_job-Ran_example :
    Ran announcer job 36000010
      (λ jobs. jobs)
      world
      (run_job announcer job 36000010 (λ jobs. jobs) world).1
run_job-Ran_example = run_job-Ran announcer job 36000010 (λ jobs. jobs) world
