-- ===== src/Scheduler/Repo.antt =====
-- The table `scheduler_jobs` and the statements on it (SqlJobRepo of src/scheduler/repo.ts, with
-- migrations/0001_init.sql). A table is the list of its rows in insertion order; a statement is one
-- atomic step; `now` is the database's clock.
pub mod Claims
pub mod Rooms
use open_dilim.Prelude.Update.{update_where}
use open_dilim.Prelude.{
  ℕ, ◌+◌, Bool, true, false, not, ◌&&◌, ◌||◌, Option, none, some, List, [], ◌∷◌, ◌++◌, leb, ◌==◌,
  if◌then◌else◌, any, select, take, collect,
}
use open_dilim.Prelude.Text.{Text, codes, text_eq}
use open_dilim.Prelude.Sort.{sort_by}
use open_dilim.Task.{Result, ok, thrown, unique_violation}
use open_dilim.Workflow.Types.{Value, null, boolean, text, date, object, Fields, end, field}
use open_dilim.Workflow.Row.{Runtime, get, value_as_record, read_string, read_date, or_else, ◌>>=◌}

abbrev pub max_jobs_per_tick : ℕ
max_jobs_per_tick = 100

abbrev pub short_id_length : ℕ
short_id_length = 8

pub record Job : Type 0 where
  pub id : Text
  pub schedule : Text
  pub channel : Text
  pub identity : Text
  pub task : Text
  pub target : Text
  pub enabled : Bool
  pub next_run_at : Option ℕ
  pub last_run_at : Option ℕ
  pub created_at : ℕ
  pub updated_at : ℕ

abbrev pub Table : Type 0
Table = List Job

pub record SchedulerJob : Type 0 where
  pub id : Text
  pub schedule : Text
  pub channel : Text
  pub identity : Text
  pub task : Text
  pub target : Text
  pub next_run_at : Option ℕ

pub record JobSummary : Type 0 where
  pub id : Text
  pub schedule : Text
  pub task : Text
  pub enabled : Bool
  pub next_run_at : Option ℕ

abbrev date_column : Option ℕ → Value
date_column none = null
date_column (some t) = date t

abbrev is_false : Option Value → Bool
is_false (some (boolean false)) = true
is_false _ = false

-- The columns that `due` and `listByTarget` ask for, as the driver hands them over.
abbrev pub due_columns : Job → Value
due_columns j = object (
    field (codes "id") (text j.id) (
      field (codes "schedule") (text j.schedule) (
        field (codes "channel") (text j.channel) (
          field (codes "identity") (text j.identity) (
            field (codes "task") (text j.task) (
              field (codes "target") (text j.target)
                (field (codes "next_run_at") (date_column j.next_run_at) end)))))))

abbrev summary_columns : Job → Value
summary_columns j = object (
    field (codes "id") (text j.id) (
      field (codes "schedule") (text j.schedule) (
        field (codes "task") (text j.task) (
          field (codes "enabled") (boolean j.enabled)
            (field (codes "next_run_at") (date_column j.next_run_at) end)))))

module _ (runtime : Runtime) where
  unfoldable pub to_job : Value → Option SchedulerJob
  unfolding read_string read_date
  to_job row = do
    columns ← value_as_record row
    id ← read_string columns (codes "id")
    schedule ← read_string columns (codes "schedule")
    channel ← read_string columns (codes "channel")
    identity ← read_string columns (codes "identity")
    task ← read_string columns (codes "task")
    target ← read_string columns (codes "target")
    some (record {
      id = id;
      schedule = schedule;
      channel = channel;
      identity = identity;
      task = task;
      target = target;
      next_run_at = read_date runtime columns (codes "next_run_at");
    })

  unfoldable pub to_summary : Value → Option JobSummary
  unfolding read_string read_date get
  to_summary row = do
    columns ← value_as_record row
    id ← read_string columns (codes "id")
    schedule ← read_string columns (codes "schedule")
    task ← read_string columns (codes "task")
    some (record {
      id = id;
      schedule = schedule;
      task = task;
      enabled = not (is_false (get columns (codes "enabled")));
      next_run_at = read_date runtime columns (codes "next_run_at");
    })

abbrev at_or_before : Option ℕ → ℕ → Bool
at_or_before none now = true
at_or_before (some t) now = leb t now

unfoldable pub is_due : ℕ → Job → Bool
is_due now j = j.enabled && at_or_before j.next_run_at now

-- ORDER BY next_run_at ASC NULLS FIRST.
abbrev run_order : Job → ℕ
run_order j = elim j.next_run_at [ none ↦ 0 | some t ↦ t + 1 ]

module _ (runtime : Runtime) where
  unfoldable pub due : ℕ → Table → List SchedulerJob
  unfolding is_due to_job
  due now table =
      collect (λ j. to_job runtime (due_columns j))
        (take max_jobs_per_tick (sort_by run_order (select (is_due now) table)))

abbrev same_instant : Option ℕ → Option ℕ → Bool
same_instant none none = true
same_instant (some t) (some u) = t == u
same_instant _ _ = false

pub record ClaimInput : Type 0 where
  pub id : Text
  pub expected : Option ℕ
  pub next : ℕ
  pub ran : Option ℕ

unfoldable pub is_claimable : ClaimInput → Job → Bool
is_claimable input j = text_eq j.id input.id && same_instant j.next_run_at input.expected

abbrev or_before : Option ℕ → Option ℕ → Option ℕ
or_before none old = old
or_before (some t) old = some t

unfoldable pub claimed : ClaimInput → ℕ → Job → Job
claimed input now j = record j {
  next_run_at = some input.next;
  last_run_at = or_before input.ran j.last_run_at;
  updated_at = now;
}

-- Compare and swap on `next_run_at`.
unfoldable pub claim : ClaimInput → ℕ → Table → Bool × Table
unfolding is_claimable claimed update_where
claim input now table =
    (any (is_claimable input) table, update_where (is_claimable input) (claimed input now) table)

pub record CreateInput : Type 0 where
  pub id : Text
  pub schedule : Text
  pub channel : Text
  pub identity : Text
  pub task : Text
  pub target : Text

-- The columns that are not named take their defaults. A taken id breaks the primary key.
abbrev pub created : CreateInput → ℕ → Job
created input now = record {
  id = input.id;
  schedule = input.schedule;
  channel = input.channel;
  identity = input.identity;
  task = input.task;
  target = input.target;
  enabled = true;
  next_run_at = none;
  last_run_at = none;
  created_at = now;
  updated_at = now;
}

unfoldable pub create : CreateInput → ℕ → Table → Result (Unit {0}) × Table
create input now table =
    if any (λ j. text_eq j.id input.id) table
    then (thrown unique_violation, table)
    else (ok tt, table ++ created input now ∷ [])

unfoldable pub is_in_room : Text → Text → Job → Bool
is_in_room channel target j = text_eq j.channel channel && text_eq j.target target

unfoldable pub list_by_target : Runtime → Text → Text → Table → List JobSummary
unfolding is_in_room to_summary
list_by_target runtime channel target table =
    collect (λ j. to_summary runtime (summary_columns j))
      (sort_by (λ j. j.created_at) (select (is_in_room channel target) table))

-- A short id means a job of the room only.
unfoldable pub is_named : Text → Text → Text → Job → Bool
unfolding is_in_room
is_named channel target short_id j =
    is_in_room channel target j && text_eq (take short_id_length j.id) short_id

abbrev rescheduled : Option Text → Option ℕ → Option ℕ
rescheduled none old = old
rescheduled (some schedule) old = none

unfoldable pub updated : Option Text → Option Text → ℕ → Job → Job
updated schedule task now j = record j {
  schedule = or_else schedule j.schedule;
  task = or_else task j.task;
  next_run_at = rescheduled schedule j.next_run_at;
  updated_at = now;
}

unfoldable pub update : Text → Text → Text → Option Text → Option Text → ℕ → Table → Bool × Table
unfolding is_named updated update_where
update channel target short_id schedule task now table = (
  any (is_named channel target short_id) table,
  update_where (is_named channel target short_id) (updated schedule task now) table,
)

abbrev same_flag : Bool → Bool → Bool
same_flag true b = b
same_flag false b = not b

unfoldable pub is_switched : Text → Text → Text → Bool → Job → Bool
unfolding is_named
is_switched channel target short_id enabled j =
    is_named channel target short_id j && not (same_flag j.enabled enabled)

abbrev pub switched : Bool → ℕ → Job → Job
switched enabled now j = record j { enabled = enabled; next_run_at = none; updated_at = now }

unfoldable pub set_enabled : Text → Text → Text → Bool → ℕ → Table → Bool × Table
unfolding is_switched update_where
set_enabled channel target short_id enabled now table = (
  any (is_switched channel target short_id enabled) table,
  update_where (is_switched channel target short_id enabled) (switched enabled now) table,
)

unfoldable pub remove : Text → Text → Text → Table → Bool × Table
unfolding is_named
remove channel target short_id table = (
  any (is_named channel target short_id) table,
  select (λ j. not (is_named channel target short_id j)) table,
)
