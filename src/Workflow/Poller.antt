-- ===== src/Workflow/Poller.antt =====
-- The periodic sweep: close what is overdue, then remind of what is due
-- (src/workflows/poller.ts). `others` is what other instances do to the table before a reminder
-- takes its turn. The reminders of one batch run concurrently in the program; here they run in the
-- order of the batch.
pub mod Sweep
pub mod Claiming
use open_dilim.Prelude.{
  ℕ, zero, suc, ◌+◌, ◌≡◌, refl, Bool, true, false, Option, none, some, List, [], ◌∷◌, take, drop,
  length, if◌then◌else◌,
}
use open_dilim.Prelude.Text.{Text}
use open_dilim.Task.{Task, Result, ok, ◌>>=◌, ◌>>◌, pure, ignore_failure}
use open_dilim.Workflow.Types.{PendingRequest, WorkflowDef, resolve_def}
use open_dilim.Workflow.Schedule.{next_remind_at}
use open_dilim.Workflow.Row.{Runtime}
use open_dilim.Workflow.Store.{Table, claim_remind, expire_due}
use open_dilim.Workflow.Queries.{due_for_remind}
use open_dilim.Workflow.Store.Runs.{Statement, run}
use open_dilim.Workflow.Ask.{World, query, statement, others_run, dispatch_ask}

abbrev pub remind_batch_size : ℕ
remind_batch_size = 10

-- An UPDATE does not throw.
abbrev pub update : {A : Type 0} → (Table → A × Table) → Task World A
update f w = let (a, table') = f w.table in (ok a, record w { table = table' })

unfoldable pub asked_again : PendingRequest → PendingRequest
asked_again request = record request { ask_count = request.ask_count + 1 }

unfoldable pub ask_if_claimed : WorkflowDef → PendingRequest → ℕ → Bool → Task World (Unit {0})
unfolding asked_again
ask_if_claimed def request now_ms false = pure tt
ask_if_claimed def request now_ms true = do
  dispatch_ask def (asked_again request) now_ms true
  pure tt

claim_and_ask :
    WorkflowDef → PendingRequest → ℕ → List Statement → ℕ → Option ℕ → Task World (Unit {0})
unfolding ask_if_claimed
claim_and_ask def request now_ms others expected none = pure tt
claim_and_ask def request now_ms others expected (some next) = do
  claimed ← update (claim_remind request.id expected next)
  ask_if_claimed def request now_ms claimed

remind_with : PendingRequest → ℕ → List Statement → ℕ → Option WorkflowDef → Task World (Unit {0})
unfolding claim_and_ask
remind_with request now_ms others expected none = pure tt
remind_with request now_ms others expected (some def) =
    claim_and_ask def request now_ms others expected (next_remind_at def now_ms)

module _ (runtime : Runtime) (registry : List WorkflowDef) where
  remind_expected : PendingRequest → ℕ → List Statement → Option ℕ → Task World (Unit {0})
  unfolding remind_with
  remind_expected request now_ms others none = pure tt
  remind_expected request now_ms others (some expected) = do
    others_run runtime others
    remind_with request now_ms others expected (resolve_def request.workflow registry)

  unfoldable pub remind : PendingRequest → ℕ → List Statement → Task World (Unit {0})
  unfolding remind_expected
  remind request now_ms others = remind_expected request now_ms others request.next_remind_at

  unfoldable pub remind_safely : PendingRequest → ℕ → List Statement → Task World (Unit {0})
  unfolding remind
  remind_safely request now_ms others = ignore_failure (remind request now_ms others)

  unfoldable pub remind_batch :
      List PendingRequest → ℕ → (PendingRequest → List Statement) → Task World (Unit {0})
  unfolding remind_safely
  remind_batch [] now_ms others = pure tt
  remind_batch (request ∷ rest) now_ms others = do
    remind_safely request now_ms (others request)
    remind_batch rest now_ms others

  -- The loop over slices of the due requests; each round takes a whole batch off, so a round for
  -- each request is enough.
  unfoldable pub remind_batches :
      ℕ → List PendingRequest → ℕ → (PendingRequest → List Statement) → Task World (Unit {0})
  unfolding remind_batch
  remind_batches rounds [] now_ms others = pure tt
  remind_batches zero (request ∷ rest) now_ms others = pure tt
  remind_batches (suc rounds) (request ∷ rest) now_ms others = do
    remind_batch (take remind_batch_size (request ∷ rest)) now_ms others
    remind_batches rounds (drop remind_batch_size (request ∷ rest)) now_ms others

  unfoldable pub tick : ℕ → (PendingRequest → List Statement) → Task World (Unit {0})
  unfolding remind_batches
  tick now_ms others = do
    expired ← update (expire_due now_ms)
    due ← query (due_for_remind runtime now_ms)
    remind_batches (length due) due now_ms others
