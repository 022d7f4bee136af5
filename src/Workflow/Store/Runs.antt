-- ===== src/Workflow/Store/Runs.antt =====
-- Every statement that any instance of the server sends to `pending_actions`, in the order in which
-- the database executes them (SqlPendingStore of src/workflows/store.ts).
use open_dilim.Prelude.{ℕ, ◌<◌, ◌+◌, ◌&&◌, List, [], ◌∷◌, ◌==◌, if◌then◌else◌, any}
use open_dilim.Prelude.Text.{Text, text_eq}
use open_dilim.Workflow.Row.{Runtime}
use open_dilim.Workflow.Store.{
  Table, OpenPendingInput, open_pending, claim_remind, resolve, expire_due, is_resolvable,
}

pub data Statement : Type 0 where
  opening : Text → ℕ → OpenPendingInput → Statement
  claiming : Text → ℕ → ℕ → Statement
  resolving : Text → Text → Text → ℕ → Statement
  expiring : ℕ → Statement

module _ (runtime : Runtime) where
  unfoldable pub execute : Statement → Table → Table
  execute (opening uuid now input) table = (open_pending runtime uuid now input table).1
  execute (claiming id expected next) table = (claim_remind id expected next table).1
  execute (resolving id answer by now) table = (resolve runtime id answer by now table).1
  execute (expiring now) table = (expire_due now table).1

  unfoldable pub run : List Statement → Table → Table
  unfolding execute
  run [] table = table
  run (s ∷ rest) table = run rest (execute s table)

  -- How many of the statements are claims of one reminder that were granted.
  unfoldable pub granted : Text → ℕ → Statement → Table → ℕ
  granted id expected (claiming id' expected' next) table =
      if text_eq id' id && expected' == expected && (claim_remind id' expected' next table).0
      then 1
      else 0
  granted id expected _ table = 0

  unfoldable pub grants : Text → ℕ → List Statement → Table → ℕ
  unfolding execute granted
  grants id expected [] table = 0
  grants id expected (s ∷ rest) table =
      granted id expected s table + grants id expected rest (execute s table)

  -- How many of the statements closed one request with an answer.
  unfoldable pub closed : Text → Statement → Table → ℕ
  closed id (resolving id' answer by now) table =
      if text_eq id' id && any (is_resolvable id') table then 1 else 0
  closed id _ table = 0

  unfoldable pub closings : Text → List Statement → Table → ℕ
  unfolding execute closed
  closings id [] table = 0
  closings id (s ∷ rest) table = closed id s table + closings id rest (execute s table)

-- A claim moves the reminder to a later instant, as the poller's do.
abbrev pub Advances : Statement → Type 0
Advances (claiming id expected next) = expected < next
Advances _ = Unit {0}
