-- ===== src/Workflow/Answer.antt =====
-- Taking an answer (answerRequest of src/workflows/engine.ts).
pub mod Branches
use open_dilim.Prelude.{
  ℕ, ◌≡◌, refl, Bool, true, false, Option, none, some, List, [], ◌∷◌, collect, select,
  if◌then◌else◌,
}
use open_dilim.Prelude.Text.{Text, text_eq}
use open_dilim.Task.{Task, ◌>>=◌, ◌>>◌, pure}
use open_dilim.Chat.{RoomRef, same_room}
use open_dilim.Workflow.Types.{PendingRequest, WorkflowDef}
use open_dilim.Workflow.Row.{Runtime, or_else}
use open_dilim.Workflow.Store.{Table, resolve}
use open_dilim.Workflow.Queries.{find_open, open_for_target}
use open_dilim.Workflow.Store.Runs.{Statement}
use open_dilim.Workflow.Ask.{World, query, statement, query_clock, others_run, notify_origin}

pub record AnswerInput : Type 0 where
  pub subject : Text
  pub answer : Text
  pub target_room : RoomRef
  pub answered_by : Text
  pub now_ms : ℕ

pub data AnswerOutcome : Type 0 where
  recorded : PendingRequest → AnswerOutcome
  invalid_answer : AnswerOutcome
  not_found : List Text → AnswerOutcome
  closed : AnswerOutcome

module _ (runtime : Runtime) where
  -- The open subjects of this workflow that the room itself has to answer.
  pub open_subjects : WorkflowDef → List PendingRequest → List Text
  open_subjects def requests =
      collect (λ r. r.subject) (select (λ r. text_eq r.workflow def.name) requests)

  answer_missing : WorkflowDef → AnswerInput → Task World AnswerOutcome
  unfolding open_subjects
  answer_missing def input = do
    waiting ← query (open_for_target runtime input.target_room)
    pure (not_found (open_subjects def waiting))

  report : WorkflowDef → ℕ → Option PendingRequest → Task World AnswerOutcome
  report def now_ms none = pure AnswerOutcome.closed
  report def now_ms (some request) = do notify_origin def request now_ms; pure (recorded request)

  close_found :
      WorkflowDef → AnswerInput → List Statement → Text → PendingRequest → Task World AnswerOutcome
  unfolding report
  close_found def input others answer found = do
    others_run runtime others
    now ← query_clock
    request ← statement (resolve runtime found.id answer input.answered_by now)
    report def input.now_ms request

  answer_found :
      WorkflowDef
      → AnswerInput
      → List Statement
      → Text
      → Option PendingRequest
      → Task World AnswerOutcome
  unfolding answer_missing close_found
  answer_found def input others answer none = answer_missing def input
  answer_found def input others answer (some found) =
      if same_room found.target input.target_room
      then close_found def input others answer found
      else answer_missing def input

  pub found_by_subject : WorkflowDef → Option Text → Table → Option PendingRequest
  found_by_subject def none table = none
  found_by_subject def (some subject) table = find_open runtime def.name subject table

  with_answer :
      WorkflowDef
      → AnswerInput
      → List Statement
      → Option Text
      → Option Text
      → Task World AnswerOutcome
  unfolding answer_found found_by_subject
  with_answer def input others subject none = pure invalid_answer
  with_answer def input others subject (some answer) = do
    found ← query (found_by_subject def subject)
    answer_found def input others answer found

  unfoldable pub answer_request :
      WorkflowDef → AnswerInput → List Statement → Task World AnswerOutcome
  unfolding with_answer
  answer_request def input others =
      let subject = def.normalize_subject input.subject in
      with_answer def input others subject
        (def.normalize_answer input.answer (or_else subject input.subject))
