-- ===== src/Workflow/Service.antt =====
-- The port that the tools use: a workflow is looked up by its slug, and an unknown slug is told
-- apart from every outcome (WorkflowService of src/workflows/service.ts).
use open_dilim.Prelude.{Option, none, some, List}
use open_dilim.Prelude.Text.{Text}
use open_dilim.Task.{Task, ◌>>=◌, pure}
use open_dilim.Chat.{RoomRef}
use open_dilim.Workflow.Types.{PendingRequest, WorkflowDef, resolve_def}
use open_dilim.Workflow.Row.{Runtime}
use open_dilim.Workflow.Queries
use open_dilim.Workflow.Store.Runs.{Statement}
use open_dilim.Workflow.Ask.{World, query}
use open_dilim.Workflow.Open.{OpenInput, OpenOutcome, Others, open_request}
use open_dilim.Workflow.Answer.{AnswerInput, AnswerOutcome, answer_request}

pub record OpenRequestInput : Type 0 where
  pub workflow : Text
  pub request : OpenInput

pub record AnswerRequestInput : Type 0 where
  pub workflow : Text
  pub request : AnswerInput

module _ (runtime : Runtime) (registry : List WorkflowDef) where
  unfoldable pub catalog : List WorkflowDef
  catalog = registry

  open_with : OpenInput → Others → Text → Option WorkflowDef → Task World (Option OpenOutcome)
  open_with input others uuid none = pure none
  open_with input others uuid (some def) = do
    outcome ← open_request runtime def input others uuid
    pure (some outcome)

  unfoldable pub open_by_name : OpenRequestInput → Others → Text → Task World (Option OpenOutcome)
  unfolding open_with
  open_by_name input others uuid =
      open_with input.request others uuid (resolve_def input.workflow registry)

  answer_with :
      AnswerInput → List Statement → Option WorkflowDef → Task World (Option AnswerOutcome)
  answer_with input others none = pure none
  answer_with input others (some def) = do
    outcome ← answer_request runtime def input others
    pure (some outcome)

  unfoldable pub answer_by_name :
      AnswerRequestInput → List Statement → Task World (Option AnswerOutcome)
  unfolding answer_with
  answer_by_name input others =
      answer_with input.request others (resolve_def input.workflow registry)

  unfoldable pub open_for_target : RoomRef → Task World (List PendingRequest)
  open_for_target room = query (Queries.open_for_target runtime room)

  unfoldable pub open_for_origin : RoomRef → Task World (List PendingRequest)
  open_for_origin room = query (Queries.open_for_origin runtime room)
