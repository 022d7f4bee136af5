-- ===== src/Workflow/Open.antt =====
-- Opening a request (openRequest of src/workflows/engine.ts).
pub mod Branches
pub mod Repeats
use open_dilim.Prelude.{
  ℕ, ◌≡◌, refl, Bool, true, false, Option, none, some, List, [], ◌∷◌, ◌++◌, if◌then◌else◌,
}
use open_dilim.Prelude.Text.{Text, codes}
use open_dilim.Task.{Task, ◌>>=◌, ◌>>◌, pure}
use open_dilim.Chat.{RoomRef, same_room}
use open_dilim.Workflow.Types.{Fields, end, PendingRequest, TargetResolution, WorkflowDef}
use open_dilim.Workflow.Schedule.{next_remind_at, expires_at}
use open_dilim.Workflow.Row.{Runtime, or_else}
use open_dilim.Workflow.Store.{OpenPendingInput, open_pending}
use open_dilim.Workflow.Queries.{find_open, find_answered}
use open_dilim.Workflow.Store.Runs.{Statement}
use open_dilim.Workflow.Ask.{World, query, statement, query_clock, others_run, dispatch_ask}

pub record OpenInput : Type 0 where
  pub subject : Text
  pub origin : RoomRef
  pub requester_id : Text
  pub now_ms : ℕ

pub data OpenOutcome : Type 0 where
  asked : PendingRequest → Bool → OpenOutcome
  already_open : PendingRequest → OpenOutcome
  already_answered : PendingRequest → OpenOutcome
  invalid_subject : OpenOutcome
  unknown_subject : OpenOutcome
  no_room : Text → OpenOutcome
  failed : Text → OpenOutcome

-- What other instances do to the table while this call waits.
pub record Others : Type 0 where
  pub after_find_open : List Statement
  pub after_find_answered : List Statement
  pub after_resolve_target : List Statement
  pub after_open : List Statement

module _ (runtime : Runtime) where
  -- The row is there: ask, unless the room that has to answer is the one that asked.
  ask_first : WorkflowDef → OpenInput → PendingRequest → Task World OpenOutcome
  ask_first def input request =
      if same_room request.target request.origin
      then pure (asked request true)
      else do dispatch_ask def request input.now_ms false; pure (asked request false)

  raced_outcome : Text → Option PendingRequest → OpenOutcome
  raced_outcome subject none = failed (codes "không mở được việc cho " ++ subject)
  raced_outcome subject (some raced) = already_open raced

  after_insert :
      WorkflowDef → OpenInput → Others → Text → Option PendingRequest → Task World OpenOutcome
  unfolding raced_outcome ask_first
  after_insert def input others subject (some request) = ask_first def input request
  after_insert def input others subject none = do
    others_run runtime others.after_open
    raced ← query (find_open runtime def.name subject)
    pure (raced_outcome subject raced)

  pending_input : WorkflowDef → OpenInput → Text → RoomRef → Option Fields → OpenPendingInput
  pending_input def input subject target state = record {
    workflow = def.name;
    subject = some subject;
    target = target;
    origin = input.origin;
    requester_id = input.requester_id;
    state = or_else state end;
    next_remind_at = next_remind_at def input.now_ms;
    expires_at = expires_at def input.now_ms;
  }

  -- The outcomes of `resolveTarget`.
  with_target :
      WorkflowDef → OpenInput → Others → Text → Text → TargetResolution → Task World OpenOutcome
  unfolding after_insert pending_input
  with_target def input others uuid subject TargetResolution.unknown_subject =
      pure OpenOutcome.unknown_subject
  with_target def input others uuid subject (TargetResolution.no_room detail) =
      pure (OpenOutcome.no_room detail)
  with_target def input others uuid subject (TargetResolution.failed reason) =
      pure (OpenOutcome.failed reason)
  with_target def input others uuid subject (TargetResolution.room target state) = do
    now ← query_clock
    request ←
        statement (open_pending runtime uuid now (pending_input def input subject target state))
    after_insert def input others subject request

  if_unanswered :
      WorkflowDef
      → OpenInput
      → Others
      → Text
      → Text
      → Option PendingRequest
      → Task World OpenOutcome
  unfolding with_target
  if_unanswered def input others uuid subject (some answered) = pure (already_answered answered)
  if_unanswered def input others uuid subject none = do
    others_run runtime others.after_find_answered
    others_run runtime others.after_resolve_target
    with_target def input others uuid subject (def.resolve_target subject)

  if_not_open :
      WorkflowDef
      → OpenInput
      → Others
      → Text
      → Text
      → Option PendingRequest
      → Task World OpenOutcome
  unfolding if_unanswered
  if_not_open def input others uuid subject (some waiting) = pure (already_open waiting)
  if_not_open def input others uuid subject none = do
    others_run runtime others.after_find_open
    answered ← query (find_answered runtime def.name subject)
    if_unanswered def input others uuid subject answered

  with_subject : WorkflowDef → OpenInput → Others → Text → Option Text → Task World OpenOutcome
  unfolding if_not_open
  with_subject def input others uuid none = pure invalid_subject
  with_subject def input others uuid (some subject) = do
    waiting ← query (find_open runtime def.name subject)
    if_not_open def input others uuid subject waiting

  unfoldable pub open_request : WorkflowDef → OpenInput → Others → Text → Task World OpenOutcome
  unfolding with_subject
  open_request def input others uuid =
      with_subject def input others uuid (def.normalize_subject input.subject)
