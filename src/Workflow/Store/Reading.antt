-- ===== src/Workflow/Store/Reading.antt =====
-- Reading back what a query returns (toRequest of src/workflows/store.ts).
use open_dilim.Prelude.{
  ℕ, ◌≡◌, Bool, true, false, Option, none, some, List, [], ◌∷◌, arith, if◌then◌else◌,
}
use open_dilim.Prelude.Text.{Text, text_eq, is_empty}
use open_dilim.Workflow.Types.{PendingRequest, pending, status_code}
use open_dilim.Workflow.Row.{Row, Runtime, to_request}
use open_dilim.Workflow.Store.{OpenPendingInput, new_row, returning}

-- The request carries the columns of its row.
pub record Mirrors (r : Row) (request : PendingRequest) : Type 0 where
  pub id : request.id ≡ r.approval_id
  pub workflow : request.workflow ≡ r.workflow
  pub channel : request.target.channel ≡ r.channel
  pub group_id : request.target.group_id ≡ r.conversation_id
  pub status : status_code request.status ≡ r.status
  pub ask_count : request.ask_count ≡ r.ask_count
  pub next_remind_at : request.next_remind_at ≡ r.next_remind_at
  pub expires_at : request.expires_at ≡ r.expires_at

-- A request that is read from a row carries the id, workflow, room, status, number of asks, reminder
-- and deadline of the row.
pub to_request-Mirrors :
    (runtime : Runtime) (r : Row) (request : PendingRequest)
    → to_request runtime (returning r) ≡ some request
    → Mirrors r request
unfolding to_request returning text_eq status_code
to_request-Mirrors runtime r request e = ground arith

abbrev nonempty : Option Text → Option Text
nonempty none = none
nonempty (some t) = if is_empty t then none else some t

abbrev pub all_present : List Text → Bool
all_present [] = true
all_present (t ∷ ts) = if is_empty t then false else all_present ts

-- What a new row is read back as.
abbrev pub opened_request : Text → OpenPendingInput → PendingRequest
opened_request uuid input = record {
  id = uuid;
  workflow = input.workflow;
  subject = nonempty input.subject;
  target = input.target;
  origin = input.origin;
  requester_id = input.requester_id;
  state = input.state;
  ask_count = 1;
  next_remind_at = input.next_remind_at;
  expires_at = input.expires_at;
  status = pending;
  answer = none;
}

-- A row that was just written is read back as the request that it was written for, exactly when
-- none of its required texts is empty; otherwise it is passed over as broken.
pub to_request-new_row :
    (runtime : Runtime) (uuid : Text) (now : ℕ) (input : OpenPendingInput)
    → to_request runtime (returning (new_row uuid now input)) ≡ (
        if all_present (
          uuid ∷ input.workflow ∷ input.target.group_id ∷ input.target.channel ∷ input.requester_id
          ∷ input.origin.channel ∷ input.origin.group_id ∷ [])
        then some (opened_request uuid input)
        else none)
unfolding to_request returning text_eq new_row
to_request-new_row runtime uuid now input = ground arith
