-- ===== src/Workflow/Open/Repeats.antt =====
-- Asking for the same subject a second time (openRequest of src/workflows/engine.ts).
use open_dilim.Prelude.{
  ◌≡◌, refl, Bool, true, false, Option, none, some, [], ◌∷◌, ap, arith, any, select-none,
}
use open_dilim.Prelude.Text.{Text}
use open_dilim.Task.{Result, ok, thrown, unique_violation, continue}
use open_dilim.Chat.{RoomRef}
use open_dilim.Workflow.Types.{Fields, PendingRequest, TargetResolution, WorkflowDef}
use open_dilim.Workflow.Row.{Row, Runtime}
use open_dilim.Workflow.Store.{
  Table, OpenPendingInput, new_row, idempotency_key, open_pending, is_open, conflicts, violates,
}
use open_dilim.Workflow.Queries.{find_open, find_answered, is_answered}
use open_dilim.Workflow.Store.Opening.{has_key}
use open_dilim.Workflow.Queries.Lookup.{open_pending-violation}
use open_dilim.Workflow.Store.Runs.{run}
use open_dilim.Workflow.Ask.{World}
use open_dilim.Workflow.Open.{
  OpenInput, asked, already_open, Others, pending_input, with_target, after_insert, if_unanswered,
  if_not_open, with_subject, open_request,
}
use open_dilim.Workflow.Open.Branches.{IsAsked, open_request-Opened}

module _ (runtime : Runtime) (def : WorkflowDef) (subject : Text) where
  already_open_lem :
      (input : OpenInput) (others : Others) (uuid : Text) (w : World) (request : PendingRequest)
      → def.normalize_subject input.subject ≡ some subject
      → find_open runtime def.name subject w.table ≡ some request
      → open_request runtime def input others uuid w ≡ (ok (already_open request), w)
  unfolding open_request with_subject if_not_open
  already_open_lem input others uuid w request given there = rw (given, there)

  -- Once a request was asked, asking for the same subject of the same workflow again reports that
  -- very request as open and changes nothing: no second row, no second message. Both subjects are
  -- spelled so that they normalize to the same one.
  pub open_request_twice :
      (input again : OpenInput) (others others' : Others) (uuid uuid' : Text) (w w' : World)
      (request : PendingRequest) (self_room : Bool)
      → def.normalize_subject input.subject ≡ some subject
      → def.normalize_subject again.subject ≡ some subject
      → open_request runtime def input others uuid w ≡ (ok (asked request self_room), w')
      → open_request runtime def again others' uuid' w' ≡ (ok (already_open request), w')
  open_request_twice input again others others' uuid uuid' w w' request self_room given given' e =
      already_open_lem again others' uuid' w' request given' is_asked.recorded
    where
      is_asked : IsAsked runtime def input subject request self_room w.bus w'
      is_asked = rw e at (open_request-Opened runtime def input subject others uuid w given)

abbrev pub nobody : Others
nobody = record {
  after_find_open = [];
  after_find_answered = [];
  after_resolve_target = [];
  after_open = [];
}

key_violates :
    (row : Row) (table : Table)
    → any (has_key row.idempotency_key) table ≡ true
    → violates row table ≡ true
unfolding violates
key_violates row [] h = h
key_violates row (r ∷ rs) h = ground (arith, key_violates row rs)

module _ (runtime : Runtime) (def : WorkflowDef) (subject : Text) (input : OpenInput) (uuid : Text)
    (w : World) where
  reopening_throws :
      (request : OpenPendingInput)
      → request.workflow ≡ def.name
      → request.subject ≡ some subject
      → any (is_open def.name subject) w.table ≡ false
      → any (has_key (idempotency_key def.name (some subject))) w.table ≡ true
      → open_pending runtime uuid w.clock request w.table ≡ (thrown unique_violation, w.table)
  reopening_throws request named given free used =
      open_pending-violation runtime uuid w.clock request w.table
        (rw (named, given) (unfold conflicts in free))
        (key_violates (new_row uuid w.clock request) w.table
          (unfold new_row in rw (named, given) used))

  no_row_found :
      any (is_open def.name subject) w.table ≡ false
      → find_open runtime def.name subject w.table ≡ none
  unfolding find_open
  no_row_found free = rw (select-none (is_open def.name subject) w.table free)

  no_answer_found :
      any (is_answered def.name subject) w.table ≡ false
      → find_answered runtime def.name subject w.table ≡ none
  unfolding find_answered
  no_answer_found free = rw (select-none (is_answered def.name subject) w.table free)

  -- A subject whose earlier request was closed without an answer cannot be asked for again: if
  -- the table still holds a row with its idempotency key, while none is open and none is answered,
  -- and there is a room to ask, the call throws on the UNIQUE constraint and records nothing.
  pub open_request_of_closed :
      (target : RoomRef) (state : Option Fields)
      → def.normalize_subject input.subject ≡ some subject
      → def.resolve_target subject ≡ TargetResolution.room target state
      → any (is_open def.name subject) w.table ≡ false
      → any (is_answered def.name subject) w.table ≡ false
      → any (has_key (idempotency_key def.name (some subject))) w.table ≡ true
      → open_request runtime def input nobody uuid w ≡ (thrown unique_violation, w)
  unfolding open_request with_subject if_not_open if_unanswered with_target run
  open_request_of_closed target state given located free unanswered used =
      rw (given, no_row_found free, no_answer_found unanswered, located)
        (ap
          (λ (p : Result (Option PendingRequest) × Table).
            continue (after_insert runtime def input nobody subject)
              (p.0, record w { table = p.1 }))
          (reopening_throws (pending_input runtime def input subject target state)
            (unfold pending_input in refl) (unfold pending_input in refl) free used))
