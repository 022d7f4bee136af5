-- ===== src/Workflow/Answer/Branches.antt =====
-- What an answer leads to, on every branch (answerRequest of src/workflows/engine.ts).
use open_dilim.Prelude.{◌⊎◌, ℕ, ◌≡◌, true, false, Option, some, List, [], ◌∷◌, ◌++◌, any}
use open_dilim.Prelude.Text.{Text}
use open_dilim.Task.{Result, ok, thrown}
use open_dilim.Chat.{same_room}
use open_dilim.Chat.Ports.{Bus, Sent}
use open_dilim.Broadcast.Limits.{cap_for_channel}
use open_dilim.Workflow.Types.{PendingRequest, WorkflowDef}
use open_dilim.Workflow.Row.{Runtime, or_else}
use open_dilim.Workflow.Store.{Table, resolve}
use open_dilim.Workflow.Queries.{open_for_target}
use open_dilim.Workflow.Store.Answering.{is_asked, with_answered, IsReturned, IsBroken}
use open_dilim.Workflow.Store.Runs.{Statement, run}
use open_dilim.Workflow.Ask.{World, origin_target}
use open_dilim.Workflow.Answer.{
  AnswerInput, AnswerOutcome, recorded, invalid_answer, not_found, closed, open_subjects,
  found_by_subject,
}

-- The report went to the room that asked, after all that was sent before, and to nobody else.
abbrev pub Reported : WorkflowDef → PendingRequest → Bus → World → Type 0
Reported def request before after =
    (after.sent
      ≡ before.sent
        ++ record {
          target = origin_target request;
          text = cap_for_channel request.origin.channel (def.result_text request);
        }
          ∷ [])
    × (after.ingress ≡ before.ingress)

abbrev pub Silent : Bus → World → Type 0
Silent before after = (after.sent ≡ before.sent) × (after.ingress ≡ before.ingress)

-- The report either goes out whole or, if the channel throws, not at all.
abbrev Notified : WorkflowDef → PendingRequest → World → Result (Unit {0}) → World → Type 0
Notified def request before (ok _) after =
    Reported def request before.bus after × (after.table ≡ before.table)
Notified def request before (thrown e) after =
    Silent before.bus after
    × (after.table ≡ before.table)
    × (before.outages.broadcaster request.origin.group_id ≡ true)

module _ (def : WorkflowDef) (request : PendingRequest) (now_ms : ℕ) (w : World) where
  abbrev reported_sent : List Sent
  reported_sent =
      w.sent
      ++ record {
        target = origin_target request;
        text = cap_for_channel request.origin.channel (def.result_text request);
      }
        ∷ []

-- The request that the subject names, in the table as it was read; the answering room was asked it.
pub record IsAsked (runtime : Runtime) (def : WorkflowDef) (input : AnswerInput) (before : World)
    (found : PendingRequest) : Type 0 where
  pub there :
      found_by_subject runtime def (def.normalize_subject input.subject) before.table ≡ some found
  pub room : same_room found.target input.target_room ≡ true

module _ (runtime : Runtime) (def : WorkflowDef) (input : AnswerInput)
    (others : List Statement) where
  -- The answer in its normal form is stored with the request that was found, the other rows stay as
  -- the other instances left them, and that request, as its row then reads, is reported to the room
  -- it came from.
  pub record IsRecorded (before : World) (request : PendingRequest) (after : World) : Type 0 where
    pub found : PendingRequest
    pub asked : IsAsked runtime def input before found
    pub answer : Text
    pub valid :
        def.normalize_answer input.answer
          (or_else (def.normalize_subject input.subject) input.subject)
        ≡ some answer
    pub returned :
        IsReturned runtime found.id answer input.answered_by before.clock
          (run runtime others before.table)
          request
    pub stored :
        after.table
        ≡ with_answered found.id answer input.answered_by before.clock
            (run runtime others before.table)
    pub reported : Reported def request before.bus after

  -- The answer is stored all the same; either the row cannot be read back, or the room that asked
  -- cannot be reached.
  pub record IsFailed (before after : World) : Type 0 where
    pub found : PendingRequest
    pub asked : IsAsked runtime def input before found
    pub answer : Text
    pub valid :
        def.normalize_answer input.answer
          (or_else (def.normalize_subject input.subject) input.subject)
        ≡ some answer
    pub cause :
        IsBroken runtime found.id answer input.answered_by before.clock
          (run runtime others before.table)
        ⊎ ((request : PendingRequest) × IsReturned runtime found.id answer input.answered_by
              before.clock
              (run runtime others before.table)
              request
            × (before.outages.broadcaster request.origin.group_id ≡ true))
    pub stored :
        after.table
        ≡ with_answered found.id answer input.answered_by before.clock
            (run runtime others before.table)
    pub silent : Silent before.bus after

  -- The request that was found is open no more when it is to be closed.
  pub record IsLate (before after : World) : Type 0 where
    pub found : PendingRequest
    pub asked : IsAsked runtime def input before found
    pub gone : any (is_asked found.id) (run runtime others before.table) ≡ false
    pub bus : after.bus ≡ before.bus

  abbrev pub Answered : World → Result AnswerOutcome → World → Type 0
  Answered before (ok (recorded request)) after = IsRecorded before request after
  Answered before (ok invalid_answer) after = after ≡ before
  Answered before (ok (not_found subjects)) after =
      (after ≡ before)
      × (subjects
          ≡ open_subjects runtime def (open_for_target runtime input.target_room before.table))
  Answered before (ok closed) after = IsLate before after
  Answered before (thrown e) after = IsFailed before after

  module _ (answer : Text) (found : PendingRequest) (before : World)
      (asked : IsAsked runtime def input before found)
      (valid : def.normalize_answer input.answer
          (or_else (def.normalize_subject input.subject) input.subject)
        ≡ some answer) where
    abbrev at_closing : Table
    at_closing = run runtime others before.table

    abbrev closing : Result (Option PendingRequest) × Table
    closing = resolve runtime found.id answer input.answered_by before.clock at_closing
