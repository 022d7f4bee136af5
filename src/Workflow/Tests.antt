-- ===== src/Workflow/Tests.antt =====
-- Runs of the workflow engine on small inputs, and the theorems at them: a stock question that the
-- sales room puts to the warehouse (src/workflows).
use open_dilim.Prelude.Update.{update_where}
use open_dilim.Prelude.{
  ℕ, ◌≤◌, ◌≡◌, refl, true, false, Option, none, some, List, [], ◌∷◌, arith, if◌then◌else◌,
}
use open_dilim.Prelude.Text.{Text, codes, text_eq, is_empty, trim}
use open_dilim.Task.{ok, thrown, unique_violation}
use open_dilim.Chat.{RoomRef, same_room}
use open_dilim.Chat.Ports.{served, first_see, append, publish, Outages}
use open_dilim.Workflow.Types.{end, PendingRequest, TargetResolution, WorkflowDef, subject_is}
use open_dilim.Workflow.Row.{Row, Runtime, or_else, to_request}
use open_dilim.Workflow.Schedule.{expires_at, next_remind_at, shift_into_office_hours}
use open_dilim.Workflow.Schedule.Hours.{InOfficeHours, shift_into_office_hours-least}
use open_dilim.Workflow.Store.{
  Table, OpenPendingInput, new_row, insert_row, claim_remind, is_claimable, open_pending, returning,
  is_open, expire_due,
}
use open_dilim.Workflow.Queries.{find_answered, find_open, is_answered}
use open_dilim.Workflow.Store.Runs.{
  Statement, execute, granted, opening, claiming, resolving, expiring, run, grants, closings,
}
use open_dilim.Workflow.Store.Uniqueness.{IsValid, run-IsValid}
use open_dilim.Workflow.Store.Claims.{grants-le-one}
use open_dilim.Workflow.Store.Closing.{closings-le-one}
use open_dilim.Workflow.Store.Reading.{opened_request}
use open_dilim.Workflow.Ask.{World, dispatch_ask}
use open_dilim.Workflow.Ask.Delivery.{Dispatched, dispatch_ask-Dispatched}
use open_dilim.Workflow.Open.{OpenInput, asked, open_request}
use open_dilim.Workflow.Open.Branches.{Opened, open_request-Opened}
use open_dilim.Workflow.Open.Repeats.{nobody, open_request_of_closed}
use open_dilim.Workflow.Answer.{AnswerInput}
use open_dilim.Workflow.Poller.{remind}
use open_dilim.Workflow.Poller.Claiming.{Reminded, remind-Reminded}

abbrev warehouse : RoomRef
warehouse = record { channel = codes "zalo"; group_id = codes "kho" }

abbrev sales : RoomRef
sales = record { channel = codes "zalo"; group_id = codes "sale" }

abbrev runtime : Runtime
runtime = record { parse_date = λ _. none; parse_json = λ _. none }

nonblank : Text → Option Text
unfolding trim
nonblank t = if is_empty (trim t) then none else some (trim t)

abbrev stock : WorkflowDef
stock = record {
  name = codes "stock";
  ttl_ms = 7200000;
  remind_interval_ms = 3600000;
  office_hours_only = true;
  normalize_subject = nonblank;
  normalize_answer = λ answer _. nonblank answer;
  resolve_target = λ s.
      if text_eq s (codes "DH1")
      then TargetResolution.room warehouse none
      else TargetResolution.unknown_subject;
  ask_text = λ _ is_reminder. codes (if is_reminder then "?" else "!");
  result_text = λ r. or_else r.answer [];
}

abbrev all_up : Outages
all_up = record {
  dedupe = λ _. served;
  rpush = λ _. served;
  ltrim = λ _. served;
  expire = λ _. served;
  broker = λ _. served;
  broadcaster = λ _. false;
}

-- 9:00 in Hanoi, on the second day of the epoch.
abbrev nine : ℕ
nine = 93600000

abbrev world_of : Table → World
world_of table = record {
  table = table;
  bus = record {
    clock = nine;
    outages = all_up;
    seen = [];
    history = λ _. [];
    ingress = [];
    sent = [];
  };
}

abbrev question : OpenInput
question = record {
  subject = codes " DH1 ";
  origin = sales;
  requester_id = codes "u1";
  now_ms = nine;
}

abbrev reply : AnswerInput
reply = record {
  subject = codes "DH1";
  answer = codes "yes";
  target_room = warehouse;
  answered_by = codes "u2";
  now_ms = nine;
}

abbrev dh1 : OpenPendingInput
dh1 = record {
  workflow = codes "stock";
  subject = some (codes "DH1");
  target = warehouse;
  origin = sales;
  requester_id = codes "u1";
  state = end;
  next_remind_at = some 97200000;
  expires_at = 100800000;
}

abbrev row : Row
row = new_row (codes "id1") nine dh1

abbrev request : PendingRequest
request = opened_request (codes "id1") dh1

abbrev table : Table
table = row ∷ []

empty-IsValid : IsValid []
empty-IsValid = record {
  one_open = λ _ _. omega arith;
  one_id = λ _. omega arith;
  one_key = λ _. omega arith;
}

table-IsValid : IsValid table
table-IsValid = record {
  one_open = λ w s. ground arith;
  one_id = λ id. ground arith;
  one_key = λ key. ground arith;
}

-- Two instances claim the same reminder, and two answers come for it.
abbrev statements : List Statement
statements =
    claiming (codes "id1") 97200000 100800000
    ∷ claiming (codes "id1") 97200000 100800001
    ∷ resolving (codes "id1") (codes "yes") (codes "u2") nine
    ∷ resolving (codes "id1") (codes "no") (codes "u3") nine
    ∷ opening (codes "id2") nine dh1
    ∷ expiring 200000000
    ∷ []

run-IsValid_example : IsValid (run runtime statements table)
run-IsValid_example = run-IsValid runtime statements table table-IsValid

grants-le-one_example : grants runtime (codes "id1") 97200000 statements table ≤ 1
grants-le-one_example =
    grants-le-one runtime (codes "id1") 97200000 statements table table-IsValid
      (unfold text_eq new_row in refl) (omega arith, (omega arith, (tt, (tt, (tt, (tt, tt))))))

grants_of_statements : grants runtime (codes "id1") 97200000 statements table ≡ 1
unfolding grants execute granted claim_remind is_claimable update_where text_eq new_row
grants_of_statements = refl

closings-le-one_example : closings runtime (codes "id1") statements table ≤ 1
closings-le-one_example =
    closings-le-one runtime (codes "id1") statements table table-IsValid
      (unfold text_eq new_row in refl)

to_request-new_row_lem : to_request runtime (returning row) ≡ some request
unfolding to_request returning text_eq new_row
to_request-new_row_lem = refl

dispatch_ask-Dispatched_example :
    Dispatched stock request nine false
      (world_of table)
      (dispatch_ask stock request nine false (world_of table)).0
      (dispatch_ask stock request nine false (world_of table)).1
dispatch_ask-Dispatched_example = dispatch_ask-Dispatched stock request nine false (world_of table)

given : nonblank (codes " DH1 ") ≡ some (codes "DH1")
unfolding nonblank trim
given = refl

open_request-Opened_example :
    Opened runtime stock question
      (codes "DH1")
      (world_of []).bus
      (open_request runtime stock question nobody (codes "id1") (world_of [])).0
      (open_request runtime stock question nobody (codes "id1") (world_of [])).1
open_request-Opened_example =
    open_request-Opened runtime stock question (codes "DH1") nobody (codes "id1") (world_of [])
      given

abbrev opened : World
opened = (open_request runtime stock question nobody (codes "id1") (world_of [])).1

asks_first :
    open_request runtime stock question nobody (codes "id1") (world_of [])
    ≡ (ok (asked request false), opened)
unfolding open_request nonblank trim find_open find_answered is_open is_answered open_pending
    insert_row new_row to_request returning text_eq same_room dispatch_ask first_see append publish
    run next_remind_at expires_at shift_into_office_hours
asks_first = refl

abbrev expired_table : Table
expired_table = (expire_due 200000000 table).1

open_request_of_closed_example :
    open_request runtime stock question nobody (codes "id2") (world_of expired_table)
    ≡ (thrown unique_violation, world_of expired_table)
unfolding subject_is
open_request_of_closed_example =
    open_request_of_closed runtime stock (codes "DH1") question (codes "id2")
      (world_of expired_table) warehouse none given (unfold text_eq in refl)
      (unfold expire_due is_open new_row text_eq in refl)
      (unfold expire_due is_answered new_row text_eq in refl)
      (unfold expire_due new_row text_eq in refl)

remind-Reminded_example :
    Reminded runtime
      (stock ∷ [])
      request
      97200000
      (run runtime [] table)
      (world_of table).bus
      (remind runtime (stock ∷ []) request 97200000 [] (world_of table)).1
remind-Reminded_example = remind-Reminded runtime (stock ∷ []) request 97200000 [] (world_of table)

shift_into_office_hours-least_example :
    (0 ≤ shift_into_office_hours 0)
    × InOfficeHours (shift_into_office_hours 0)
    × ((other : ℕ) → 0 ≤ other → InOfficeHours other → shift_into_office_hours 0 ≤ other)
shift_into_office_hours-least_example = shift_into_office_hours-least 0
