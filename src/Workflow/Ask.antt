-- ===== src/Workflow/Ask.antt =====
-- The state that the workflow engine works on, and the messages that it sends: the ask, and the
-- report to the room that asked (dispatchAsk, buildAskEnvelope and notifyOrigin of
-- src/workflows/engine.ts). Each `await` on the store may let other instances run: what they do to
-- the table in the meantime is an argument, a list of statements for each such moment.
pub mod Messages
pub mod Delivery
use open_dilim.Prelude.{
  ℕ, ◌+◌, ◌≡◌, refl, Bool, true, false, Option, none, some, List, [], ◌∷◌, ◌++◌, if◌then◌else◌,
}
use open_dilim.Prelude.Text.{Text, codes}
use open_dilim.Prelude.Decimal.{show}
use open_dilim.Task.{Task, Result, ok, ◌>>=◌, ◌>>◌, pure, ignore_failure}
use open_dilim.Chat.{Envelope, MessageSource, HistoryEntry, HistoryRole, BroadcastTarget}
use open_dilim.Chat.Ports.{Bus, first_see, append, publish, send}
use open_dilim.Broadcast.Limits.{cap_for_channel}
use open_dilim.Workflow.Types.{PendingRequest, WorkflowDef}
use open_dilim.Workflow.Row.{Runtime}
use open_dilim.Workflow.Store.{Table}
use open_dilim.Workflow.Store.Runs.{Statement, run}

pub record World : Type 0 where
  pub table : Table
  pub bus : Bus
  pub open bus use *

abbrev pub on_bus : {A : Type 0} → Task Bus A → Task World A
on_bus m w = let (r, bus') = m w.bus in (r, record w { bus = bus' })

abbrev pub query : {A : Type 0} → (Table → A) → Task World A
query f w = (ok (f w.table), w)

abbrev pub statement : {A : Type 0} → (Table → Result A × Table) → Task World A
statement f w = let (r, table') = f w.table in (r, record w { table = table' })

-- The database's `now()`.
abbrev pub query_clock : Task World ℕ
query_clock w = (ok w.clock, w)

abbrev pub workflow_sender_id : Text
workflow_sender_id = codes "workflow"

abbrev pub agent_sender_id : Text
agent_sender_id = codes "agent"

unfoldable pub ask_msg_id : Text → ℕ → Text
ask_msg_id request_id ask_count = codes "wf:" ++ request_id ++ b':' ∷ show ask_count

unfoldable pub build_ask_envelope : WorkflowDef → PendingRequest → ℕ → Bool → Envelope
unfolding ask_msg_id
build_ask_envelope def request now_ms is_reminder = record {
  source = MessageSource.cron;
  channel = request.target.channel;
  msg_id = ask_msg_id request.id request.ask_count;
  cli_msg_id = none;
  conversation_id = request.target.group_id;
  sender_id = workflow_sender_id;
  sender_name = none;
  is_group = true;
  addressed_to_agent = true;
  intent_gate = none;
  text = def.ask_text request is_reminder;
  image_url = none;
  file_url = none;
  file_name = none;
  mentions = [];
  ts = now_ms;
}

unfoldable pub to_history_entry : Envelope → HistoryEntry
to_history_entry envelope = record {
  conversation_id = envelope.conversation_id;
  msg_id = envelope.msg_id;
  sender_id = envelope.sender_id;
  sender_name = none;
  text = envelope.text;
  image_url = none;
  file_url = none;
  file_name = none;
  is_group = envelope.is_group;
  role = HistoryRole.user;
  ts = envelope.ts;
}

-- History before the queue, behind the dedupe gate; false if the ask was sent before.
push_ask : Envelope → Bool → Task World Bool
push_ask envelope false = pure false
push_ask envelope true = do
  on_bus (append (to_history_entry envelope))
  on_bus (publish envelope)
  pure true

unfoldable pub dispatch_ask : WorkflowDef → PendingRequest → ℕ → Bool → Task World Bool
unfolding push_ask
dispatch_ask def request now_ms is_reminder = do
  let envelope = build_ask_envelope def request now_ms is_reminder
  first ← on_bus (first_see envelope.channel envelope.msg_id)
  push_ask envelope first

pub result_entry : PendingRequest → Text → ℕ → HistoryEntry
result_entry request text now_ms = record {
  conversation_id = request.origin.group_id;
  msg_id = codes "wf-result:" ++ request.id;
  sender_id = agent_sender_id;
  sender_name = none;
  text = text;
  image_url = none;
  file_url = none;
  file_name = none;
  is_group = true;
  role = HistoryRole.agent;
  ts = now_ms;
}

unfoldable pub origin_target : PendingRequest → BroadcastTarget
origin_target request = record {
  channel = request.origin.channel;
  conversation_id = request.origin.group_id;
  is_group = true;
  reply_to_sender_id = request.requester_id;
  reply_to_sender_name = none;
}

unfoldable pub notify_origin : WorkflowDef → PendingRequest → ℕ → Task World (Unit {0})
unfolding result_entry origin_target
notify_origin def request now_ms = do
  let text = def.result_text request
  on_bus (send (origin_target request) (cap_for_channel request.origin.channel text))
  ignore_failure (on_bus (append (result_entry request text now_ms)))

module _ (runtime : Runtime) where
  abbrev pub others_run : List Statement → Task World (Unit {0})
  others_run statements w = (ok tt, record w { table = run runtime statements w.table })
