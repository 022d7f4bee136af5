-- ===== src/Broker/Tests.antt =====
-- Runs of the ingress stream (src/broker) on small inputs.
use open_dilim.Prelude.{ℕ, ◌≡◌, refl, true, false, Option, none, some, List, [], ◌∷◌, if◌then◌else◌}
use open_dilim.Prelude.Text.{Text, codes, text_eq}
use open_dilim.Task.{ok}
use open_dilim.Chat.{Envelope, channel}
use open_dilim.Workflow.Types.{Value, object}
use open_dilim.Broker.Replies.{StreamEntry, parse_envelope}
use open_dilim.Broker.Replies.Envelopes.{envelope_fields, parsed, parse_envelope-stringify}
use open_dilim.Broker.Stream.{Redis, PelRow}
use open_dilim.Broker.Stream.Safe.{is_safe}
use open_dilim.Broker.Queue.{
  World, Node, Turn, Delivery, reply_lost, publish, pump_once, reclaim_stale,
}
use open_dilim.Broker.Queue.Returns.{Ok}
use open_dilim.Broker.Queue.Batches.{IsRetried, listed_at, reclaim_stale-IsRetried}
use open_dilim.Broker.Queue.Handing.{IsHanded, pump_once-IsHanded}
use open_dilim.Broker.Actions.{
  Setup, Action, asking, pumping, acking, crashing, act_all, act_all-keeps,
}

abbrev message : Envelope
message = record {
  source = channel;
  channel = codes "zalo";
  msg_id = codes "m1";
  cli_msg_id = none;
  conversation_id = codes "g1";
  sender_id = codes "u1";
  sender_name = some (codes "An");
  is_group = true;
  addressed_to_agent = true;
  intent_gate = none;
  text = codes "hi";
  image_url = none;
  file_url = none;
  file_name = none;
  mentions = record { uid = codes "bot" } ∷ [];
  ts = 5;
}

-- One message is known to JSON.
abbrev stringify : Envelope → Text
stringify e = codes "{}"

abbrev parse_json : Text → Option Value
parse_json t = if text_eq t (codes "{}") then some (object (envelope_fields message)) else none

abbrev setup : Setup
setup = record {
  parse_json = parse_json;
  stringify = stringify;
  consumer = codes "w1";
  resp3 = true;
}

abbrev no_redis : Redis
no_redis = record {
  clock = 1000;
  seen = [];
  unread = [];
  pel = [];
  dlq = [];
  acked = [];
  trimmed = [];
}

abbrev entry : Text → Text → StreamEntry
entry id payload = record { id = id; payload = payload }

-- A message that cannot be read, and one that can.
abbrev redis : Redis
redis = record no_redis {
  unread = entry (codes "1-0") (codes "?") ∷ entry (codes "2-0") (codes "{}") ∷ [];
}

abbrev node : Node
node = record { waiters = 7 ∷ 8 ∷ 9 ∷ []; buffer = []; last_reclaim_at = 0; settled = [] }

abbrev calm : Redis → World
calm r = record { redis = r; node = node; turns = [] }

abbrev delivery : Delivery
delivery = record { id = codes "2-0"; envelope = parsed message }

parse_envelope-stringify_example :
    parse_envelope parse_json (stringify message) ≡ some (parsed message)
unfolding text_eq
parse_envelope-stringify_example =
    parse_envelope-stringify message refl refl refl stringify parse_json refl

pump_once-IsHanded_example :
    IsHanded parse_json
      (entry (codes "1-0") (codes "?") ∷ entry (codes "2-0") (codes "{}") ∷ [])
      redis
      node
      (pump_once parse_json (codes "w1") true (calm redis)).1
pump_once-IsHanded_example = pump_once-IsHanded parse_json (codes "w1") true redis node refl

-- Of two messages that are pending for long, the second was delivered three times.
abbrev pending_row : Text → ℕ → PelRow
pending_row id deliveries = record {
  id = id;
  consumer = codes "w0";
  since = 0;
  deliveries = deliveries;
}

abbrev left_over : World
left_over = calm (record no_redis {
  clock = 400000;
  seen = entry (codes "1-0") (codes "{}") ∷ entry (codes "2-0") (codes "{}") ∷ [];
  pel = pending_row (codes "1-0") 1 ∷ pending_row (codes "2-0") 3 ∷ [];
})

is_claimed_again :
    (reclaim_stale (codes "w1") 2 left_over).0 ≡ ok (entry (codes "1-0") (codes "{}") ∷ [])
unfolding reclaim_stale open_dilim.Broker.Stream.Runs.run text_eq
is_claimed_again = refl

reclaim_stale-IsRetried_example :
    Ok (IsRetried 2 (listed_at left_over)) (reclaim_stale (codes "w1") 2 left_over).0
reclaim_stale-IsRetried_example = reclaim_stale-IsRetried (codes "w1") 2 left_over

is_published : (publish stringify (codes "3-0") 0 message (calm redis)).0 ≡ ok tt
unfolding publish
is_published = refl

abbrev actions : List (Action × List Turn)
actions =
    (asking 1 false, [])
    ∷ (pumping 2, record { foreign = []; calls = []; fate = reply_lost } ∷ [])
    ∷ (acking delivery, [])
    ∷ (crashing, [])
    ∷ []

act_all-keeps_example :
    is_safe
      (codes "3-0")
      (act_all setup actions (publish stringify (codes "3-0") 0 message (calm redis)).1).redis
    ≡ true
act_all-keeps_example =
    act_all-keeps setup message (codes "3-0") 0 (calm redis) is_published actions
