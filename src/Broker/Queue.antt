-- ===== src/Broker/Queue.antt =====
-- The consumer of the ingress stream (src/broker/queue.ts): RedisStreamBroker, with publish, take and
-- its loop. Before a command is served, other instances send theirs, and the workers of this one ask
-- and abort: the `turns` say what, and whether the command is served, refused, or served without its
-- reply coming back. The group is there from the start (ensureGroup); JSON.parse and JSON.stringify
-- are parameters. `settled` notes what the promises of take() resolved to. The flag `pumping` lets one
-- loop run at a time, so that its rounds follow one another and the calls of take() fall in between.
pub mod Calculus
pub mod Refinement
pub mod Returns
pub mod Retry
pub mod Batches
pub mod Handing
use open_dilim.Prelude.{
  ℕ, ◌+◌, ◌-◌, ◌*◌, min, Bool, true, false, Option, none, some, List, [], ◌∷◌, ◌++◌, map, any, drop,
  take, length, get_first, ltb, leb, ◌==◌, if◌then◌else◌,
}
use open_dilim.Prelude.Text.{Text, codes}
use open_dilim.Task.{Task, ok, thrown, unavailable, ◌>>=◌, ◌>>◌, pure, ignore_failure}
use open_dilim.Chat.{Envelope}
use open_dilim.Workflow.Types.{Value, integer, text}
use open_dilim.Broker.Replies.{
  StreamEntry, PendingEntry, ParsedEnvelope, parse_entries, parse_read_reply, parse_pending,
  parse_envelope,
}
use open_dilim.Broker.Stream.{
  Redis, xadd, xreadgroup, xclaim, xack, xdel, xadd_dlq, stale_rows, claimed_entries, entries_with,
  entries_reply, read_reply, pending_reply,
}
use open_dilim.Broker.Stream.Runs.{Command, confirm, run}

abbrev pub ingress_stream : Text
ingress_stream = codes "dilim:ingress"

abbrev pub data_field : Text
data_field = codes "data"

abbrev pub reclaim_interval_ms : ℕ
reclaim_interval_ms = 30000

abbrev pub reclaim_min_idle_ms : ℕ
reclaim_min_idle_ms = 300000

abbrev pub reclaim_batch : ℕ
reclaim_batch = 32

abbrev pub max_deliveries : ℕ
max_deliveries = 3

-- The closures `ack` and `retryLater` of a delivery know its id.
pub record Delivery : Type 0 where
  pub id : Text
  pub envelope : ParsedEnvelope

pub record Settlement : Type 0 where
  pub waiter : ℕ
  pub delivery : Option Delivery

pub record Node : Type 0 where
  pub waiters : List ℕ
  pub buffer : List Delivery
  pub last_reclaim_at : ℕ
  pub settled : List Settlement

pub data Call : Type 0 where
  taking : ℕ → Bool → Call
  aborting : ℕ → Call

pub data Fate : Type 0 where
  served refused reply_lost : Fate

pub record Turn : Type 0 where
  pub foreign : List Command
  pub calls : List Call
  pub fate : Fate

pub record World : Type 0 where
  pub redis : Redis
  pub node : Node
  pub turns : List Turn

abbrev settle : ℕ → Option Delivery → Node → Node
settle waiter delivery node = record node {
  settled = node.settled ++ record { waiter = waiter; delivery = delivery } ∷ [];
}

abbrev take_buffered : ℕ → List Delivery → Node → Node
take_buffered waiter [] node = record node { waiters = node.waiters ++ waiter ∷ [] }
take_buffered waiter (first ∷ rest) node =
    settle waiter (some first) (record node { buffer = rest })

-- `take`, up to its call of `pump`, by a worker whose signal is aborted or not.
unfoldable pub take_one : ℕ → Bool → Node → Node
take_one waiter aborted node =
    if aborted then settle waiter none node else take_buffered waiter node.buffer node

abbrev without_waiter : ℕ → List ℕ → List ℕ
without_waiter waiter [] = []
without_waiter waiter (first ∷ rest) =
    if first == waiter then rest else first ∷ without_waiter waiter rest

-- `onAbort`: the listener of a waiter that has its message is removed.
unfoldable pub abort_one : ℕ → Node → Node
abort_one waiter node =
    if any (λ w. w == waiter) node.waiters
    then settle waiter none (record node { waiters = without_waiter waiter node.waiters })
    else node

unfoldable pub call_all : List Call → Node → Node
unfolding take_one abort_one
call_all [] node = node
call_all (taking waiter aborted ∷ calls) node = call_all calls (take_one waiter aborted node)
call_all (aborting waiter ∷ calls) node = call_all calls (abort_one waiter node)

abbrev pub quiet : Turn
quiet = record { foreign = []; calls = []; fate = served }

abbrev pub next_turn : List Turn → Turn
next_turn [] = quiet
next_turn (turn ∷ turns) = turn

-- What happens while this instance awaits.
unfoldable pub awaited : World → World
unfolding call_all
awaited w = record {
  redis = run (next_turn w.turns).foreign w.redis;
  node = call_all (next_turn w.turns).calls w.node;
  turns = drop 1 w.turns;
}

abbrev pub serve : (Redis → Value × Redis) → Fate → Task World Value
serve command served w = (ok (command w.redis).0, record w { redis = (command w.redis).1 })
serve command refused w = (thrown unavailable, w)
serve command reply_lost w = (thrown unavailable, record w { redis = (command w.redis).1 })

unfoldable pub send : (Redis → Value × Redis) → Task World Value
unfolding awaited
send command w = serve command (next_turn w.turns).fate (awaited w)

-- Another task of this instance runs in between.
unfoldable pub breathe : Task World (Unit {0})
unfolding awaited
breathe w = (ok tt, awaited w)

abbrev pub on_node : (Node → Node) → Task World (Unit {0})
on_node f w = (ok tt, record w { node = f w.node })

-- `new_id` is the id that XADD makes, and `cut` how many entries it would like to trim.
unfoldable pub publish : (Envelope → Text) → Text → ℕ → Envelope → Task World (Unit {0})
unfolding send xadd
publish stringify new_id cut envelope = do
  send (λ r. (text new_id, xadd (record { id = new_id; payload = stringify envelope }) cut r))
  pure tt

unfoldable pub ack : Delivery → Task World (Unit {0})
unfolding send xdel
ack delivery = do
  send (λ r. (integer 1, confirm delivery.id r))
  send (λ r. (integer 1, xdel delivery.id r))
  pure tt

abbrev pub retry_later : Delivery → Task World (Unit {0})
retry_later delivery = pure tt

-- The dead letter is written before the entry is acknowledged and deleted.
unfoldable pub dead_letter : Text → Text → Task World (Unit {0})
unfolding send xadd_dlq xack xdel
dead_letter id payload = do
  send (λ r. (text id, xadd_dlq payload id r))
  send (λ r. (integer 1, xack id r))
  send (λ r. (integer 1, xdel id r))
  pure tt

abbrev pub payload_of : List StreamEntry → Text
payload_of [] = []
payload_of (entry ∷ entries) = entry.payload

unfoldable pub dead_letter_by_id : Text → Task World (Unit {0})
unfolding send dead_letter entries_reply parse_entries
dead_letter_by_id id = do
  raw ← send (λ r. (entries_reply data_field (entries_with id r), r))
  dead_letter id (payload_of (parse_entries raw data_field))

-- The ids to claim again; what was delivered too often goes to the dead letters.
unfoldable pub sort_out : List PendingEntry → Task World (List Text)
unfolding dead_letter_by_id
sort_out [] = pure []
sort_out (entry ∷ entries) =
    if leb max_deliveries entry.deliveries
    then (do dead_letter_by_id entry.id; sort_out entries)
    else (do ids ← sort_out entries; pure (entry.id ∷ ids))

module _ (consumer : Text) where
  unfoldable pub claim_again : List Text → Task World (List StreamEntry)
  unfolding send xclaim entries_reply parse_entries
  claim_again [] = pure []
  claim_again (first ∷ rest) = do
    raw ← send (λ r. (
      entries_reply data_field (claimed_entries reclaim_min_idle_ms (first ∷ rest) r),
      xclaim consumer reclaim_min_idle_ms (first ∷ rest) r,
    ))
    pure (parse_entries raw data_field)

  unfoldable pub reclaim_listed : List PendingEntry → Task World (List StreamEntry)
  unfolding sort_out claim_again
  reclaim_listed [] = pure []
  reclaim_listed (first ∷ rest) = do ids ← sort_out (first ∷ rest); claim_again ids

  unfoldable pub list_and_reclaim : ℕ → Task World (List StreamEntry)
  unfolding send reclaim_listed pending_reply parse_pending
  list_and_reclaim limit = do
    raw ← send (λ r.
        (pending_reply r.clock (stale_rows reclaim_min_idle_ms (min limit reclaim_batch) r), r))
    reclaim_listed (parse_pending raw)

  unfoldable pub reclaim_stale : ℕ → Task World (List StreamEntry)
  unfolding list_and_reclaim
  reclaim_stale limit w =
      let now = w.redis.clock in
      if ltb (now - w.node.last_reclaim_at) reclaim_interval_ms
      then (ok [], w)
      else list_and_reclaim limit (record w { node = record w.node { last_reclaim_at = now } })

  module _ (resp3 : Bool) where
    unfoldable pub read_new : ℕ → Task World (List StreamEntry)
    unfolding send xreadgroup read_reply parse_read_reply
    read_new count = do
      raw ← send (λ r. (
        read_reply resp3 ingress_stream data_field (take count r.unread),
        xreadgroup consumer count r,
      ))
      pure (parse_read_reply raw data_field)

abbrev hand_to : List ℕ → Delivery → Node → Node
hand_to [] delivery node = record node { buffer = node.buffer ++ delivery ∷ [] }
hand_to (waiter ∷ waiters) delivery node =
    settle waiter (some delivery) (record node { waiters = waiters })

unfoldable pub hand_over : Delivery → Node → Node
hand_over delivery node = hand_to node.waiters delivery node

module _ (parse_json : Text → Option Value) where
  unfoldable pub deliver_parsed : StreamEntry → Option ParsedEnvelope → Task World (Unit {0})
  unfolding dead_letter hand_over
  deliver_parsed entry none = dead_letter entry.id entry.payload
  deliver_parsed entry (some envelope) =
      on_node (hand_over (record { id = entry.id; envelope = envelope }))

  unfoldable pub deliver : StreamEntry → Task World (Unit {0})
  unfolding deliver_parsed parse_envelope
  deliver entry = deliver_parsed entry (parse_envelope parse_json entry.payload)

  unfoldable pub deliver_all : List StreamEntry → Task World (Unit {0})
  unfolding deliver breathe
  deliver_all [] = pure tt
  deliver_all (entry ∷ entries) = do deliver entry; breathe; deliver_all entries

  module _ (consumer : Text) (resp3 : Bool) where
    unfoldable pub or_read_new : ℕ → List StreamEntry → Task World (List StreamEntry)
    unfolding read_new
    or_read_new want [] = read_new consumer resp3 want
    or_read_new want (first ∷ rest) = pure (first ∷ rest)

    -- Stale messages, or else new ones.
    unfoldable pub fetch : ℕ → Task World (List StreamEntry)
    unfolding reclaim_stale or_read_new
    fetch want = do reclaimed ← reclaim_stale consumer want; or_read_new want reclaimed

    unfoldable pub read_and_deliver : ℕ → Task World (Unit {0})
    unfolding fetch deliver_all
    read_and_deliver want = do batch ← fetch want; deliver_all batch

    -- The body of the loop of `pump`, where a waiter is left.
    unfoldable pub pump_once : Task World (Unit {0})
    unfolding read_and_deliver
    pump_once w =
        if length w.node.waiters == 0
        then (ok tt, w)
        else ignore_failure (read_and_deliver (length w.node.waiters)) w

    -- So many rounds of the loop, or fewer if no waiter is left.
    unfoldable pub pump : ℕ → Task World (Unit {0})
    unfolding pump_once
    pump ℕ.zero = pure tt
    pump (ℕ.suc rounds) = do pump_once; pump rounds
