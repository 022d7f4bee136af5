-- ===== src/Broker/Actions.antt =====
-- What an instance of the server is asked to do with the ingress stream: publish, take and abort, run
-- the loop, acknowledge or leave a message, or it crashes and starts again (src/broker/queue.ts). The
-- other instances send their commands while it awaits.
use open_dilim.Prelude.{any-append, ℕ, ◌≡◌, refl, Bool, true, Option, List, [], ◌∷◌, ◌++◌, arith}
use open_dilim.Prelude.Text.{Text, text_eq_refl}
use open_dilim.Task.{Task, ok, pure, ◌>>◌}
use open_dilim.Chat.{Envelope}
use open_dilim.Workflow.Types.{Value, text}
use open_dilim.Broker.Replies.{StreamEntry}
use open_dilim.Broker.Stream.{Redis, has_entry_id, xadd, excess}
use open_dilim.Broker.Stream.Runs.{run}
use open_dilim.Broker.Stream.Safe.{is_safe, run-is_safe, trim_oldest-is_safe}
use open_dilim.Broker.Queue.{
  World, Node, Turn, Delivery, publish, ack, retry_later, pump, take_one, abort_one, on_node,
  breathe, Fate, served, refused, reply_lost, serve, send, awaited, next_turn,
}
use open_dilim.Broker.Queue.Calculus.{
  Refines, Refines-trans, Lawful, pure-Lawful, on_node-Lawful, breathe-Lawful,
}
use open_dilim.Broker.Queue.Refinement.{ack-Lawful, publish-Lawful, pump-Lawful}

pub record Setup : Type 0 where
  pub parse_json : Text → Option Value
  pub stringify : Envelope → Text
  pub consumer : Text
  pub resp3 : Bool

pub data Action : Type 0 where
  publishing : Envelope → Text → ℕ → Action
  asking : ℕ → Bool → Action
  giving_up : ℕ → Action
  pumping : ℕ → Action
  acking : Delivery → Action
  retrying : Delivery → Action
  waiting : Action
  crashing : Action

-- A process that starts again knows nothing of its waiters and of what it buffered.
abbrev restarted : Node → Node
restarted node = record node { waiters = []; buffer = []; last_reclaim_at = 0 }

module _ (s : Setup) where
  unfoldable pub act : Action → Task World (Unit {0})
  unfolding publish take_one abort_one pump ack breathe
  act (publishing envelope new_id cut) = publish s.stringify new_id cut envelope
  act (asking waiter aborted) = on_node (take_one waiter aborted)
  act (giving_up waiter) = on_node (abort_one waiter)
  act (pumping rounds) = pump s.parse_json s.consumer s.resp3 rounds
  act (acking delivery) = ack delivery
  act (retrying delivery) = retry_later delivery
  act waiting = breathe
  act crashing = on_node restarted

  -- One action after the other, whether or not they throw; before each, `turns` is what the commands
  -- that it sends will meet.
  unfoldable pub act_all : List (Action × List Turn) → World → World
  unfolding act
  act_all [] w = w
  act_all ((a, turns) ∷ rest) w = act_all rest (act a (record w { turns = turns })).1

  act-Lawful : (a : Action) → Lawful (act a)
  unfolding act take_one abort_one
  act-Lawful (publishing envelope new_id cut) = publish-Lawful s.stringify new_id cut envelope
  act-Lawful (asking waiter aborted) = on_node-Lawful (take_one waiter aborted)
  act-Lawful (giving_up waiter) = on_node-Lawful (abort_one waiter)
  act-Lawful (pumping rounds) = pump-Lawful s.parse_json s.consumer s.resp3 rounds
  act-Lawful (acking delivery) = ack-Lawful delivery
  act-Lawful (retrying delivery) = pure-Lawful
  act-Lawful waiting = breathe-Lawful
  act-Lawful crashing = on_node-Lawful restarted

  act_all-Refines :
      (actions : List (Action × List Turn)) (w : World) → Refines w (act_all actions w)
  unfolding act_all run
  act_all-Refines [] w = ([], refl)
  act_all-Refines ((a, turns) ∷ rest) w =
      let after = (act a (record w { turns = turns })).1 in
      Refines-trans w after (act_all rest after)
        ((act-Lawful a).apply (record w { turns = turns }) tt).0 (act_all-Refines rest after)

  act_all-is_safe :
      (id : Text) (actions : List (Action × List Turn)) (w : World)
      → is_safe id w.redis ≡ true
      → is_safe id (act_all actions w).redis ≡ true
  act_all-is_safe id actions w h =
      let r = act_all-Refines actions w in rw r.1 (run-is_safe id r.0 w.redis h)

  added :
      (entry : StreamEntry) (r : Redis)
      → is_safe entry.id (record r { unread = r.unread ++ entry ∷ [] }) ≡ true
  unfolding is_safe
  added entry r =
      ground
        (arith, any-append (has_entry_id entry.id) r.unread (entry ∷ []), text_eq_refl entry.id)

  -- An entry that was just added waits for its first reader, or XADD cut it off at once.
  added-is_safe :
      (entry : StreamEntry) (cut : ℕ) (r : Redis) → is_safe entry.id (xadd entry cut r) ≡ true
  unfolding xadd
  added-is_safe entry cut r =
      let longer = record r { unread = r.unread ++ entry ∷ [] } in
      trim_oldest-is_safe entry.id (excess cut longer) longer (added entry r)

  published-is_safe :
      (envelope : Envelope) (new_id : Text) (cut : ℕ) (w : World)
      → (publish s.stringify new_id cut envelope w).0 ≡ ok tt
      → is_safe new_id (publish s.stringify new_id cut envelope w).1.redis ≡ true
  unfolding publish send awaited
  published-is_safe envelope new_id cut w h = by_fate (next_turn w.turns).fate h
    where
      by_fate :
          (fate : Fate)
          → ((serve
                  (λ r. (
                    text new_id,
                    xadd (record { id = new_id; payload = s.stringify envelope }) cut r,
                  ))
                  fate
                >> pure tt)
              (awaited w)).0
            ≡ ok tt
          → is_safe new_id
              ((serve
                    (λ r. (
                      text new_id,
                      xadd (record { id = new_id; payload = s.stringify envelope }) cut r,
                    ))
                    fate
                  >> pure tt)
                (awaited w)).1.redis
            ≡ true
      by_fate served h =
          added-is_safe (record { id = new_id; payload = s.stringify envelope }) cut
            (awaited w).redis
      by_fate refused h = cc
      by_fate reply_lost h = cc

  -- A message that was published is not lost: once publish() returned, then whatever this instance is
  -- asked to do, crashes included, with whatever commands failing, and whatever the others send, it
  -- waits in the stream for its first reader, or is pending with its payload in the stream, or a
  -- worker acknowledged it, or it is among the dead letters, or XADD cut it off.
  pub act_all-keeps :
      (envelope : Envelope) (new_id : Text) (cut : ℕ) (w : World)
      → (publish s.stringify new_id cut envelope w).0 ≡ ok tt
      → (actions : List (Action × List Turn))
      → is_safe new_id (act_all actions (publish s.stringify new_id cut envelope w).1).redis ≡ true
  act_all-keeps envelope new_id cut w h actions =
      act_all-is_safe new_id actions (publish s.stringify new_id cut envelope w).1
        (published-is_safe envelope new_id cut w h)
