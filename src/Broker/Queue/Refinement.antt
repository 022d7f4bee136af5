-- ===== src/Broker/Queue/Refinement.antt =====
-- What an instance is asked to do with the ingress stream, and that it does so by the commands of
-- Stream/Runs, none of which loses a message (src/broker/queue.ts).
use open_dilim.Prelude.{
  any-append, ℕ, ◌≡◌, refl, Bool, true, Option, none, some, List, [], ◌∷◌, Bool-cases, inl, inr,
  min, arith, leb, ltb, ◌-◌, take, length, ◌==◌,
}
use open_dilim.Prelude.Text.{Text, text_eq_refl}
use open_dilim.Chat.{Envelope}
use open_dilim.Workflow.Types.{Value, integer, text}
use open_dilim.Broker.Replies.{
  StreamEntry, PendingEntry, ParsedEnvelope, parse_entries, parse_read_reply, parse_pending,
  parse_envelope,
}
use open_dilim.Broker.Stream.{
  Redis, xadd, xreadgroup, xclaim, xack, xdel, xadd_dlq, stale_rows, claimed_entries, entries_with,
  entries_reply, read_reply, pending_reply,
}
use open_dilim.Broker.Stream.Runs.{
  adding, reading, claiming, confirming, dead_lettering, releasing, deleting, is_settled,
  has_src_id, confirm, execute, run,
}
use open_dilim.Broker.Queue.{
  World, Delivery, send, publish, ack, dead_letter, dead_letter_by_id, payload_of, sort_out,
  claim_again, reclaim_listed, list_and_reclaim, reclaim_stale, read_new, deliver_parsed, deliver,
  deliver_all, or_read_new, fetch, read_and_deliver, pump_once, pump, hand_over, data_field,
  reclaim_min_idle_ms, reclaim_batch, max_deliveries, reclaim_interval_ms, ingress_stream,
}
use open_dilim.Broker.Queue.Calculus.{
  Refines, After, Triple, Always, Lawful, Settled, settled-run, pure-Lawful, on_node-Lawful,
  breathe-Lawful, bind-Triple, ignore-Lawful, if-Lawful, send-Triple, query-Lawful, command-Lawful,
}

-- XACK and XDEL of an entry that is settled.
release-Triple :
    (id : Text) → Triple (Settled id) (send (λ r. (integer 1, xack id r))) (λ _. Settled id)
unfolding xack run execute
release-Triple id =
    send-Triple (λ r. (integer 1, xack id r)) (releasing id ∷ []) (settled-run id)
      (λ r settled. rw settled refl) (λ r settled. settled)

delete-Triple : (id : Text) → Triple (Settled id) (send (λ r. (integer 1, xdel id r))) (λ _. Always)
unfolding xdel run execute
delete-Triple id =
    send-Triple (λ r. (integer 1, xdel id r)) (deleting id ∷ []) (settled-run id)
      (λ r settled. rw settled refl) (λ r settled. tt)

pub ack-Lawful : (delivery : Delivery) → Lawful (ack delivery)
unfolding ack confirm xack run execute
ack-Lawful delivery =
    let id = delivery.id in
    bind-Triple
      (send-Triple {P = Always} {Q = Settled id} (λ r. (integer 1, confirm id r))
        (confirming id ∷ []) (λ _ _ _. tt) (λ _ _. refl) (λ r _. rw (text_eq_refl id) refl))
      (λ _. bind-Triple (delete-Triple id) (λ _. pure-Lawful))

is_settled-xadd_dlq : (payload id : Text) (r : Redis) → is_settled id (xadd_dlq payload id r) ≡ true
unfolding xadd_dlq
is_settled-xadd_dlq payload id r = ground (
  arith,
  any-append (has_src_id id) r.dlq (record { payload = payload; src_id = id } ∷ []),
  text_eq_refl id,
)

pub dead_letter-Lawful : (id payload : Text) → Lawful (dead_letter id payload)
unfolding dead_letter xadd_dlq run execute
dead_letter-Lawful id payload =
    bind-Triple
      (send-Triple {P = Always} {Q = Settled id} (λ r. (text id, xadd_dlq payload id r))
        (dead_lettering payload id ∷ []) (λ _ _ _. tt) (λ _ _. refl)
        (λ r _. unfold xadd_dlq in is_settled-xadd_dlq payload id r))
      (λ _.
        bind-Triple (release-Triple id) (λ _. bind-Triple (delete-Triple id) (λ _. pure-Lawful)))

pub publish-Lawful :
    (stringify : Envelope → Text) (new_id : Text) (cut : ℕ) (envelope : Envelope)
    → Lawful (publish stringify new_id cut envelope)
unfolding publish xadd execute
publish-Lawful stringify new_id cut envelope =
    bind-Triple
      (command-Lawful (λ r. text new_id)
        (adding (record { id = new_id; payload = stringify envelope }) cut))
      (λ _. pure-Lawful)

dead_letter_by_id-Lawful : (id : Text) → Lawful (dead_letter_by_id id)
unfolding dead_letter_by_id entries_reply parse_entries
dead_letter_by_id-Lawful id =
    bind-Triple (query-Lawful (λ r. entries_reply data_field (entries_with id r)))
      (λ raw. dead_letter-Lawful id (payload_of (parse_entries raw data_field)))

sort_out-Lawful : (entries : List PendingEntry) → Lawful (sort_out entries)
unfolding sort_out
sort_out-Lawful [] = pure-Lawful
sort_out-Lawful (entry ∷ entries) =
    if-Lawful (leb max_deliveries entry.deliveries)
      (bind-Triple (dead_letter_by_id-Lawful entry.id) (λ _. sort_out-Lawful entries))
      (bind-Triple (sort_out-Lawful entries) (λ _. pure-Lawful))

module _ (consumer : Text) where
  claim_again-Lawful : (ids : List Text) → Lawful (claim_again consumer ids)
  unfolding claim_again xclaim execute entries_reply parse_entries
  claim_again-Lawful [] = pure-Lawful
  claim_again-Lawful (first ∷ rest) =
      bind-Triple
        (command-Lawful
          (λ r. entries_reply data_field (claimed_entries reclaim_min_idle_ms (first ∷ rest) r))
          (claiming consumer reclaim_min_idle_ms (first ∷ rest)))
        (λ _. pure-Lawful)

  reclaim_listed-Lawful : (entries : List PendingEntry) → Lawful (reclaim_listed consumer entries)
  unfolding reclaim_listed
  reclaim_listed-Lawful [] = pure-Lawful
  reclaim_listed-Lawful (first ∷ rest) =
      bind-Triple (sort_out-Lawful (first ∷ rest)) claim_again-Lawful

  list_and_reclaim-Lawful : (limit : ℕ) → Lawful (list_and_reclaim consumer limit)
  unfolding list_and_reclaim pending_reply parse_pending
  list_and_reclaim-Lawful limit =
      bind-Triple
        (query-Lawful
          (λ r. pending_reply r.clock (stale_rows reclaim_min_idle_ms (min limit reclaim_batch) r)))
        (λ raw. reclaim_listed-Lawful (parse_pending raw))

  reclaim_stale-Lawful : (limit : ℕ) → Lawful (reclaim_stale consumer limit)
  unfolding reclaim_stale
  reclaim_stale-Lawful limit = record { apply = go }
    where
      go :
          (w : World)
          → Always w.redis
          → Refines w (reclaim_stale consumer limit w).1
            × After (λ _. Always) (reclaim_stale consumer limit w)
      go w p =
          elim (Bool-cases (ltb (w.redis.clock - w.node.last_reclaim_at) reclaim_interval_ms)) [
            | inl early ↦ rw early ((pure-Lawful {B = List StreamEntry} {b = []}).apply w p)
            | inr late ↦ rw late (
                (list_and_reclaim-Lawful limit).apply
                  (record w { node = record w.node { last_reclaim_at = w.redis.clock } }) p)
          ]

  read_new-Lawful : (resp3 : Bool) (count : ℕ) → Lawful (read_new consumer resp3 count)
  unfolding read_new xreadgroup execute read_reply parse_read_reply
  read_new-Lawful resp3 count =
      bind-Triple
        (command-Lawful (λ r. read_reply resp3 ingress_stream data_field (take count r.unread))
          (reading consumer count))
        (λ _. pure-Lawful)

module _ (parse_json : Text → Option Value) where
  deliver_parsed-Lawful :
      (entry : StreamEntry) (envelope : Option ParsedEnvelope)
      → Lawful (deliver_parsed parse_json entry envelope)
  unfolding deliver_parsed hand_over
  deliver_parsed-Lawful entry none = dead_letter-Lawful entry.id entry.payload
  deliver_parsed-Lawful entry (some envelope) =
      on_node-Lawful (hand_over (record { id = entry.id; envelope = envelope }))

  deliver_all-Lawful : (entries : List StreamEntry) → Lawful (deliver_all parse_json entries)
  unfolding deliver_all deliver parse_envelope
  deliver_all-Lawful [] = pure-Lawful
  deliver_all-Lawful (entry ∷ entries) =
      bind-Triple (deliver_parsed-Lawful entry (parse_envelope parse_json entry.payload))
        (λ _. bind-Triple breathe-Lawful (λ _. deliver_all-Lawful entries))

  module _ (consumer : Text) (resp3 : Bool) where
    or_read_new-Lawful :
        (want : ℕ) (entries : List StreamEntry)
        → Lawful (or_read_new parse_json consumer resp3 want entries)
    unfolding or_read_new
    or_read_new-Lawful want [] = read_new-Lawful consumer resp3 want
    or_read_new-Lawful want (first ∷ rest) = pure-Lawful

    fetch-Lawful : (want : ℕ) → Lawful (fetch parse_json consumer resp3 want)
    unfolding fetch
    fetch-Lawful want = bind-Triple (reclaim_stale-Lawful consumer want) (or_read_new-Lawful want)

    read_and_deliver-Lawful : (want : ℕ) → Lawful (read_and_deliver parse_json consumer resp3 want)
    unfolding read_and_deliver
    read_and_deliver-Lawful want = bind-Triple (fetch-Lawful want) deliver_all-Lawful

    pub pump_once-Lawful : Lawful (pump_once parse_json consumer resp3)
    unfolding pump_once
    pump_once-Lawful = record { apply = go }
      where
        go :
            (w : World)
            → Always w.redis
            → Refines w (pump_once parse_json consumer resp3 w).1
              × After (λ _. Always) (pump_once parse_json consumer resp3 w)
        go w p = elim (Bool-cases (length w.node.waiters == 0)) [
          | inl nobody ↦ rw nobody ((pure-Lawful {b = tt}).apply w p)
          | inr waits ↦
              rw waits ((ignore-Lawful (read_and_deliver-Lawful (length w.node.waiters))).apply w p)
        ]

    pub pump-Lawful : (rounds : ℕ) → Lawful (pump parse_json consumer resp3 rounds)
    unfolding pump
    pump-Lawful ℕ.zero = pure-Lawful
    pump-Lawful (ℕ.suc rounds) = bind-Triple pump_once-Lawful (λ _. pump-Lawful rounds)
