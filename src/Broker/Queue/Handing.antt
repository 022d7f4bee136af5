-- ===== src/Broker/Queue/Handing.antt =====
-- To whom a round of the loop hands its messages (src/broker/queue.ts).
use open_dilim.Prelude.{
  List-cases, ℕ, ◌-◌, ◌≤◌, ◌≡◌, ◌∙◌, refl, ap, sym, Bool, true, Option, none, some, List, [], ◌∷◌,
  ◌++◌, append_assoc, append-nil, take, length, length-take, Bool-cases, Option-cases, inl, inr,
  ltb, ◌==◌, ==_iff, arith,
}
use open_dilim.Prelude.Text.{Text}
use open_dilim.Task.{Task, ok, ◌>>◌, bind-ok}
use open_dilim.Workflow.Types.{Value}
use open_dilim.Broker.Replies.{StreamEntry, ParsedEnvelope, parse_envelope}
use open_dilim.Broker.Replies.RoundTrip.{parse_read_reply-read_reply}
use open_dilim.Broker.Stream.{Redis, DeadLetter, xreadgroup, xadd_dlq, xack, xdel}
use open_dilim.Broker.Stream.Runs.{run}
use open_dilim.Broker.Queue.{
  World, Node, Delivery, Settlement, awaited, send, call_all, dead_letter, hand_over,
  deliver_parsed, deliver, deliver_all, breathe, reclaim_stale, read_new, or_read_new, fetch,
  read_and_deliver, pump_once, data_field, ingress_stream, reclaim_interval_ms,
}

module _ (parse_json : Text → Option Value) where
  -- What the waiters are told: a message that cannot be read is passed over.
  abbrev hand_parsed :
      StreamEntry → Option ParsedEnvelope → (List ℕ → List Settlement) → List ℕ → List Settlement
  hand_parsed entry none later waiters = later waiters
  hand_parsed entry (some envelope) later [] = []
  hand_parsed entry (some envelope) later (waiter ∷ waiters) =
      record { waiter = waiter; delivery = some (record { id = entry.id; envelope = envelope }) }
      ∷ later waiters

  abbrev pub handed : List StreamEntry → List ℕ → List Settlement
  handed [] waiters = []
  handed (entry ∷ entries) waiters =
      hand_parsed entry (parse_envelope parse_json entry.payload) (handed entries) waiters

  abbrev bury : StreamEntry → Option ParsedEnvelope → List DeadLetter → List DeadLetter
  bury entry none later = record { payload = entry.payload; src_id = entry.id } ∷ later
  bury entry (some envelope) later = later

  -- The messages that cannot be read.
  abbrev pub buried : List StreamEntry → List DeadLetter
  buried [] = []
  buried (entry ∷ entries) = bury entry (parse_envelope parse_json entry.payload) (buried entries)

  -- Nobody else does anything, and all commands are served.
  abbrev quiet_world : Redis → Node → World
  quiet_world r node = record { redis = r; node = node; turns = [] }

  pub record IsHanded (entries : List StreamEntry) (r : Redis) (node : Node) (after : World)
      : Type 0 where
    pub settled : after.node.settled ≡ node.settled ++ handed entries node.waiters
    pub buffer : after.node.buffer ≡ node.buffer
    pub dlq : after.redis.dlq ≡ r.dlq ++ buried entries

  -- One message and the pause after it.
  step :
      (entry : StreamEntry) (later : Task World (Unit {0})) (r r' : Redis) (node node' : Node)
      → deliver parse_json entry (quiet_world r node) ≡ (ok tt, quiet_world r' node')
      → (do deliver parse_json entry; breathe; later) (quiet_world r node)
        ≡ later (quiet_world r' node')
  unfolding breathe awaited run call_all
  step entry later r r' node node' e =
      bind-ok (deliver parse_json entry) (quiet_world r node) (quiet_world r' node')
        (λ _. breathe >> later) e

  abbrev after_burial : StreamEntry → Redis → Redis
  unfolding xadd_dlq xack xdel
  after_burial entry r = xdel entry.id (xack entry.id (xadd_dlq entry.payload entry.id r))

  deliver-broken :
      (entry : StreamEntry) (r : Redis) (node : Node)
      → parse_envelope parse_json entry.payload ≡ none
      → deliver parse_json entry (quiet_world r node)
        ≡ (ok tt, quiet_world (after_burial entry r) node)
  unfolding deliver deliver_parsed dead_letter send awaited run call_all after_burial
  deliver-broken entry r node broken = rw broken refl

  deliver-whole :
      (entry : StreamEntry) (r : Redis) (node : Node) (envelope : ParsedEnvelope)
      → parse_envelope parse_json entry.payload ≡ some envelope
      → deliver parse_json entry (quiet_world r node)
        ≡ (ok tt, quiet_world r (hand_over (record { id = entry.id; envelope = envelope }) node))
  unfolding deliver deliver_parsed
  deliver-whole entry r node envelope whole = rw whole refl

  IsHanded-broken :
      (entry : StreamEntry) (entries : List StreamEntry) (r : Redis) (node : Node) (after : World)
      → parse_envelope parse_json entry.payload ≡ none
      → IsHanded entries (after_burial entry r) node after
      → IsHanded (entry ∷ entries) r node after
  unfolding after_burial xadd_dlq xack xdel
  IsHanded-broken entry entries r node after broken h = record {
    settled = rw broken h.settled;
    buffer = h.buffer;
    dlq = rw broken (
        h.dlq
        ∙ append_assoc r.dlq (record { payload = entry.payload; src_id = entry.id } ∷ [])
            (buried entries));
  }

  abbrev given_to : ℕ → List ℕ → Delivery → Node → Node
  given_to waiter waiters delivery node = record node {
    waiters = waiters;
    settled = node.settled ++ record { waiter = waiter; delivery = some delivery } ∷ [];
  }

  hand_over-given :
      (waiter : ℕ) (waiters : List ℕ) (delivery : Delivery) (node : Node)
      → node.waiters ≡ waiter ∷ waiters
      → hand_over delivery node ≡ given_to waiter waiters delivery node
  unfolding hand_over
  hand_over-given waiter waiters delivery node e = rw e refl

  IsHanded-whole :
      (entry : StreamEntry) (envelope : ParsedEnvelope) (entries : List StreamEntry) (r : Redis)
      (node : Node) (waiter : ℕ) (waiters : List ℕ) (after : World)
      → parse_envelope parse_json entry.payload ≡ some envelope
      → node.waiters ≡ waiter ∷ waiters
      → IsHanded entries r
          (given_to waiter waiters (record { id = entry.id; envelope = envelope }) node)
          after
      → IsHanded (entry ∷ entries) r node after
  IsHanded-whole entry envelope entries r node waiter waiters after whole e h =
      let d : Delivery = record { id = entry.id; envelope = envelope } in
      record {
        settled =
            rw (whole, e)
              (h.settled
                ∙ append_assoc node.settled (record { waiter = waiter; delivery = some d } ∷ [])
                    (handed entries waiters));
        buffer = h.buffer;
        dlq = rw whole h.dlq;
      }

  none_fit : {A : Type 0} {n : ℕ} → ℕ.suc n ≤ 0 → A
  none_fit h = ground arith

  deliver_all-IsHanded :
      (entries : List StreamEntry) (r : Redis) (node : Node)
      → length entries ≤ length node.waiters
      → IsHanded entries r node (deliver_all parse_json entries (quiet_world r node)).1
  unfolding deliver_all
  deliver_all-IsHanded [] r node fits = record {
    settled = sym (append-nil node.settled);
    buffer = refl;
    dlq = sym (append-nil r.dlq);
  }
  deliver_all-IsHanded (entry ∷ entries) r node fits =
      let later = deliver_all parse_json entries in
      elim (Option-cases (parse_envelope parse_json entry.payload)) [
        | inl broken ↦
            let r' = after_burial entry r in
            rw (step entry later r r' node node (deliver-broken entry r node broken)) (
              IsHanded-broken entry entries r node (later (quiet_world r' node)).1 broken
                (deliver_all-IsHanded entries r' node (omega (arith, fits))))
        | inr (envelope, whole) ↦ elim (List-cases node.waiters) [
          | inl nobody ↦ none_fit (rw nobody at fits)
          | inr (waiter, waiters, e) ↦
              let d : Delivery = record { id = entry.id; envelope = envelope } in
              let node' = given_to waiter waiters d node in
              let fits' = rw e at fits in
              rw
                (step entry later r r node node' (
                  deliver-whole entry r node envelope whole
                  ∙ ap (λ n. (ok tt, quiet_world r n)) (hand_over-given waiter waiters d node e)))
                (IsHanded-whole entry envelope entries r node waiter waiters
                  (later (quiet_world r node')).1 whole e
                  (deliver_all-IsHanded entries r node' (omega (arith, fits'))))
        ]
      ]

  module _ (consumer : Text) (resp3 : Bool) where
    fetch-new :
        (r : Redis) (node : Node)
        → ltb (r.clock - node.last_reclaim_at) reclaim_interval_ms ≡ true
        → (want : ℕ)
        → fetch parse_json consumer resp3 want (quiet_world r node)
          ≡ (ok (take want r.unread), quiet_world (xreadgroup consumer want r) node)
    unfolding fetch reclaim_stale or_read_new read_new send awaited run call_all
    fetch-new r node early want =
        rw (early, parse_read_reply-read_reply resp3 ingress_stream data_field (take want r.unread))
          refl

    -- A round of the loop, where the pending messages were looked through less than half a minute
    -- ago, all commands are served and nobody else acts: of the first messages that nobody has read,
    -- as many as workers wait, those that can be read go to the workers, first to first, the others to
    -- the dead letters, and none is buffered.
    pub pump_once-IsHanded :
        (r : Redis) (node : Node)
        → ltb (r.clock - node.last_reclaim_at) reclaim_interval_ms ≡ true
        → IsHanded
            (take (length node.waiters) r.unread)
            r
            node
            (pump_once parse_json consumer resp3 (quiet_world r node)).1
    unfolding pump_once read_and_deliver xreadgroup
    pump_once-IsHanded r node early = elim (Bool-cases (length node.waiters == 0)) [
      | inl nobody ↦ rw ((==_iff (length node.waiters) 0).0 nobody) (record {
        settled = sym (append-nil node.settled);
        buffer = refl;
        dlq = sym (append-nil r.dlq);
      })
      | inr waits ↦
          let want = length node.waiters in
          let h =
            deliver_all-IsHanded (take want r.unread) (xreadgroup consumer want r) node
              (length-take want r.unread) in
          rw waits (
            rw
              (bind-ok (fetch parse_json consumer resp3 want) (quiet_world r node)
                (quiet_world (xreadgroup consumer want r) node) (deliver_all parse_json)
                (fetch-new r node early want))
              (record { settled = h.settled; buffer = h.buffer; dlq = h.dlq }))
    ]
