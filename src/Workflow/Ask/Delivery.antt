-- ===== src/Workflow/Ask/Delivery.antt =====
-- What becomes of an ask (dispatchAsk of src/workflows/engine.ts).
use open_dilim.Prelude.{
  arith, ℕ, ◌+◌, ◌*◌, ◌≡◌, refl, ◌⊎◌, inl, inr, Bool, true, false, List, [], ◌∷◌, ◌++◌,
}
use open_dilim.Prelude.Text.{Text}
use open_dilim.Task.{Result, ok, thrown, continue, pure, ◌>>◌}
use open_dilim.Chat.{Envelope, HistoryEntry}
use open_dilim.Chat.Ports.{
  Bus, seen_key, is_marked, set_nx, first_see, append, publish, keep_last, history_buffer_turns,
  ttl_sec,
}
use open_dilim.Chat.Delivery.{
  is_marked_new, Commanded, done, undone, unanswered, Appended, told, untold, is_history_up, is_up,
  first_see-Commanded, append-Appended, publish-Commanded,
}
use open_dilim.Workflow.Types.{PendingRequest, WorkflowDef}
use open_dilim.Workflow.Ask.{
  World, on_bus, ask_msg_id, build_ask_envelope, to_history_entry, push_ask, dispatch_ask,
}

abbrev pub ask_key : PendingRequest → Text
ask_key request = seen_key request.target.channel (ask_msg_id request.id request.ask_count)

-- The ask went out: it was not marked and is now, it is the last turn of the room's history, and
-- the ingress queue holds it once more.
pub record IsSent (def : WorkflowDef) (request : PendingRequest) (now_ms : ℕ) (is_reminder : Bool)
    (before after : World) : Type 0 where
  pub table : after.table ≡ before.table
  pub fresh : is_marked (ask_key request) before.bus ≡ false
  pub marked : is_marked (ask_key request) after.bus ≡ true
  pub told :
      after.history request.target.group_id
      ≡ keep_last history_buffer_turns (
          before.history request.target.group_id
          ++ to_history_entry (build_ask_envelope def request now_ms is_reminder) ∷ [])
  pub queued :
      after.ingress ≡ before.ingress ++ build_ask_envelope def request now_ms is_reminder ∷ []
  pub unsent : after.sent ≡ before.sent

-- Otherwise the ask was marked and nothing changed, or a command was not served: the table and what was sent to a
-- channel are as before, and the queue is too, unless the ask was not marked before and is queued once.
abbrev pub Dispatched :
    WorkflowDef → PendingRequest → ℕ → Bool → World → Result Bool → World → Type 0
Dispatched def request now_ms is_reminder before (ok true) after =
    IsSent def request now_ms is_reminder before after
Dispatched def request now_ms is_reminder before (ok false) after =
    (is_marked (ask_key request) before.bus ≡ true) × (after ≡ before)
Dispatched def request now_ms is_reminder before (thrown e) after =
    (after.table ≡ before.table)
    × (after.sent ≡ before.sent)
    × (is_up before.bus (ask_msg_id request.id request.ask_count) ≡ false)
    × ((after.ingress ≡ before.ingress)
        ⊎ ((is_marked (ask_key request) before.bus ≡ false)
            × (after.ingress
                ≡ before.ingress ++ build_ask_envelope def request now_ms is_reminder ∷ [])))

module _ (def : WorkflowDef) (request : PendingRequest) (now_ms : ℕ) (is_reminder : Bool)
    (w : World) where
  abbrev msg_id : Text
  msg_id = ask_msg_id request.id request.ask_count

  abbrev envelope : Envelope
  envelope = build_ask_envelope def request now_ms is_reminder

  abbrev marked_world : World
  marked_world = record w {
    bus = record w.bus {
      seen = record { key = ask_key request; expires = w.clock + ttl_sec * 1000 } ∷ w.seen;
    };
  }

  abbrev told_bus : (Text → List HistoryEntry) → Bus
  told_bus history = record marked_world.bus { history = history }

  gate :
      (r : Result Bool) (bus : Bus)
      → first_see request.target.channel (ask_msg_id request.id request.ask_count) w.bus ≡ (r, bus)
      → dispatch_ask def request now_ms is_reminder w
        ≡ continue (push_ask envelope) (r, record w { bus = bus })
  unfolding dispatch_ask build_ask_envelope
  gate r bus e = rw e refl

  module _ (fresh : is_marked (ask_key request) w.bus ≡ false) where
    queued-Dispatched :
        (history : Text → List HistoryEntry)
        → history request.target.group_id
          ≡ keep_last history_buffer_turns
              (w.history request.target.group_id ++ to_history_entry envelope ∷ [])
        → (r : Result (Unit {0}) × Bus)
        → Commanded
            (λ b. (tt, record b { ingress = b.ingress ++ envelope ∷ [] }))
            (told_bus history)
            (w.outages.broker msg_id)
            r
        → Dispatched def request now_ms is_reminder w
            (continue (λ _. pure true) (r.0, record w { bus = r.1 })).0
            (continue (λ _. pure true) (r.0, record w { bus = r.1 })).1
    queued-Dispatched history last r (done e) = rw e (record {
      table = refl;
      fresh = fresh;
      marked = unfold is_marked in is_marked_new (ask_key request) w.bus;
      told = last;
      queued = refl;
      unsent = refl;
    })
    queued-Dispatched history last r (undone down e) = rw e (refl, refl, ground arith, inl refl)
    queued-Dispatched history last r (unanswered down e) =
        rw e (refl, refl, ground arith, inr (fresh, refl))

    told-Dispatched :
        (r : Result (Unit {0}) × Bus)
        → Appended marked_world.bus (to_history_entry envelope) (is_history_up w.bus msg_id) r
        → Dispatched def request now_ms is_reminder w
            (continue (λ _. on_bus (publish envelope) >> pure true) (r.0, record w { bus = r.1 })).0
            (continue (λ _. on_bus (publish envelope) >> pure true) (r.0, record w { bus = r.1 })).1
    unfolding build_ask_envelope to_history_entry
    told-Dispatched r (told history last e) = rw e (
        queued-Dispatched history last (publish envelope (told_bus history))
          (publish-Commanded (told_bus history) envelope))
    told-Dispatched r (untold history down e) = rw e (refl, refl, ground arith, inl refl)

    pushed-Dispatched :
        Dispatched def request now_ms is_reminder w
          (push_ask envelope true marked_world).0
          (push_ask envelope true marked_world).1
    unfolding push_ask ask_msg_id to_history_entry build_ask_envelope
    pushed-Dispatched =
        told-Dispatched (append (to_history_entry envelope) marked_world.bus)
          (append-Appended marked_world.bus (to_history_entry envelope))

  marking-Dispatched :
      Commanded
        (set_nx (ask_key request))
        w.bus
        (w.outages.dedupe msg_id)
        (first_see request.target.channel (ask_msg_id request.id request.ask_count) w.bus)
      → (marked : Bool) → is_marked (ask_key request) w.bus ≡ marked
      → Dispatched def request now_ms is_reminder w
          (dispatch_ask def request now_ms is_reminder w).0
          (dispatch_ask def request now_ms is_reminder w).1
  unfolding set_nx
  marking-Dispatched (done e) true m = rw (gate _ _ e, m) (unfold push_ask in (m, refl))
  marking-Dispatched (done e) false m = rw (gate _ _ e, m) (pushed-Dispatched m)
  marking-Dispatched (undone down e) marked m = rw (gate _ _ e) (refl, refl, ground arith, inl refl)
  marking-Dispatched (unanswered down e) true m =
      rw (gate _ _ e, m) (refl, refl, ground arith, inl refl)
  marking-Dispatched (unanswered down e) false m =
      rw (gate _ _ e, m) (refl, refl, ground arith, inl refl)

  -- Every outcome of an ask: true if it was not marked and is now, ends the history of its room and
  -- was queued once, nothing else being sent; false if it was marked, and nothing changed; it throws
  -- only if a command was not served, and then nothing was sent or recorded in the table, and nothing
  -- queued, unless the ask was not marked, and is queued once.
  pub dispatch_ask-Dispatched :
      Dispatched def request now_ms is_reminder w
        (dispatch_ask def request now_ms is_reminder w).0
        (dispatch_ask def request now_ms is_reminder w).1
  dispatch_ask-Dispatched =
      marking-Dispatched
        (first_see-Commanded w.bus request.target.channel (ask_msg_id request.id request.ask_count))
        (is_marked (ask_key request) w.bus) refl
