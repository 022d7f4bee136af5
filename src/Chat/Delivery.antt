-- ===== src/Chat/Delivery.antt =====
-- What the calls of the ports do, on every branch (firstSee of src/state/dedupe.ts, append of
-- src/state/session.ts, publish of src/broker/queue.ts).
use open_dilim.Prelude.{Bool, false, ◌&&◌, ◌+◌, ◌*◌, ◌≡◌, refl, true, arith, List, [], ◌∷◌, ◌++◌}
use open_dilim.Prelude.Text.{Text, text_eq_refl}
use open_dilim.Task.{Result, ok, thrown, unavailable, ◌>>◌}
use open_dilim.Chat.{Envelope, HistoryEntry}
use open_dilim.Chat.Ports.{
  is_served, Fate, served, refused, reply_lost, Bus, ttl_sec, seen_key, is_marked, command, set_nx,
  first_see, history_buffer_turns, keep_last, on_room, append, publish,
}

-- A key that was marked just now is marked.
pub is_marked_new :
    (key : Text) (bus : Bus)
    → is_marked key (record bus {
      seen = record { key = key; expires = bus.clock + ttl_sec * 1000 } ∷ bus.seen;
    })
      ≡ true
unfolding is_marked
is_marked_new key bus = ground (arith, text_eq_refl key)

module _ {A : Type 0} (f : Bus → A × Bus) (bus : Bus) where
  -- A command is served, or it throws, and then it was executed or was not.
  pub data Commanded (fate : Fate) (r : Result A × Bus) : Type 0 where
    done : r ≡ (ok (f bus).0, (f bus).1) → Commanded fate r
    undone : is_served fate ≡ false → r ≡ (thrown unavailable, bus) → Commanded fate r
    unanswered : is_served fate ≡ false → r ≡ (thrown unavailable, (f bus).1) → Commanded fate r

  command-Commanded : (fate : Fate) → Commanded fate (command fate f bus)
  command-Commanded served = done refl
  command-Commanded refused = undone refl refl
  command-Commanded reply_lost = unanswered refl refl

module _ (bus : Bus) where
  pub first_see-Commanded :
      (channel msg_id : Text)
      → Commanded
          (set_nx (seen_key channel msg_id))
          bus
          (bus.outages.dedupe msg_id)
          (first_see channel msg_id bus)
  unfolding first_see
  first_see-Commanded channel msg_id = command-Commanded _ bus (bus.outages.dedupe msg_id)

  pub publish-Commanded :
      (envelope : Envelope)
      → Commanded
          (λ b. (tt, record b { ingress = b.ingress ++ envelope ∷ [] }))
          bus
          (bus.outages.broker envelope.msg_id)
          (publish envelope bus)
  unfolding publish
  publish-Commanded envelope = command-Commanded _ bus (bus.outages.broker envelope.msg_id)

  abbrev pub with_history : (Text → List HistoryEntry) → Bus
  with_history history = record bus { history = history }

  -- The three commands of the history are served.
  abbrev pub is_history_up : Text → Bool
  is_history_up msg_id =
      is_served (bus.outages.rpush msg_id)
      && is_served (bus.outages.ltrim msg_id)
      && is_served (bus.outages.expire msg_id)

  -- All commands of a message are served, from its mark to the queue.
  abbrev pub is_up : Text → Bool
  is_up msg_id =
      is_served (bus.outages.dedupe msg_id)
      && is_history_up msg_id
      && is_served (bus.outages.broker msg_id)

  -- A turn is the last one of its room, or the call throws; nothing but the history changes.
  pub data Appended (entry : HistoryEntry) (up : Bool) (r : Result (Unit {0}) × Bus) : Type 0 where
    told :
        (history : Text → List HistoryEntry)
        → history entry.conversation_id
          ≡ keep_last history_buffer_turns (bus.history entry.conversation_id ++ entry ∷ [])
        → r ≡ (ok tt, with_history history)
        → Appended entry up r
    untold :
        (history : Text → List HistoryEntry)
        → up ≡ false
        → r ≡ (thrown unavailable, with_history history)
        → Appended entry up r

  append_by :
      (entry : HistoryEntry) (rpush ltrim expire : Fate)
      → Appended entry (is_served rpush && is_served ltrim && is_served expire) (
          (command rpush (on_room entry.conversation_id (λ turns. turns ++ entry ∷ []))
              >> (command ltrim (on_room entry.conversation_id (keep_last history_buffer_turns))
                  >> command expire (λ b. (tt, b))))
            bus)
  append_by entry refused ltrim expire = untold _ refl refl
  append_by entry reply_lost ltrim expire = untold _ refl refl
  append_by entry served refused expire = untold _ refl refl
  append_by entry served reply_lost expire = untold _ refl refl
  append_by entry served served refused = untold _ refl refl
  append_by entry served served reply_lost = untold _ refl refl
  append_by entry served served served = told _ (rw (text_eq_refl entry.conversation_id) refl) refl

  pub append-Appended :
      (entry : HistoryEntry) → Appended entry (is_history_up entry.msg_id) (append entry bus)
  unfolding append
  append-Appended entry =
      append_by entry (bus.outages.rpush entry.msg_id) (bus.outages.ltrim entry.msg_id)
        (bus.outages.expire entry.msg_id)
