-- ===== src/Proactive/Poller/Picking.antt =====
-- When a question is picked up (pickUp of src/proactive/poller.ts).
use open_dilim.Prelude.{
  ◌≤◌, ◌≡◌, refl, ◌⊎◌, inl, inr, Bool, true, false, Option, none, some, List, [], ◌∷◌, ◌++◌,
  Bool-cases, leb, leb→le,
}
use open_dilim.Prelude.Text.{Text}
use open_dilim.Chat.{HistoryEntry}
use open_dilim.Task.{Result}
use open_dilim.Chat.Ports.{Fate, Bus}
use open_dilim.Chat.Delivery.{Commanded, done, undone, unanswered, publish-Commanded}
use open_dilim.Proactive.Pending.{PendingQuestion}
use open_dilim.Proactive.Poller.{
  ProactiveSpec, World, Judge, history_window_turns, recent, is_answered, rate_key, counted,
  under_rate_limit, to_proactive_envelope, judged, if_under_limit, if_unanswered, with_history,
  with_spec, pick_up,
}

-- The question was queued once: an agent serves the room, nobody else spoke after it in the last
-- turns of the room, the room is within its limit of the hour, and the judge said yes.
pub record IsPicked (spec_for : Text → Text → Option ProactiveSpec) (classify : Option Judge)
    (question : PendingQuestion) (before after : World) : Type 0 where
  pub spec : ProactiveSpec
  pub judge : Judge
  pub served : spec_for question.channel question.conversation_id ≡ some spec
  pub unanswered :
      is_answered question (recent question.conversation_id history_window_turns before) ≡ false
  pub within :
      (counted before.clock
        (before.rates (rate_key question.channel question.conversation_id))).value
      ≤ spec.max_per_room_per_hour
  pub given : classify ≡ some judge
  pub approved : judge question (recent question.conversation_id history_window_turns before) ≡ true
  pub queued : after.ingress ≡ before.ingress ++ to_proactive_envelope question ∷ []

module _ (spec_for : Text → Text → Option ProactiveSpec) (classify : Option Judge)
    (question : PendingQuestion) (w : World) where
  abbrev pub Picked : World → Type 0
  Picked after = (after.ingress ≡ w.ingress) ⊎ IsPicked spec_for classify question w after

  abbrev turns : List HistoryEntry
  turns = recent question.conversation_id history_window_turns w

  module _ (spec : ProactiveSpec)
      (served : spec_for question.channel question.conversation_id ≡ some spec) where
    abbrev charged : World
    charged = (under_rate_limit spec question w).1

    module _ (judge : Judge) (given : classify ≡ some judge)
        (quiet : is_answered question turns ≡ false)
        (within : (counted w.clock
            (w.rates (rate_key question.channel question.conversation_id))).value
          ≤ spec.max_per_room_per_hour)
        (agreed : judge question turns ≡ true) where
      picked :
          (bus : Bus)
          → bus.ingress ≡ w.ingress ++ to_proactive_envelope question ∷ []
          → IsPicked spec_for classify question w (record charged { bus = bus })
      picked bus e = record {
        spec = spec;
        judge = judge;
        served = served;
        unanswered = quiet;
        within = within;
        given = given;
        approved = agreed;
        queued = e;
      }

      published-Picked :
          (fate : Fate) (r : Result (Unit {0}) × Bus)
          → Commanded
              (λ b. (tt, record b { ingress = b.ingress ++ to_proactive_envelope question ∷ [] }))
              charged.bus
              fate
              r
          → Picked (record charged { bus = r.1 })
      unfolding under_rate_limit
      published-Picked fate r (done e) = rw e (inr (picked _ refl))
      published-Picked fate r (undone down e) = rw e (inl refl)
      published-Picked fate r (unanswered down e) = rw e (inr (picked _ refl))

    judged-Picked :
        (judge : Option Judge)
        → classify ≡ judge
        → is_answered question turns ≡ false
        → ((counted w.clock (w.rates (rate_key question.channel question.conversation_id))).value
            ≤ spec.max_per_room_per_hour)
        → Picked (judged judge question turns charged).1
    unfolding judged under_rate_limit
    judged-Picked none e quiet within = inl refl
    judged-Picked (some judge) e quiet within = elim (Bool-cases (judge question turns)) [
      | inl agreed ↦ rw agreed (
          published-Picked judge e quiet within agreed _ _
            (publish-Commanded charged.bus (to_proactive_envelope question)))
      | inr refused ↦ rw refused (inl refl)
    ]

    limited-Picked :
        (under : Bool)
        → leb
            (counted w.clock (w.rates (rate_key question.channel question.conversation_id))).value
            spec.max_per_room_per_hour
          ≡ under
        → is_answered question turns ≡ false
        → Picked (if_under_limit classify question turns under charged).1
    unfolding if_under_limit under_rate_limit
    limited-Picked false e quiet = inl refl
    limited-Picked true e quiet = judged-Picked classify refl quiet (leb→le _ _ e)

    answered-Picked :
        (answered : Bool)
        → is_answered question turns ≡ answered
        → Picked (if_unanswered classify spec question turns answered w).1
    unfolding if_unanswered under_rate_limit
    answered-Picked true e = inl refl
    answered-Picked false e = limited-Picked _ refl e

  with_spec-Picked :
      (spec : Option ProactiveSpec)
      → spec_for question.channel question.conversation_id ≡ spec
      → Picked (with_spec classify question spec w).1
  unfolding with_spec with_history
  with_spec-Picked none e = inl refl
  with_spec-Picked (some spec) e = answered-Picked spec e _ refl

  -- Picking a question up queues nothing, or it queues the question once, and then an agent serves the
  -- room, nobody else spoke after the question in the last turns of the room, the room is within its
  -- limit of the hour with this one counted, and the judge said yes.
  pub pick_up-Picked : Picked (pick_up spec_for classify question w).1
  unfolding pick_up
  pick_up-Picked = with_spec-Picked (spec_for question.channel question.conversation_id) refl
