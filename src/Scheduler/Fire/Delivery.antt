-- ===== src/Scheduler/Fire/Delivery.antt =====
-- A run of a job is queued once (fireJob of src/scheduler/fire.ts).
use open_dilim.Prelude.{
  arith, ℕ, ◌+◌, ◌*◌, ◌≡◌, refl, Bool, true, false, Option, none, some, List, [], ◌∷◌, ◌++◌,
  Bool-cases, inl, inr, ◌⊎◌,
}
use open_dilim.Prelude.Text.{Text, codes}
use open_dilim.Prelude.Decimal.{show, show_injective, show-Avoids, last_mark}
use open_dilim.Task.{Result, ok, thrown, unavailable, ignore_failure, continue, pure, ◌>>◌}
use open_dilim.Chat.{Envelope, HistoryEntry}
use open_dilim.Chat.Ports.{
  Bus, Sent, ttl_sec, seen_key, is_marked, set_nx, first_see, append, publish, send, keep_last,
  history_buffer_turns,
}
use open_dilim.Chat.Delivery.{
  is_marked_new, Commanded, done, undone, unanswered, Appended, told, untold, is_history_up, is_up,
  first_see-Commanded, append-Appended, publish-Commanded,
}
use open_dilim.Scheduler.Repo.{SchedulerJob}
use open_dilim.Scheduler.Fire.{
  Announcer, announced_target, announce_prefix, cron_msg_id, build_cron_envelope, announce_firing,
  type_beat, tell, to_history_entry, fire_first, fire_job,
}

drop_prefix : (s t : Text) → codes "cron:" ++ s ≡ codes "cron:" ++ t → s ≡ t
drop_prefix s t e = cc

-- Two runs have the same message id only if they are the same run of the same job, whatever
-- characters the ids of the jobs hold.
pub cron_msg_id_injective :
    (id id' : Text) (t t' : ℕ) → cron_msg_id id t ≡ cron_msg_id id' t' → (id ≡ id') × (t ≡ t')
unfolding cron_msg_id
cron_msg_id_injective id id' t t' e =
    let (same_id, same_digits) =
      last_mark b':' id id' (show t) (show t') (show-Avoids t) (show-Avoids t')
        (drop_prefix _ _ (e)) in
    (same_id, show_injective t t' same_digits)

module _ (job : SchedulerJob) (envelope : Envelope) (bus : Bus) where
  told_sent :
      (on : Bool)
      → (r : Result (Unit {0})) × (sent : List Sent) × (tell on job envelope bus
          ≡ (r, record bus { sent = sent }))
  unfolding tell send
  told_sent false = (ok tt, bus.sent, refl)
  told_sent true = elim (Bool-cases (bus.outages.broadcaster envelope.conversation_id)) [
    | inl down ↦ (thrown unavailable, bus.sent, rw down refl)
    | inr up ↦ (
      ok tt,
      bus.sent
          ++ record { target = announced_target envelope; text = announce_prefix ++ job.task } ∷ [],
      rw up refl,
    )
  ]

  beat_and_told :
      (typing : Option (Text → Bool)) (on : Bool)
      → (sent : List Sent) × (ignore_failure (type_beat typing envelope >> tell on job envelope) bus
          ≡ (ok tt, record bus { sent = sent }))
  unfolding type_beat
  beat_and_told none on = let (_, sent, e) = told_sent on in (sent, rw e refl)
  beat_and_told (some throws) on = elim (Bool-cases (throws envelope.conversation_id)) [
    | inl down ↦ (bus.sent, rw down refl)
    | inr up ↦ let (_, sent, e) = told_sent on in (sent, rw (up, e) refl)
  ]

-- The announcement changes nothing but what was sent.
announced :
    (announcer : Announcer) (job : SchedulerJob) (envelope : Envelope) (bus : Bus)
    → (sent : List Sent) × (announce_firing announcer job envelope bus
        ≡ (ok tt, record bus { sent = sent }))
unfolding announce_firing
announced announcer job envelope bus =
    beat_and_told job envelope bus announcer.typing announcer.broadcaster

abbrev pub run_key : SchedulerJob → ℕ → Text
run_key job t = seen_key job.channel (cron_msg_id job.id t)

-- The run was queued: it was not marked before and is now, and its turn ends the room's history.
pub record IsFired (job : SchedulerJob) (t : ℕ) (before after : Bus) : Type 0 where
  pub fresh : is_marked (run_key job t) before ≡ false
  pub marked : is_marked (run_key job t) after ≡ true
  pub told :
      after.history job.target
      ≡ keep_last history_buffer_turns
          (before.history job.target ++ to_history_entry (build_cron_envelope job t) ∷ [])
  pub queued : after.ingress ≡ before.ingress ++ build_cron_envelope job t ∷ []

abbrev pub Fired : SchedulerJob → ℕ → Bus → Result Bool → Bus → Type 0
Fired job t before (ok true) after = IsFired job t before after
Fired job t before (ok false) after = (is_marked (run_key job t) before ≡ true) × (after ≡ before)
Fired job t before (thrown e) after =
    (is_up before (cron_msg_id job.id t) ≡ false)
    × ((after.ingress ≡ before.ingress)
        ⊎ ((is_marked (run_key job t) before ≡ false)
            × (after.ingress ≡ before.ingress ++ build_cron_envelope job t ∷ [])))

module _ (announcer : Announcer) (job : SchedulerJob) (t : ℕ) (bus : Bus) where
  abbrev msg_id : Text
  msg_id = cron_msg_id job.id t

  abbrev envelope : Envelope
  envelope = build_cron_envelope job t

  abbrev marked_bus : Bus
  marked_bus = record bus {
    seen = record { key = run_key job t; expires = bus.clock + ttl_sec * 1000 } ∷ bus.seen;
  }

  abbrev told_bus : List Sent → (Text → List HistoryEntry) → Bus
  told_bus sent history = record marked_bus { sent = sent; history = history }

  gate :
      (r : Result Bool × Bus)
      → first_see job.channel (cron_msg_id job.id t) bus ≡ r
      → fire_job announcer job t bus ≡ continue (fire_first announcer job envelope) r
  unfolding fire_job build_cron_envelope
  gate r e = rw e refl

  module _ (fresh : is_marked (run_key job t) bus ≡ false) (sent : List Sent) where
    queued-Fired :
        (history : Text → List HistoryEntry)
        → history job.target
          ≡ keep_last history_buffer_turns
              (bus.history job.target ++ to_history_entry envelope ∷ [])
        → (r : Result (Unit {0}) × Bus)
        → Commanded
            (λ b. (tt, record b { ingress = b.ingress ++ envelope ∷ [] }))
            (told_bus sent history)
            (bus.outages.broker msg_id)
            r
        → Fired job t bus (continue (λ _. pure true) r).0 (continue (λ _. pure true) r).1
    queued-Fired history last r (done e) = rw e (record {
      fresh = fresh;
      marked = unfold is_marked in is_marked_new (run_key job t) bus;
      told = last;
      queued = refl;
    })
    queued-Fired history last r (undone down e) = rw e (ground arith, inl refl)
    queued-Fired history last r (unanswered down e) = rw e (ground arith, inr (fresh, refl))

    told-Fired :
        (r : Result (Unit {0}) × Bus)
        → Appended
            (record marked_bus { sent = sent })
            (to_history_entry envelope)
            (is_history_up bus msg_id)
            r
        → Fired job t bus
            (continue (λ _. publish envelope >> pure true) r).0
            (continue (λ _. publish envelope >> pure true) r).1
    unfolding build_cron_envelope to_history_entry
    told-Fired r (told history last e) = rw e (
        queued-Fired history last (publish envelope (told_bus sent history))
          (publish-Commanded (told_bus sent history) envelope))
    told-Fired r (untold history down e) = rw e (ground arith, inl refl)

  first-Fired :
      is_marked (run_key job t) bus ≡ false
      → Fired job t bus
          (fire_first announcer job envelope true marked_bus).0
          (fire_first announcer job envelope true marked_bus).1
  unfolding fire_first cron_msg_id to_history_entry build_cron_envelope
  first-Fired fresh =
      let (sent, e) = announced announcer job envelope marked_bus in
      rw e (
        told-Fired fresh sent
          (append (to_history_entry envelope) (record marked_bus { sent = sent }))
          (append-Appended (record marked_bus { sent = sent }) (to_history_entry envelope)))

  marking-Fired :
      Commanded
        (set_nx (run_key job t))
        bus
        (bus.outages.dedupe msg_id)
        (first_see job.channel (cron_msg_id job.id t) bus)
      → (marked : Bool) → is_marked (run_key job t) bus ≡ marked
      → Fired job t bus (fire_job announcer job t bus).0 (fire_job announcer job t bus).1
  unfolding set_nx
  marking-Fired (done e) true m = rw (gate _ e, m) (unfold fire_first in (m, refl))
  marking-Fired (done e) false m = rw (gate _ e, m) (first-Fired m)
  marking-Fired (undone down e) marked m = rw (gate _ e) (ground arith, inl refl)
  marking-Fired (unanswered down e) true m = rw (gate _ e, m) (ground arith, inl refl)
  marking-Fired (unanswered down e) false m = rw (gate _ e, m) (ground arith, inl refl)

  -- Every outcome of firing a run, whatever becomes of its announcement: true if it was not marked
  -- and is now, with its turn at the end of the room's history and once more in the queue; false if
  -- it was marked, and nothing changed; it throws only if a command was not served, and then nothing
  -- was queued, unless the run was not marked, and is queued once.
  pub fire_job-Fired :
      Fired job t bus (fire_job announcer job t bus).0 (fire_job announcer job t bus).1
  fire_job-Fired =
      marking-Fired (first_see-Commanded bus job.channel (cron_msg_id job.id t))
        (is_marked (run_key job t) bus) refl
