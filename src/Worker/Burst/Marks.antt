-- ===== src/Worker/Burst/Marks.antt =====
-- Where a marker comes from, and what a skipped turn has read (src/worker/burst.ts).
use open_dilim.Prelude.{
  ℕ, ◌+◌, ◌*◌, ◌<◌, ◌≡◌, refl, sym, ap, ◌∙◌, ◌⊎◌, inl, inr, Bool, true, false, not, ◌||◌, Option,
  none, some, List, [], ◌∷◌, arith, Bool-cases, if◌then◌else◌, ltb, ltb→lt,
}
use open_dilim.Prelude.Text.{Text, text_eq, text_eq→eq}
use open_dilim.Task.{ok}
use open_dilim.Chat.{Envelope}
use open_dilim.Worker.Burst.{
  Marker, Turns, turn_key, mark, unexpired, latest_ts, is_supersedable, mark_latest_turn,
  is_superseded, is_later, ttl_sec,
}

-- What can happen to the markers: the ingest has queued a message, time passes, Redis goes down or
-- comes back.
pub data Event : Type 0 where
  queued : Envelope → Event
  passed : ℕ → Event
  switched : Bool → Event

unfoldable pub step : Event → Turns → Turns
unfolding mark_latest_turn
step (queued e) s = (mark_latest_turn true e s).1
step (passed ms) s = record s { clock = s.clock + ms }
step (switched down) s = record s { down = down }

unfoldable pub run : List Event → Turns → Turns
unfolding step
run [] s = s
run (ev ∷ evs) s = run evs (step ev s)

-- The message of an event that was queued, may be gathered, and has this key and time.
abbrev pub Marks : Text → ℕ → Event → Type 0
Marks key ts (queued e) =
    (is_supersedable e ≡ true) × (turn_key e.channel e.conversation_id ≡ key) × (e.ts ≡ ts)
Marks key ts (passed _) = ⊥
Marks key ts (switched _) = ⊥

abbrev pub Some : (Event → Type 0) → List Event → Type 0
Some P [] = ⊥
Some P (ev ∷ evs) = P ev ⊎ Some P evs

module _ (x : Envelope) (s : Turns) where
  step-unmarked : is_supersedable x ≡ false → step (queued x) s ≡ s
  unfolding step mark_latest_turn
  step-unmarked h = rw (h, step) refl

  step-down : is_supersedable x ≡ true → s.down ≡ true → step (queued x) s ≡ s
  unfolding step mark_latest_turn mark
  step-down h down = rw (h, down, step) refl

  step-marked :
      (key : Text)
      → is_supersedable x ≡ true
      → s.down ≡ false
      → (step (queued x) s).markers key ≡ (
          if text_eq key (turn_key x.channel x.conversation_id)
          then some (record { value = x.ts; expires = s.clock + ttl_sec * 1000 })
          else s.markers key)
  unfolding step mark_latest_turn mark
  step-marked key h up = rw (h, up, step) refl

  step-queued :
      (key : Text) (m : Marker)
      → (step (queued x) s).markers key ≡ some m
      → (s.markers key ≡ some m) ⊎ Marks key m.value (queued x)
  step-queued key m e = elim (Bool-cases (is_supersedable x)) [
    | inr h ↦ inl (rw (← ap (λ t. t.markers key) (step-unmarked h)) e)
    | inl h ↦ elim (Bool-cases s.down) [
      | inl down ↦ inl (rw (← ap (λ t. t.markers key) (step-down h down)) e)
      | inr up ↦ elim (Bool-cases (text_eq key (turn_key x.channel x.conversation_id))) [
        | inr other ↦ inl (rw (step-marked key h up, other) at e)
        | inl same ↦
            let written = rw (step-marked key h up, same) at e in
            inr (h, sym (text_eq→eq key _ same), cc)
      ]
    ]
  ]

step-marker :
    (key : Text) (ev : Event) (s : Turns) (m : Marker)
    → (step ev s).markers key ≡ some m
    → (s.markers key ≡ some m) ⊎ Marks key m.value ev
unfolding step
step-marker key (passed ms) s m e = inl e
step-marker key (switched down) s m e = inl e
step-marker key (queued x) s m e = step-queued x s key m e

pub run-marker :
    (key : Text) (evs : List Event) (s : Turns) (m : Marker)
    → (run evs s).markers key ≡ some m
    → (s.markers key ≡ some m) ⊎ Some (Marks key m.value) evs
unfolding run
run-marker key [] s m e = inl e
run-marker key (ev ∷ evs) s m e = elim (run-marker key evs (step ev s) m e) [
  | inr later ↦ inr (inr later)
  | inl here ↦ elim (step-marker key ev s m here) [
    | inl before ↦ inl before
    | inr now ↦ inr (inl now)
  ]
]

read-later :
    (ts now : ℕ) (o : Option Marker)
    → is_later ts (unexpired now o) ≡ true
    → (m : Marker) × (o ≡ some m) × (ts < m.value)
unfolding unexpired
read-later ts now none e = cc
read-later ts now (some m) e = elim (Bool-cases (ltb now m.expires)) [
  | inl live ↦ (m, refl, ltb→lt ts m.value (rw live at e))
  | inr old ↦ (let never = rw old at e in cc)
]

module _ (wired : Bool) (x : Envelope) (evs : List Event) (s : Turns) where
  superseded-unsure :
      (aborted : Bool)
      → (not wired || not (is_supersedable x)) ≡ true
      → (is_superseded wired x (run evs) aborted s).0 ≡ ok false
  unfolding is_superseded
  superseded-unsure aborted h = rw h refl

  superseded-aborted :
      (not wired || not (is_supersedable x)) ≡ false
      → (is_superseded wired x (run evs) true s).0 ≡ ok false
  unfolding is_superseded
  superseded-aborted h = rw h refl

  superseded-down :
      (not wired || not (is_supersedable x)) ≡ false
      → (run evs s).down ≡ true
      → (is_superseded wired x (run evs) false s).0 ≡ ok false
  unfolding is_superseded latest_ts
  superseded-down h down = rw (h, down) refl

  superseded-read :
      (not wired || not (is_supersedable x)) ≡ false
      → (run evs s).down ≡ false
      → (is_superseded wired x (run evs) false s).0
        ≡ ok (
            is_later x.ts (
              unexpired
                (run evs s).clock
                ((run evs s).markers (turn_key x.channel x.conversation_id))))
  unfolding is_superseded latest_ts
  superseded-read h up = rw (h, up) refl

ok_true : (b : Bool) → ok b ≡ ok true → b ≡ true
ok_true b e = cc

pub superseded-Marker :
    (wired aborted : Bool) (x : Envelope) (evs : List Event) (s : Turns)
    → (is_superseded wired x (run evs) aborted s).0 ≡ ok true
    → (m : Marker) × ((run evs s).markers (turn_key x.channel x.conversation_id) ≡ some m)
      × (x.ts < m.value)
superseded-Marker wired aborted x evs s e =
    elim (Bool-cases (not wired || not (is_supersedable x))) [
      | inl h ↦ absurd (let never = superseded-unsure wired x evs s aborted h in cc)
      | inr h ↦ go aborted h e
    ]
  where
    go :
        (gone : Bool)
        → (not wired || not (is_supersedable x)) ≡ false
        → (is_superseded wired x (run evs) gone s).0 ≡ ok true
        → (m : Marker) × ((run evs s).markers (turn_key x.channel x.conversation_id) ≡ some m)
          × (x.ts < m.value)
    go true h e' = absurd (let never = superseded-aborted wired x evs s h in cc)
    go false h e' = elim (Bool-cases (run evs s).down) [
      | inl down ↦ absurd (let never = superseded-down wired x evs s h down in cc)
      | inr up ↦ read-later x.ts _ _ (ok_true _ (sym (superseded-read wired x evs s h up) ∙ e'))
    ]

pub superseded-IsSupersedable :
    (wired aborted : Bool) (x : Envelope) (evs : List Event) (s : Turns)
    → (is_superseded wired x (run evs) aborted s).0 ≡ ok true
    → is_supersedable x ≡ true
superseded-IsSupersedable wired aborted x evs s e =
    elim (Bool-cases (not wired || not (is_supersedable x))) [
      | inl h ↦ absurd (let never = superseded-unsure wired x evs s aborted h in cc)
      | inr h ↦ allowed wired h
    ]
  where
    allowed : (w : Bool) → (not w || not (is_supersedable x)) ≡ false → is_supersedable x ≡ true
    allowed w h = ground arith

-- Nothing is thrown.
pub superseded-Ok :
    (wired aborted : Bool) (x : Envelope) (evs : List Event) (s : Turns)
    → (b : Bool) × ((is_superseded wired x (run evs) aborted s).0 ≡ ok b)
superseded-Ok wired aborted x evs s = elim (Bool-cases (not wired || not (is_supersedable x))) [
  | inl h ↦ (false, superseded-unsure wired x evs s aborted h)
  | inr h ↦ go aborted h
]
  where
    go :
        (gone : Bool)
        → (not wired || not (is_supersedable x)) ≡ false
        → (b : Bool) × ((is_superseded wired x (run evs) gone s).0 ≡ ok b)
    go true h = (false, superseded-aborted wired x evs s h)
    go false h = elim (Bool-cases (run evs s).down) [
      | inl down ↦ (false, superseded-down wired x evs s h down)
      | inr up ↦ (_, superseded-read wired x evs s h up)
    ]
