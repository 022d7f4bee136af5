-- ===== src/Worker/Burst/Answered.antt =====
-- Who is skipped in a burst: nobody whose message is the newest of its room (src/worker/burst.ts).
use open_dilim.Prelude.{
  ℕ, ◌≤◌, ◌<◌, ◌≡◌, refl, ap, ◌⊎◌, inl, inr, Bool, true, false, none, List, [], ◌∷◌, ◌++◌, arith,
  Bool-cases, leb, leb→le, All,
}
use open_dilim.Prelude.Text.{Text, codes}
use open_dilim.Prelude.Decimal.{Avoids}
use open_dilim.Task.{ok}
use open_dilim.Chat.{Envelope}
use open_dilim.Worker.Burst.{Turns, turn_key, is_supersedable, is_superseded}
use open_dilim.Worker.Burst.Marks.{
  Event, queued, passed, switched, run, Marks, Some, run-marker, superseded-Marker,
  superseded-IsSupersedable, superseded-Ok,
}

-- No message of a room is marked.
abbrev pub IsUnmarked : Turns → Type 0
IsUnmarked s = (key : Text) → s.markers key ≡ none

-- A message that is newer than this one, in its room, and may be gathered.
abbrev pub IsNewer : Envelope → Event → Type 0
IsNewer x (queued y) =
    (is_supersedable y ≡ true)
    × (y.channel ≡ x.channel)
    × (y.conversation_id ≡ x.conversation_id)
    × (x.ts < y.ts)
IsNewer x (passed _) = ⊥
IsNewer x (switched _) = ⊥

-- The name of its channel holds no colon.
abbrev pub HasPlainChannel : Event → Type 0
HasPlainChannel (queued y) = Avoids b':' y.channel
HasPlainChannel (passed _) = Unit
HasPlainChannel (switched _) = Unit

drop_prefix : (a b : Text) → codes "dilim:last-turn:" ++ a ≡ codes "dilim:last-turn:" ++ b → a ≡ b
drop_prefix a b e = cc

-- Two texts that begin with a part without the mark are equal only part by part.
first_mark :
    (a b s t : Text)
    → Avoids b':' a
    → Avoids b':' b
    → a ++ b':' ∷ s ≡ b ++ b':' ∷ t
    → (a ≡ b) × (s ≡ t)
first_mark [] [] s t ha hb e = (refl, cc)
first_mark [] (y ∷ b) s t ha (p, hb) e = absurd (p (cc))
first_mark (x ∷ a) [] s t (p, ha) hb e = absurd (p (cc))
first_mark (x ∷ a) (y ∷ b) s t (_, ha) (_, hb) e =
    let (p, q) = first_mark a b s t ha hb (cc) in (cc, q)

turn_key_injective :
    (c d r q : Text)
    → Avoids b':' c
    → Avoids b':' d
    → turn_key c r ≡ turn_key d q
    → (c ≡ d) × (r ≡ q)
unfolding turn_key
turn_key_injective c d r q hc hd e = first_mark c d r q hc hd (drop_prefix _ _ e)

Marks-IsNewer :
    (x : Envelope) (ts : ℕ) (evs : List Event)
    → x.ts < ts
    → Avoids b':' x.channel
    → All HasPlainChannel evs
    → Some (Marks (turn_key x.channel x.conversation_id) ts) evs
    → Some (IsNewer x) evs
Marks-IsNewer x ts (queued y ∷ evs) later hx (hy, h) (inl (may, key, at)) =
    let (c, r) =
      turn_key_injective y.channel x.channel y.conversation_id x.conversation_id hy hx key in
    inl (may, c, r, omega (arith, at, later))
Marks-IsNewer x ts [] later hx h b = absurd b
Marks-IsNewer x ts (passed _ ∷ evs) later hx h (inl b) = absurd b
Marks-IsNewer x ts (switched _ ∷ evs) later hx h (inl b) = absurd b
Marks-IsNewer x ts (ev ∷ evs) later hx (_, h) (inr rest) =
    inr (Marks-IsNewer x ts evs later hx h rest)

-- A turn is skipped only if its message may be gathered and a newer one, which may be gathered too,
-- was queued in the same room of the same channel; from markers that are all missing, whatever was
-- queued where, however much time passed and whenever Redis was down. The names of channels hold no
-- colon.
pub superseded-IsNewer :
    (wired aborted : Bool) (x : Envelope) (evs : List Event) (s : Turns)
    → IsUnmarked s
    → Avoids b':' x.channel
    → All HasPlainChannel evs
    → (is_superseded wired x (run evs) aborted s).0 ≡ ok true
    → (is_supersedable x ≡ true) × Some (IsNewer x) evs
superseded-IsNewer wired aborted x evs s unmarked hx h e = (
  superseded-IsSupersedable wired aborted x evs s e,
  let (m, there, later) = superseded-Marker wired aborted x evs s e in
      elim (run-marker (turn_key x.channel x.conversation_id) evs s m there) [
        | inl before ↦ absurd (let missing = unmarked (turn_key x.channel x.conversation_id) in cc)
        | inr marked ↦ Marks-IsNewer x m.value evs later hx h marked
      ],
)

abbrev pub Among : Envelope → List Envelope → Type 0
Among x [] = ⊥
Among x (y ∷ ys) = (x ≡ y) ⊎ Among x ys

-- If a message was queued, it is one of these.
abbrev pub IsAmong : List Envelope → Event → Type 0
IsAmong xs (queued y) = Among y xs
IsAmong xs (passed _) = Unit
IsAmong xs (switched _) = Unit

newest :
    (x : Envelope) (xs : List Envelope)
    → (n : Envelope) × Among n (x ∷ xs) × ((y : Envelope) → Among y (x ∷ xs) → y.ts ≤ n.ts)
newest x [] =
    (x, inl refl, λ y a. elim a [ inl e ↦ omega (arith, ap (λ z. z.ts) e) | inr b ↦ absurd b ])
newest x (z ∷ xs) =
    let (n, here, most) = newest z xs in
    elim (Bool-cases (leb x.ts n.ts)) [
      | inl le ↦ (
        n,
        inr here,
        λ y a. elim a [
          | inl e ↦ omega (arith, ap (λ v. v.ts) e, leb→le x.ts n.ts le)
          | inr b ↦ most y b
        ],
      )
      | inr gt ↦ (
        x,
        inl refl,
        λ y a. elim a [
          | inl e ↦ omega (arith, ap (λ v. v.ts) e)
          | inr b ↦ let below = most y b in ground arith
        ],
      )
    ]

Marks-Among :
    (key : Text) (ts bound : ℕ) (xs : List Envelope) (evs : List Event)
    → ((y : Envelope) → Among y xs → y.ts ≤ bound)
    → All (IsAmong xs) evs
    → Some (Marks key ts) evs
    → ts ≤ bound
Marks-Among key ts bound xs (queued y ∷ evs) most (a, h) (inl (_, _, at)) =
    omega (arith, at, most y a)
Marks-Among key ts bound xs [] most h b = absurd b
Marks-Among key ts bound xs (passed _ ∷ evs) most h (inl b) = absurd b
Marks-Among key ts bound xs (switched _ ∷ evs) most h (inl b) = absurd b
Marks-Among key ts bound xs (ev ∷ evs) most (_, h) (inr rest) =
    Marks-Among key ts bound xs evs most h rest

-- Of the messages of a burst one at least is answered: whatever was queued of them, in any order and
-- any number of times, however much time passed and whenever Redis was down, it is not skipped,
-- whether or not there is a marker and the signal is aborted; from markers that are all missing.
pub burst-answered :
    (x : Envelope) (xs : List Envelope) (evs : List Event) (s : Turns)
    → IsUnmarked s
    → All (IsAmong (x ∷ xs)) evs
    → (n : Envelope) × Among n (x ∷ xs)
      × ((wired aborted : Bool) → (is_superseded wired n (run evs) aborted s).0 ≡ ok false)
burst-answered x xs evs s unmarked among =
    let (n, here, most) = newest x xs in
    (n, here, λ wired aborted. answered wired aborted n most (superseded-Ok wired aborted n evs s))
  where
    answered :
        (wired aborted : Bool) (n : Envelope)
        → ((y : Envelope) → Among y (x ∷ xs) → y.ts ≤ n.ts)
        → (b : Bool) × ((is_superseded wired n (run evs) aborted s).0 ≡ ok b)
        → (is_superseded wired n (run evs) aborted s).0 ≡ ok false
    answered wired aborted n most (false, e) = e
    answered wired aborted n most (true, e) =
        let (m, there, later) = superseded-Marker wired aborted n evs s e in
        elim (run-marker (turn_key n.channel n.conversation_id) evs s m there) [
          | inl before ↦
              absurd (let missing = unmarked (turn_key n.channel n.conversation_id) in cc)
          | inr marked ↦
              let below = Marks-Among _ m.value n.ts (x ∷ xs) evs most among marked in
              absurd (omega (arith, below, later))
        ]
