-- ===== src/Worker/Burst.antt =====
-- The burst window: a turn is dropped if its room has a newer message (isSuperseded of
-- src/worker/burst.ts), which the ingest marks (markLatestTurn of src/message-ingest/gateway.ts) on
-- Redis (src/state/turn-marker.ts). The marker is kept as the number whose decimal text Redis holds.
-- What happens while the worker waits for the window is an argument, the time that passes included.
pub mod Marks
pub mod Answered
use open_dilim.Prelude.{
  ℕ, ◌+◌, ◌*◌, Bool, true, false, not, ◌&&◌, ◌||◌, Option, none, some, List, [], ◌∷◌, ◌++◌, ltb,
  ◌==◌, if◌then◌else◌, select,
}
use open_dilim.Prelude.Text.{Text, codes, text_eq, is_empty, is_space, trim_start}
use open_dilim.Prelude.Split.{split_spaces}
use open_dilim.Task.{Task, Result, ok, thrown, unavailable, ignore_failure}
use open_dilim.Chat.{Envelope, MessageSource, channel, cron, distill, proactive}

pub record Marker : Type 0 where
  pub value : ℕ
  pub expires : ℕ

-- The keys of Redis, its clock, and whether it is down.
pub record Turns : Type 0 where
  pub clock : ℕ
  pub down : Bool
  pub markers : Text → Option Marker

-- The window of a marker, in seconds.
abbrev pub ttl_sec : ℕ
ttl_sec = 60 * 60

unfoldable pub turn_key : Text → Text → Text
turn_key channel_name conversation_id =
    codes "dilim:last-turn:" ++ channel_name ++ b':' ∷ conversation_id

-- `SET key ts EX ttl`.
unfoldable pub mark : Text → Text → ℕ → Task Turns (Unit {0})
mark channel_name conversation_id ts s = if s.down then (thrown unavailable, s) else (
  ok tt,
  record s {
    markers = λ key.
        if text_eq key (turn_key channel_name conversation_id)
        then some (record { value = ts; expires = s.clock + ttl_sec * 1000 })
        else s.markers key;
  },
)

-- What `GET` finds of a marker.
unfoldable pub unexpired : ℕ → Option Marker → Option ℕ
unexpired now none = none
unexpired now (some m) = if ltb now m.expires then some m.value else none

unfoldable pub latest_ts : Text → Text → Task Turns (Option ℕ)
unfolding unexpired
latest_ts channel_name conversation_id s =
    if s.down
    then (thrown unavailable, s)
    else (ok (unexpired s.clock (s.markers (turn_key channel_name conversation_id))), s)

abbrev starts_with_slash : Text → Bool
starts_with_slash [] = false
starts_with_slash (c ∷ _) = c == b'/'

abbrev without_first : Text → Text
without_first [] = []
without_first (_ ∷ s) = s

-- The words of a command, its name first, before the name is folded; none for any other text.
unfoldable pub command_tokens : Text → List Text
unfolding trim_start split_spaces
command_tokens text =
    if starts_with_slash (trim_start text)
    then select (λ t. not (is_empty t)) (split_spaces (without_first (trim_start text)))
    else []

abbrev has_words : List Text → Bool
has_words [] = false
has_words (_ ∷ _) = true

unfoldable pub is_command : Text → Bool
unfolding command_tokens
is_command text = has_words (command_tokens text)

abbrev is_from_channel : MessageSource → Bool
is_from_channel channel = true
is_from_channel cron = false
is_from_channel distill = false
is_from_channel proactive = false

abbrev is_gated : Option Bool → Bool
is_gated none = false
is_gated (some b) = b

unfoldable pub is_supersedable : Envelope → Bool
unfolding is_command
is_supersedable envelope =
    is_from_channel envelope.source
    && not (is_gated envelope.intent_gate)
    && not (is_command envelope.text)

-- `wired` says that there is a marker at all.
unfoldable pub mark_latest_turn : Bool → Envelope → Task Turns (Unit {0})
unfolding is_supersedable mark
mark_latest_turn wired envelope s =
    if not wired || not (is_supersedable envelope)
    then (ok tt, s)
    else ignore_failure (mark envelope.channel envelope.conversation_id envelope.ts) s

abbrev is_later : ℕ → Option ℕ → Bool
is_later ts none = false
is_later ts (some latest) = ltb ts latest

-- The comparison, false where the reading failed.
abbrev compared : ℕ → Result (Option ℕ) × Turns → Result Bool × Turns
compared ts (ok latest, s) = (ok (is_later ts latest), s)
compared ts (thrown _, s) = (ok false, s)

-- `aborted` is the signal after the wait.
unfoldable pub is_superseded : Bool → Envelope → (Turns → Turns) → Bool → Task Turns Bool
unfolding is_supersedable latest_ts
is_superseded wired envelope during aborted s =
    if not wired || not (is_supersedable envelope)
    then (ok false, s)
    else if aborted
    then (ok false, during s)
    else compared envelope.ts (latest_ts envelope.channel envelope.conversation_id (during s))
