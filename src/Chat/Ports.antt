-- ===== src/Chat/Ports.antt =====
-- The ports that the workflow engine and the scheduler drive: the dedupe gate on Redis
-- (src/state/dedupe.ts), the room history (RedisHistoryStore.append of src/state/session.ts), the
-- ingress stream (RedisStreamBroker.publish of src/broker/queue.ts) and the broadcaster, whose
-- platform calls are outside the program: what was sent is kept in order. Each command to Redis is
-- served, refused, or served without its reply coming back, and the call throws in both latter cases;
-- the state says for which argument. A platform call that throws has sent nothing.
use open_dilim.Prelude.{
  ℕ, ◌+◌, ◌*◌, ◌-◌, Bool, true, false, ◌&&◌, List, [], ◌∷◌, ◌++◌, ltb, if◌then◌else◌, length, drop,
  any,
}
use open_dilim.Prelude.Text.{Text, codes, text_eq}
use open_dilim.Task.{Task, ok, thrown, unavailable, ◌>>◌}
use open_dilim.Chat.{Envelope, HistoryEntry, BroadcastTarget}

pub data Fate : Type 0 where
  served refused reply_lost : Fate

abbrev pub is_served : Fate → Bool
is_served served = true
is_served fate = false

-- What becomes of the commands of a port, by the id of the message, and which calls of the
-- broadcaster throw, by that of the conversation.
pub record Outages : Type 0 where
  pub dedupe : Text → Fate
  pub rpush : Text → Fate
  pub ltrim : Text → Fate
  pub expire : Text → Fate
  pub broker : Text → Fate
  pub broadcaster : Text → Bool

pub record Mark : Type 0 where
  pub key : Text
  pub expires : ℕ

pub record Sent : Type 0 where
  pub target : BroadcastTarget
  pub text : Text

pub record Bus : Type 0 where
  pub clock : ℕ
  pub outages : Outages
  pub seen : List Mark
  pub history : Text → List HistoryEntry
  pub ingress : List Envelope
  pub sent : List Sent

-- The window of the dedupe key, in milliseconds (`TTL_SEC` of dedupe.ts is in seconds).
abbrev pub ttl_sec : ℕ
ttl_sec = 24 * 60 * 60

unfoldable pub seen_key : Text → Text → Text
seen_key channel msg_id = codes "dilim:seen:" ++ channel ++ b':' ∷ msg_id

abbrev pub is_live : ℕ → Text → Mark → Bool
is_live now key mark = text_eq mark.key key && ltb now mark.expires

unfoldable pub is_marked : Text → Bus → Bool
is_marked key bus = any (is_live bus.clock key) bus.seen

-- A command that returns a value and changes what Redis holds.
abbrev pub command : {A : Type 0} → Fate → (Bus → A × Bus) → Task Bus A
command served f bus = (ok (f bus).0, (f bus).1)
command refused f bus = (thrown unavailable, bus)
command reply_lost f bus = (thrown unavailable, (f bus).1)

-- `SET key 1 NX EX ttl`: true for the first to mark the key.
unfoldable pub set_nx : Text → Bus → Bool × Bus
unfolding is_marked
set_nx key bus = if is_marked key bus then (false, bus) else (
  true,
  record bus { seen = record { key = key; expires = bus.clock + ttl_sec * 1000 } ∷ bus.seen },
)

unfoldable pub first_see : Text → Text → Task Bus Bool
unfolding seen_key set_nx
first_see channel msg_id bus =
    command (bus.outages.dedupe msg_id) (set_nx (seen_key channel msg_id)) bus

abbrev pub history_buffer_turns : ℕ
history_buffer_turns = 40

unfoldable pub keep_last {ℓ} : {A : Type ℓ} → ℕ → List A → List A
keep_last n xs = drop (length xs - n) xs

abbrev pub on_room : Text → (List HistoryEntry → List HistoryEntry) → Bus → Unit {0} × Bus
on_room room f bus =
    (tt, record bus { history = λ r. if text_eq r room then f (bus.history r) else bus.history r })

-- `RPUSH`, `LTRIM` and `EXPIRE`; the deadline of the history is not kept.
unfoldable pub append : HistoryEntry → Task Bus (Unit {0})
unfolding keep_last
append entry bus =
    (do
      command (bus.outages.rpush entry.msg_id)
          (on_room entry.conversation_id (λ turns. turns ++ entry ∷ []))
      command (bus.outages.ltrim entry.msg_id)
          (on_room entry.conversation_id (keep_last history_buffer_turns))
      command (bus.outages.expire entry.msg_id) (λ b. (tt, b)))
      bus

unfoldable pub publish : Envelope → Task Bus (Unit {0})
publish envelope bus =
    command (bus.outages.broker envelope.msg_id)
      (λ b. (tt, record b { ingress = b.ingress ++ envelope ∷ [] })) bus

unfoldable pub send : BroadcastTarget → Text → Task Bus (Unit {0})
send target text bus =
    if bus.outages.broadcaster target.conversation_id
    then (thrown unavailable, bus)
    else (ok tt, record bus { sent = bus.sent ++ record { target = target; text = text } ∷ [] })
