-- ===== src/Proactive/Poller.antt =====
-- Picking up the questions that are due (proactiveTick, pickUp and underRateLimit of
-- src/proactive/poller.ts). What serves a room (specFor) and the verdict of the judge (classify) are
-- arguments; the counters of the rooms are on Redis and do not throw.
pub mod Picking
use open_dilim.Prelude.{
  ℕ, ◌+◌, ◌*◌, Bool, true, false, not, ◌&&◌, Option, none, some, List, [], ◌∷◌, ◌++◌, ltb, leb,
  ◌==◌, if◌then◌else◌, any,
}
use open_dilim.Prelude.Text.{Text, codes, text_eq}
use open_dilim.Task.{Task, Result, ok, thrown, ◌>>=◌, ◌>>◌, pure, ignore_failure}
use open_dilim.Chat.{Envelope, MessageSource, HistoryEntry}
use open_dilim.Chat.Ports.{Bus, keep_last, publish}
use open_dilim.Usage.Ledger.{Counter, live, incremented}
use open_dilim.Proactive.Pending.{PendingQuestion, Waiting, Gaps, claim_due}

pub record ProactiveSpec : Type 0 where
  pub wait_ms : ℕ
  pub max_per_room_per_hour : ℕ

pub record World : Type 0 where
  pub waiting : Waiting
  pub rates : Text → Option Counter
  pub bus : Bus
  pub open bus use *

abbrev pub history_window_turns : ℕ
history_window_turns = 20

abbrev pub rate_window_sec : ℕ
rate_window_sec = 60 * 60

-- `RedisHistoryStore.recent`: the last turns, in order.
unfoldable pub recent : Text → ℕ → World → List HistoryEntry
unfolding keep_last
recent conversation_id limit w = keep_last limit (w.history conversation_id)

unfoldable pub is_answered : PendingQuestion → List HistoryEntry → Bool
is_answered question turns =
    any (λ e. ltb question.ts e.ts && not (text_eq e.sender_id question.sender_id)) turns

unfoldable pub rate_key : Text → Text → Text
rate_key channel conversation_id =
    codes "dilim:proactive:rate:" ++ channel ++ b':' ∷ conversation_id

-- `INCR`, with a deadline for a counter that is new.
unfoldable pub counted : ℕ → Option Counter → Counter
unfolding incremented
counted now c =
    let next = incremented 1 (live now c) in
    if next.value == 1
    then record { value = 1; expires = some (now + rate_window_sec * 1000) }
    else next

unfoldable pub under_rate_limit : ProactiveSpec → PendingQuestion → Task World Bool
unfolding counted rate_key
under_rate_limit spec question w =
    let key = rate_key question.channel question.conversation_id in
    let next = counted w.clock (w.rates key) in
    (
      ok (leb next.value spec.max_per_room_per_hour),
      record w { rates = λ k. if text_eq k key then some next else w.rates k },
    )

unfoldable pub to_proactive_envelope : PendingQuestion → Envelope
to_proactive_envelope q = record {
  source = MessageSource.proactive;
  channel = q.channel;
  msg_id = codes "proactive:" ++ q.msg_id;
  cli_msg_id = none;
  conversation_id = q.conversation_id;
  sender_id = q.sender_id;
  sender_name = q.sender_name;
  is_group = true;
  addressed_to_agent = true;
  intent_gate = none;
  text = q.text;
  image_url = none;
  file_url = none;
  file_name = none;
  mentions = [];
  ts = q.ts;
}

abbrev pub Judge : Type 0
Judge = PendingQuestion → List HistoryEntry → Bool

abbrev pub on_bus : {A : Type 0} → Task Bus A → Task World A
on_bus m w = let (r, bus') = m w.bus in (r, record w { bus = bus' })

-- Without a judge nothing is picked up.
judged : Option Judge → PendingQuestion → List HistoryEntry → Task World (Unit {0})
unfolding to_proactive_envelope
judged none question turns = pure tt
judged (some classify) question turns =
    if classify question turns then on_bus (publish (to_proactive_envelope question)) else pure tt

if_under_limit : Option Judge → PendingQuestion → List HistoryEntry → Bool → Task World (Unit {0})
unfolding judged
if_under_limit classify question turns false = pure tt
if_under_limit classify question turns true = judged classify question turns

if_unanswered :
    Option Judge
    → ProactiveSpec
    → PendingQuestion
    → List HistoryEntry
    → Bool
    → Task World (Unit {0})
unfolding if_under_limit under_rate_limit
if_unanswered classify spec question turns true = pure tt
if_unanswered classify spec question turns false = do
  under ← under_rate_limit spec question
  if_under_limit classify question turns under

with_history : Option Judge → PendingQuestion → ProactiveSpec → Task World (Unit {0})
unfolding if_unanswered recent is_answered
with_history classify question spec w =
    let turns = recent question.conversation_id history_window_turns w in
    if_unanswered classify spec question turns (is_answered question turns) w

with_spec : Option Judge → PendingQuestion → Option ProactiveSpec → Task World (Unit {0})
unfolding with_history
with_spec classify question none = pure tt
with_spec classify question (some spec) = with_history classify question spec

module _ (spec_for : Text → Text → Option ProactiveSpec) (classify : Option Judge) where
  unfoldable pub pick_up : PendingQuestion → Task World (Unit {0})
  unfolding with_spec
  pick_up question =
      with_spec classify question (spec_for question.channel question.conversation_id)

  -- A question that fails does not stop the next one.
  unfoldable pub pick_up_all : List PendingQuestion → Task World (Unit {0})
  unfolding pick_up
  pick_up_all [] = pure tt
  pick_up_all (question ∷ rest) = do ignore_failure (pick_up question); pick_up_all rest

  unfoldable pub proactive_tick : ℕ → (Text → Gaps) → Task World (Unit {0})
  unfolding claim_due pick_up_all
  proactive_tick now_ms others w =
      let (due, waiting') = claim_due now_ms others w.waiting in
      pick_up_all due (record w { waiting = waiting' })
