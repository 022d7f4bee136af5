-- ===== src/Worker/Tests.antt =====
-- Runs of the burst window and of the lock on small inputs, and the theorems at them
-- (src/worker/burst.ts, src/worker/lock.ts).
use open_dilim.Worker.Lock.{
  ConversationLock, no_tasks, run as run_task, start, settle, is_ready, is_running, Reach, fresh,
  later, runs, starts, settles,
}
use open_dilim.Worker.Lock.Turns.{Reach-one_running, Reach-progress}
use open_dilim.Prelude.{
  ℕ, ◌≤◌, ◌||◌, ◌≡◌, refl, Bool, true, false, none, inl, inr, List, [], ◌∷◌, arith, String,
}
use open_dilim.Prelude.Text.{codes, text_eq, is_space, trim_start}
use open_dilim.Prelude.Split.{split_spaces}
use open_dilim.Prelude.Decimal.{Avoids}
use open_dilim.Task.{ok}
use open_dilim.Chat.{Envelope, channel}
use open_dilim.Worker.Burst.{
  Turns, is_supersedable, is_command, command_tokens, is_superseded, mark_latest_turn, mark,
  latest_ts, unexpired, turn_key,
}
use open_dilim.Worker.Burst.Marks.{Event, queued, passed, run, step, Some}
use open_dilim.Worker.Burst.Answered.{IsNewer, Among, superseded-IsNewer, burst-answered}

abbrev message : String → ℕ → Envelope
message words ts = record {
  source = channel;
  channel = codes "zalo";
  msg_id = codes "m";
  cli_msg_id = none;
  conversation_id = codes "g1";
  sender_id = codes "u1";
  sender_name = none;
  is_group = true;
  addressed_to_agent = true;
  intent_gate = none;
  text = codes words;
  image_url = none;
  file_url = none;
  file_name = none;
  mentions = [];
  ts = ts;
}

abbrev before : Turns
before = record { clock = 0; down = false; markers = λ _. none }

abbrev stock : Envelope
stock = message "tồn kho?" 5

abbrev hurry : Envelope
hurry = message "gấp nhé" 9

abbrev both : List Event
both = queued stock ∷ passed 700 ∷ queued hurry ∷ passed 500 ∷ []

-- A command is none without a name.
slash_alone : is_command (codes "  / ") ≡ false
unfolding is_command command_tokens trim_start split_spaces is_space
slash_alone = refl

slash_name : command_tokens (codes " /bind u1  r2") ≡ codes "bind" ∷ codes "u1" ∷ codes "r2" ∷ []
unfolding command_tokens trim_start split_spaces is_space
slash_name = refl

stock_is_skipped : (is_superseded true stock (run both) false before).0 ≡ ok true
unfolding is_superseded is_supersedable is_command command_tokens trim_start split_spaces is_space
    latest_ts unexpired run step mark_latest_turn mark text_eq turn_key
stock_is_skipped = refl

zalo-Avoids : Avoids b':' (codes "zalo")
zalo-Avoids = (λ e. ground arith, (λ e. ground arith, (λ e. ground arith, (λ e. ground arith, tt))))

superseded-IsNewer_example : (is_supersedable stock ≡ true) × Some (IsNewer stock) both
superseded-IsNewer_example =
    superseded-IsNewer true false stock both before (λ _. refl) zalo-Avoids
      (zalo-Avoids, (tt, (zalo-Avoids, (tt, tt)))) stock_is_skipped

burst-answered_example :
    (n : Envelope) × Among n (stock ∷ hurry ∷ [])
    × ((wired aborted : Bool) → (is_superseded wired n (run both) aborted before).0 ≡ ok false)
burst-answered_example =
    burst-answered stock (hurry ∷ []) both before (λ _. refl)
      (inl refl, (tt, (inr (inl refl), (tt, tt))))

-- Two messages of a room; the first is done, and the second runs.
abbrev one_done : ConversationLock
one_done = start 1 (settle 0 (start 0 (run_task (codes "g1") (run_task (codes "g1") no_tasks))))

one_done-Reach : Reach one_done
unfolding text_eq
one_done-Reach =
    later
      (later (later (later (later fresh (runs (codes "g1"))) (runs (codes "g1"))) (starts 0 refl))
        (settles 0 refl))
      (starts 1 refl)

Reach-one_running_example : (one_done.settled 0 ≡ true) × (is_running 0 one_done ≡ false)
Reach-one_running_example = Reach-one_running one_done one_done-Reach 0 1 (omega arith) refl refl

Reach-progress_example :
    (k : ℕ) × (k ≤ 1)
    × (one_done.key_of k ≡ one_done.key_of 1)
    × (is_ready k one_done || is_running k one_done ≡ true)
Reach-progress_example = Reach-progress one_done one_done-Reach 1 (omega arith) refl
