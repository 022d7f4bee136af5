-- ===== src/Scheduler/Fire.antt =====
-- Turning a due job into a turn of its room (src/scheduler/fire.ts). The typing beat is a call to the
-- platform: whether it is set up, and for which conversation it throws, is an argument.
pub mod Delivery
use open_dilim.Prelude.{
  ℕ, Bool, true, false, Option, none, some, List, [], ◌∷◌, ◌++◌, if◌then◌else◌,
}
use open_dilim.Prelude.Text.{Text, codes}
use open_dilim.Prelude.Decimal.{show}
use open_dilim.Task.{
  Task, Result, ok, thrown, unavailable, ◌>>=◌, ◌>>◌, pure, throw, ignore_failure,
}
use open_dilim.Chat.{Envelope, MessageSource, HistoryEntry, HistoryRole, BroadcastTarget}
use open_dilim.Chat.Ports.{Bus, first_see, append, publish, send}
use open_dilim.Scheduler.Repo.{SchedulerJob}

pub record Announcer : Type 0 where
  pub typing : Option (Text → Bool)
  pub broadcaster : Bool

abbrev cron_target_is_group : Bool
cron_target_is_group = true

unfoldable pub cron_msg_id : Text → ℕ → Text
cron_msg_id job_id scheduled_ms = codes "cron:" ++ job_id ++ b':' ∷ show scheduled_ms

unfoldable pub build_cron_envelope : SchedulerJob → ℕ → Envelope
unfolding cron_msg_id
build_cron_envelope job scheduled_ms = record {
  source = MessageSource.cron;
  channel = job.channel;
  msg_id = cron_msg_id job.id scheduled_ms;
  cli_msg_id = none;
  conversation_id = job.target;
  sender_id = job.identity;
  sender_name = none;
  is_group = cron_target_is_group;
  addressed_to_agent = true;
  intent_gate = none;
  text = job.task;
  image_url = none;
  file_url = none;
  file_name = none;
  mentions = [];
  ts = scheduled_ms;
}

abbrev pub announce_prefix : Text
announce_prefix = codes "⏰ Chuẩn bị chạy job: "

type_beat : Option (Text → Bool) → Envelope → Task Bus (Unit {0})
type_beat none envelope = pure tt
type_beat (some throws) envelope =
    if throws envelope.conversation_id then throw unavailable else pure tt

abbrev pub announced_target : Envelope → BroadcastTarget
announced_target envelope = record {
  channel = envelope.channel;
  conversation_id = envelope.conversation_id;
  is_group = envelope.is_group;
  reply_to_sender_id = envelope.sender_id;
  reply_to_sender_name = envelope.sender_name;
}

tell : Bool → SchedulerJob → Envelope → Task Bus (Unit {0})
tell false job envelope = pure tt
tell true job envelope = send (announced_target envelope) (announce_prefix ++ job.task)

-- What it throws is logged and no more.
unfoldable pub announce_firing : Announcer → SchedulerJob → Envelope → Task Bus (Unit {0})
unfolding type_beat tell
announce_firing announcer job envelope =
    ignore_failure (do type_beat announcer.typing envelope; tell announcer.broadcaster job envelope)

unfoldable pub to_history_entry : Envelope → HistoryEntry
to_history_entry envelope = record {
  conversation_id = envelope.conversation_id;
  msg_id = envelope.msg_id;
  sender_id = envelope.sender_id;
  sender_name = none;
  text = envelope.text;
  image_url = none;
  file_url = none;
  file_name = none;
  is_group = envelope.is_group;
  role = HistoryRole.user;
  ts = envelope.ts;
}

fire_first : Announcer → SchedulerJob → Envelope → Bool → Task Bus Bool
fire_first announcer job envelope false = pure false
fire_first announcer job envelope true = do
  announce_firing announcer job envelope
  append (to_history_entry envelope)
  publish envelope
  pure true

-- False if this run of the job was fired before.
unfoldable pub fire_job : Announcer → SchedulerJob → ℕ → Task Bus Bool
unfolding fire_first
fire_job announcer job scheduled_ms = do
  let envelope = build_cron_envelope job scheduled_ms
  first ← first_see envelope.channel envelope.msg_id
  fire_first announcer job envelope first
