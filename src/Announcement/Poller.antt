-- ===== src/Announcement/Poller.antt =====
-- The tick that sends what is due (src/announcements/poller.ts). `others` is what other instances do
-- to the tables between the reading of the due rows and the claim of one, the gap between two rooms
-- included. The timer around the ticks is not modelled. The text of a failure that is thrown is kept
-- as one word for each kind.
pub mod Sending
use open_dilim.Prelude.{
  ℕ, suc, ◌+◌, ◌*◌, ◌^◌, Bool, true, false, Option, none, some, List, [], ◌∷◌, ◌++◌, leb,
  if◌then◌else◌,
}
use open_dilim.Prelude.Text.{Text, codes}
use open_dilim.Task.{
  Task, Result, ok, thrown, Failure, unavailable, unique_violation, error, continue, ◌>>=◌, ◌>>◌,
  pure, ignore_failure,
}
use open_dilim.Chat.{HistoryEntry, HistoryRole, BroadcastTarget}
use open_dilim.Chat.Ports.{append, send}
use open_dilim.Broadcast.Limits.{cap_for_channel}
use open_dilim.Workflow.Ask.{agent_sender_id}
use open_dilim.Announcement.Types.{
  Database, Delivery, ClaimDeliveryInput, FailDeliveryInput, max_attempts,
}
use open_dilim.Announcement.Store.{claim, mark_sent, mark_failed}
use open_dilim.Announcement.Queries.{due_for_send}
use open_dilim.Announcement.Drafts.{World, update, query, on_bus, others_run}

abbrev pub base_backoff_ms : ℕ
base_backoff_ms = 2 * 60_000

unfoldable pub backoff_from : ℕ → ℕ → ℕ
backoff_from attempts now_ms = now_ms + base_backoff_ms * 2 ^ attempts

unfoldable pub reason_of : Failure → Text
reason_of unavailable = codes "unavailable"
reason_of unique_violation = codes "unique_violation"
reason_of (error message) = message

abbrev pub target_of : Delivery → BroadcastTarget
target_of delivery = record {
  channel = delivery.channel;
  conversation_id = delivery.group_id;
  is_group = true;
  reply_to_sender_id = agent_sender_id;
  reply_to_sender_name = none;
}

unfoldable pub sent_entry : Delivery → Text → ℕ → HistoryEntry
sent_entry delivery text now_ms = record {
  conversation_id = delivery.group_id;
  msg_id = codes "announce:" ++ delivery.announcement_id ++ b':' ∷ delivery.group_id;
  sender_id = agent_sender_id;
  sender_name = none;
  text = text;
  image_url = none;
  file_url = none;
  file_name = none;
  is_group = true;
  role = HistoryRole.agent;
  ts = now_ms;
}

module _ (delivery : Delivery) (now_ms : ℕ) where
  abbrev pub failure : Failure → FailDeliveryInput
  failure e = record {
    id = delivery.id;
    reason = reason_of e;
    give_up = leb max_attempts (delivery.attempts + 1);
  }

  -- The history is written after the mark, and what it throws is logged and no more.
  unfoldable pub after_sending : Text → Result (Unit {0}) → Task World (Unit {0})
  unfolding mark_sent mark_failed reason_of sent_entry
  after_sending text (thrown e) =
      update (codes "markFailed") (λ db. (tt, mark_failed (failure e) db))
  after_sending text (ok done) = do
    update (codes "markSent") (λ db. (tt, mark_sent delivery.id now_ms db))
    ignore_failure (on_bus (append (sent_entry delivery text now_ms)))

  -- `try { … } catch { … }` around the sending.
  unfoldable pub send_and_mark : Text → Task World (Unit {0})
  unfolding after_sending
  send_and_mark text w =
      after_sending text (send (target_of delivery) text w.bus).0
        (record w { bus = (send (target_of delivery) text w.bus).1 })

  unfoldable pub if_claimed : Bool → Task World (Unit {0})
  unfolding send_and_mark cap_for_channel
  if_claimed false = pure tt
  if_claimed true = send_and_mark (cap_for_channel delivery.channel delivery.text)

  abbrev pub attempt : ℕ → ClaimDeliveryInput
  attempt expected = record {
    id = delivery.id;
    expected = expected;
    next = backoff_from (delivery.attempts + 1) now_ms;
  }

  -- The claim comes before the sending.
  unfoldable pub deliver_expected : Option ℕ → (Database → Database) → Task World (Unit {0})
  unfolding claim backoff_from if_claimed
  deliver_expected none others = pure tt
  deliver_expected (some expected) others = do
    others_run others
    claimed ← update (codes "claim") (claim (attempt expected))
    if_claimed claimed

  unfoldable pub deliver : (Database → Database) → Task World (Unit {0})
  unfolding deliver_expected
  deliver others = deliver_expected delivery.next_attempt_at others

-- What one delivery throws is logged, and the next one is sent.
unfoldable pub deliver_all :
    List Delivery → ℕ → (Delivery → Database → Database) → Task World (Unit {0})
unfolding deliver
deliver_all [] now_ms others = pure tt
deliver_all (delivery ∷ rest) now_ms others = do
  ignore_failure (deliver delivery now_ms (others delivery))
  deliver_all rest now_ms others

unfoldable pub tick : ℕ → (Delivery → Database → Database) → Task World (Unit {0})
unfolding due_for_send deliver_all
tick now_ms others = do
  due ← query (codes "dueForSend") (due_for_send now_ms)
  deliver_all due now_ms others
