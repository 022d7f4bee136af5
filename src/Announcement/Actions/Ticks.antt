-- ===== src/Announcement/Actions/Ticks.antt =====
-- The tick refines the statements of the store (src/announcements/poller.ts).
use open_dilim.Announcement.Actions.Calculus.{
  Only, RefinesTask, bind-Refines, ignore-Refines, pure-Refines, on_bus-Refines, query-Refines,
  statement-Refines, others-Refines,
}
use open_dilim.Announcement.Actions.Methods.{claim-Refines, mark_sent-Refines, mark_failed-Refines}
use open_dilim.Prelude.{ℕ, Bool, true, false, Option, none, some, List, [], ◌∷◌, All}
use open_dilim.Prelude.Text.{Text, codes}
use open_dilim.Task.{Result, ok, thrown}
use open_dilim.Chat.Ports.{send, append}
use open_dilim.Broadcast.Limits.{cap_for_channel}
use open_dilim.Announcement.Types.{Delivery, ApproveInput}
use open_dilim.Announcement.Store.{claim}
use open_dilim.Announcement.Store.Runs.{Statement, run}
use open_dilim.Announcement.Poller

module _ {A : ApproveInput → Type 0} where
  module _ (delivery : Delivery) (now_ms : ℕ) where
    pub after_sending-Refines :
        (text : Text) (r : Result (Unit {0}))
        → RefinesTask A (Poller.after_sending delivery now_ms text r)
    unfolding Poller.after_sending
    after_sending-Refines text (thrown e) =
        statement-Refines (codes "markFailed") _ (mark_failed-Refines _)
    after_sending-Refines text (ok done) =
        bind-Refines (statement-Refines (codes "markSent") _ (mark_sent-Refines delivery.id now_ms))
          (λ _. ignore-Refines (on_bus-Refines (append (Poller.sent_entry delivery text now_ms))))

    pub send_and_mark-Refines :
        (text : Text) → RefinesTask A (Poller.send_and_mark delivery now_ms text)
    unfolding Poller.send_and_mark
    send_and_mark-Refines text = record {
      apply = λ w.
          (after_sending-Refines text (send (Poller.target_of delivery) text w.bus).0).apply
            (record w { bus = (send (Poller.target_of delivery) text w.bus).1 });
    }

    pub if_claimed-Refines : (b : Bool) → RefinesTask A (Poller.if_claimed delivery now_ms b)
    unfolding Poller.if_claimed
    if_claimed-Refines false = pure-Refines
    if_claimed-Refines true = send_and_mark-Refines (cap_for_channel delivery.channel delivery.text)

    pub deliver_expected-Refines :
        (expected : Option ℕ) (others : List Statement)
        → All (Only A) others
        → RefinesTask A (Poller.deliver_expected delivery now_ms expected (run others))
    unfolding Poller.deliver_expected
    deliver_expected-Refines none others o = pure-Refines
    deliver_expected-Refines (some expected) others o = bind-Refines (others-Refines others o) (λ _.
        bind-Refines
          (statement-Refines (codes "claim")
            (λ db. (
              ok (claim (Poller.attempt delivery now_ms expected) db).0,
              (claim (Poller.attempt delivery now_ms expected) db).1,
            ))
            (claim-Refines (Poller.attempt delivery now_ms expected)))
          if_claimed-Refines)

    pub deliver-Refines :
        (others : List Statement)
        → All (Only A) others
        → RefinesTask A (Poller.deliver delivery now_ms (run others))
    unfolding Poller.deliver
    deliver-Refines = deliver_expected-Refines delivery.next_attempt_at

  pub deliver_all-Refines :
      (now_ms : ℕ) (others : Delivery → List Statement)
      → ((d : Delivery) → All (Only A) (others d))
      → (due : List Delivery) → RefinesTask A (Poller.deliver_all due now_ms (λ d. run (others d)))
  unfolding Poller.deliver_all
  deliver_all-Refines now_ms others o [] = pure-Refines
  deliver_all-Refines now_ms others o (d ∷ rest) =
      bind-Refines (ignore-Refines (deliver-Refines d now_ms (others d) (o d)))
        (λ _. deliver_all-Refines now_ms others o rest)

  pub tick-Refines :
      (now_ms : ℕ) (others : Delivery → List Statement)
      → ((d : Delivery) → All (Only A) (others d))
      → RefinesTask A (Poller.tick now_ms (λ d. run (others d)))
  unfolding Poller.tick
  tick-Refines now_ms others o =
      bind-Refines (query-Refines _ _) (deliver_all-Refines now_ms others o)
