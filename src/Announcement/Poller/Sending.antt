-- ===== src/Announcement/Poller/Sending.antt =====
-- Every outcome of the delivery of one row (deliver of src/announcements/poller.ts).
use open_dilim.Prelude.{
  ℕ, ◌+◌, ◌≡◌, refl, ◌⊎◌, inl, inr, Bool, true, false, Option, none, some, [], ◌∷◌, ◌++◌,
  Bool-cases, leb,
}
use open_dilim.Prelude.Update.{update_where-none}
use open_dilim.Prelude.Text.{Text, codes}
use open_dilim.Task.{unavailable}
use open_dilim.Chat.{HistoryEntry}
use open_dilim.Chat.Ports.{Bus, send, append}
use open_dilim.Chat.Delivery.{Appended, told, untold, append-Appended}
use open_dilim.Broadcast.Limits.{cap_for_channel}
use open_dilim.Announcement.Types.{Database, Delivery}
use open_dilim.Announcement.Store.{is_claimable, claimed, claim, mark_sent, mark_failed}
use open_dilim.Announcement.Drafts.{World}
use open_dilim.Announcement.Poller.{
  target_of, sent_entry, attempt, reason_of, after_sending, send_and_mark, if_claimed,
  deliver_expected, deliver,
}

append-sent : (entry : HistoryEntry) (bus : Bus) → (append entry bus).1.sent ≡ bus.sent
append-sent entry bus = unsent _ (append-Appended bus entry)
  where
    unsent :
        (up : Bool)
        → Appended bus entry up (append entry bus)
        → (append entry bus).1.sent ≡ bus.sent
    unsent up (told history last e) = rw e refl
    unsent up (untold history down e) = rw e refl

module _ (delivery : Delivery) (now_ms : ℕ) (others : Database → Database) (w : World) where
  abbrev pub text : Text
  text = cap_for_channel delivery.channel delivery.text

  -- The tables after the claim.
  abbrev pub after_claim : ℕ → Database
  after_claim expected = (claim (attempt delivery now_ms expected) (others w.db)).1

  -- The instant that was read was there, and the claim of it was granted.
  pub record IsClaimed (expected : ℕ) : Type 0 where
    pub read : delivery.next_attempt_at ≡ some expected
    pub granted : (claim (attempt delivery now_ms expected) (others w.db)).0 ≡ true

  pub data Delivered (after : World) : Type 0 where
    untouched : delivery.next_attempt_at ≡ none → after ≡ w → Delivered after
    refused :
        (expected : ℕ)
        → delivery.next_attempt_at ≡ some expected
        → (w.sql_fails (codes "claim") ≡ true)
          ⊎ ((claim (attempt delivery now_ms expected) (others w.db)).0 ≡ false)
        → after.bus ≡ w.bus
        → after.db ≡ others w.db
        → Delivered after
    undelivered :
        (expected : ℕ)
        → IsClaimed expected
        → w.bus.outages.broadcaster delivery.group_id ≡ true
        → after.bus ≡ w.bus
        → (after.db
            ≡ mark_failed
                (record {
                  id = delivery.id;
                  reason = reason_of unavailable;
                  give_up = leb 4 (delivery.attempts + 1);
                })
                (after_claim expected))
          ⊎ ((w.sql_fails (codes "markFailed") ≡ true) × (after.db ≡ after_claim expected))
        → Delivered after
    delivered :
        (expected : ℕ)
        → IsClaimed expected
        → w.bus.outages.broadcaster delivery.group_id ≡ false
        → after.bus.sent ≡ w.bus.sent ++ record { target = target_of delivery; text = text } ∷ []
        → (after.db ≡ mark_sent delivery.id now_ms (after_claim expected))
          ⊎ ((w.sql_fails (codes "markSent") ≡ true) × (after.db ≡ after_claim expected))
        → Delivered after

  abbrev claimed_world : ℕ → World
  claimed_world expected = record w { db = after_claim expected }

  if_claimed-Delivered :
      (expected : ℕ)
      → IsClaimed expected
      → Delivered (if_claimed delivery now_ms true (claimed_world expected)).1
  unfolding if_claimed send_and_mark send
  if_claimed-Delivered expected c =
      elim (Bool-cases (w.bus.outages.broadcaster delivery.group_id)) [
        | inl down ↦ elim (Bool-cases (w.sql_fails (codes "markFailed"))) [
          | inl fails ↦
              unfold after_sending in
              rw (down, fails) (undelivered expected c down refl (inr (fails, refl)))
          | inr works ↦
              unfold after_sending in rw (down, works) (undelivered expected c down refl (inl refl))
        ]
        | inr up ↦ elim (Bool-cases (w.sql_fails (codes "markSent"))) [
          | inl fails ↦
              unfold after_sending in
              rw (up, fails) (delivered expected c up refl (inr (fails, refl)))
          | inr works ↦
              unfold after_sending in
              rw (up, works)
                (delivered expected c up (append-sent (sent_entry delivery text now_ms) _)
                  (inl refl))
        ]
      ]

  if_claimed-any :
      (expected : ℕ) (granted : Bool)
      → delivery.next_attempt_at ≡ some expected
      → (claim (attempt delivery now_ms expected) (others w.db)).0 ≡ granted
      → Delivered (if_claimed delivery now_ms granted (claimed_world expected)).1
  if_claimed-any expected true read e =
      if_claimed-Delivered expected (record { read = read; granted = e })
  if_claimed-any expected false read e =
      unfold if_claimed claim in
      (refused expected read (inr e) refl (λ i. record (others w.db) {
        deliveries =
            update_where-none (is_claimable (attempt delivery now_ms expected))
              (claimed (attempt delivery now_ms expected)) (others w.db).deliveries e i;
      }))

  deliver_expected-Delivered :
      (o : Option ℕ)
      → delivery.next_attempt_at ≡ o
      → Delivered (deliver_expected delivery now_ms o others w).1
  unfolding deliver_expected
  deliver_expected-Delivered none read = untouched read refl
  deliver_expected-Delivered (some expected) read =
      elim (Bool-cases (w.sql_fails (codes "claim"))) [
        | inl fails ↦ rw fails (refused expected read (inl fails) refl refl)
        | inr works ↦ rw works (if_claimed-any expected _ read refl)
      ]

  -- Every outcome of the delivery of a row, whatever other instances did to the tables since it was
  -- read. The row had no instant, and nothing happens. Or the claim of the instant that was read fails
  -- or is not granted, and nothing is changed or sent. Or it is granted: if the platform takes the
  -- message, the room is sent one, the text cut to the limit of its channel, and the row is marked as
  -- sent; if the platform refuses it, nothing is sent and the failure is recorded, for good at the
  -- fourth attempt; the row is left as the claim left it only if that statement fails.
  pub deliver-Delivered : Delivered (deliver delivery now_ms others w).1
  unfolding deliver
  deliver-Delivered = deliver_expected-Delivered delivery.next_attempt_at refl
