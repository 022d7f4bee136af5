-- ===== src/Announcement/Actions.antt =====
-- What reaches the tables of announcements from outside: calls of the two ports
-- (src/announcements/service.ts), ticks of the poller (src/announcements/poller.ts), time and
-- failures. `others` are the statements of other instances that come in between.
pub mod Calculus
pub mod Methods
pub mod Calls
pub mod Ticks
pub mod Refinement
pub mod Signature
use open_dilim.Prelude.{ℕ, ◌+◌, Bool, Option, List, [], ◌∷◌}
use open_dilim.Prelude.Text.{Text}
use open_dilim.Chat.Ports.{Outages}
use open_dilim.Announcement.Types.{BlockRow, Delivery, DealerRoom}
use open_dilim.Announcement.Store.Runs.{Statement, run}
use open_dilim.Announcement.Drafts.{World}
use open_dilim.Announcement.Service.{
  QueueInput, draft, queue, status_of, approve_for, reject_for, awaiting,
}
use open_dilim.Announcement.Notices.{Config}
use open_dilim.Announcement.Poller.{tick}

pub data Action : Type 0 where
  drafting : (text author_sender_id uuid : Text) → Action
  queueing : QueueInput → Text → (ℕ → Text) → List Statement → Action
  asking_status : Text → Option Text → Action
  approving_for : (announcement_id user_id : Text) → ℕ → List Statement → Action
  rejecting_for : (announcement_id user_id reason : Text) → Action
  listing : Text → Action
  ticking : ℕ → (Delivery → List Statement) → Action
  elapsing : ℕ → Action
  failing : Bool → (Text → Bool) → Outages → Action

unfoldable pub act : Config → Action → World → World
act config (drafting text author uuid) w = (draft text author uuid config w).1
act config (queueing input uuid ids others) w = (queue config input uuid ids (run others) w).1
act config (asking_status sender id) w = (status_of sender id w).1
act config (approving_for id user now_ms others) w =
    (approve_for id user config now_ms (run others) w).1
act config (rejecting_for id user reason) w = (reject_for id user config reason w).1
act config (listing user) w = (awaiting config user w).1
act config (ticking now_ms others) w = (tick now_ms (λ d. run (others d)) w).1
act config (elapsing ms) w = record w { bus = record w.bus { clock = w.bus.clock + ms } }
act config (failing redis sql outages) w = record w {
  redis_down = redis;
  sql_fails = sql;
  bus = record w.bus { outages = outages };
}

unfoldable pub act_all : Config → List Action → World → World
unfolding act
act_all config [] w = w
act_all config (a ∷ rest) w = act_all config rest (act config a w)
