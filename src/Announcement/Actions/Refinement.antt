-- ===== src/Announcement/Actions/Refinement.antt =====
-- Whatever the ports and the poller are asked to do, they do to the tables by the statements of the
-- store (src/announcements/service.ts, src/announcements/poller.ts).
use open_dilim.Announcement.Actions.Calculus.{Only, Refines, Refines-same, Refines-trans}
use open_dilim.Announcement.Actions.Calls.{
  draft-Refines, queue-Refines, status_of-Refines, approve_for-Refines, reject_for-Refines,
  awaiting-Refines,
}
use open_dilim.Announcement.Actions.Ticks.{tick-Refines}
use open_dilim.Prelude.{◌≡◌, refl, true, List, [], ◌∷◌, All}
use open_dilim.Announcement.Types.{Delivery, ApproveInput}
use open_dilim.Announcement.Store.Runs.{Statement, run}
use open_dilim.Announcement.Drafts.{World}
use open_dilim.Announcement.Service
use open_dilim.Announcement.Service.{
  QueueInput, draft, queue, status_of, approve_for, reject_for, awaiting, is_approver,
}
use open_dilim.Announcement.Notices.{Config}
use open_dilim.Announcement.Actions.{
  Action, drafting, queueing, asking_status, approving_for, rejecting_for, listing, ticking,
  elapsing, failing, act, act_all,
}

module _ (A : ApproveInput → Type 0) where
  -- The approvals of an action: that of the call, if the approver made it, and those of others.
  abbrev pub Permits : Config → Action → Type 0
  Permits config (queueing input uuid ids others) = All (Only A) others
  Permits config (approving_for id user now_ms others) =
      (is_approver config user ≡ true → A (Service.approval id user now_ms)) × All (Only A) others
  Permits config (ticking now_ms others) = (d : Delivery) → All (Only A) (others d)
  Permits config _ = Unit

  act-Refines :
      (config : Config) (a : Action) (w : World) → Permits config a → Refines A w (act config a w)
  unfolding act
  act-Refines config (drafting text author uuid) w h =
      (draft-Refines config text author uuid).apply w
  act-Refines config (queueing input uuid ids others) w h =
      (queue-Refines config input uuid ids others h).apply w
  act-Refines config (asking_status sender id) w h = (status_of-Refines config sender id).apply w
  act-Refines config (approving_for id user now_ms others) w (a, o) =
      (approve_for-Refines config id user now_ms others a o).apply w
  act-Refines config (rejecting_for id user reason) w h =
      (reject_for-Refines config id user reason).apply w
  act-Refines config (listing user) w h = (awaiting-Refines config user).apply w
  act-Refines config (ticking now_ms others) w o = (tick-Refines now_ms others o).apply w
  act-Refines config (elapsing ms) w h = Refines-same w (act config (elapsing ms) w) refl
  act-Refines config (failing redis sql outages) w h =
      Refines-same w (act config (failing redis sql outages) w) refl

  -- Whatever the ports and the poller are asked to do, in whatever order, with what other instances
  -- do in between and with whatever failures, the tables change by a run of the statements of the
  -- store; and its approvals are those of other instances and those of the calls of the approver.
  pub act_all-Refines :
      (config : Config) (actions : List Action) (w : World)
      → All (Permits config) actions
      → (ss : List Statement) × All (Only A) ss × ((act_all config actions w).db ≡ run ss w.db)
  unfolding act_all
  act_all-Refines config [] w h = Refines-same w w refl
  act_all-Refines config (a ∷ rest) w (p, h) =
      Refines-trans w (act config a w) (act_all config rest (act config a w))
        (act-Refines config a w p) (act_all-Refines config rest (act config a w) h)
