-- ===== src/Announcement/Actions/Signature.antt =====
-- No room gets an announcement before the approver has approved it (src/announcements).
use open_dilim.Prelude.{
  ℕ, ◌≡◌, refl, subst, true, false, not, ◌&&◌, ◌||◌, none, some, List, [], ◌∷◌, arith, Bool-cases,
  Option-cases, inl, inr, any, select, All, All-take, All-select, All-collect, get_first, and_parts,
}
use open_dilim.Prelude.Update.{All-update_where}
use open_dilim.Prelude.Sort.{All-sort_by}
use open_dilim.Prelude.Text.{Text, text_eq}
use open_dilim.Announcement.Types.{
  DeliveryRow, Database, ClaimDeliveryInput, Delivery, ApproveInput, FailDeliveryInput,
  CreateAnnouncementInput,
}
use open_dilim.Announcement.Store.{
  has_id, is_awaiting, insert_targets, has_distinct_ids, create, is_unlocked, unlocked,
  approve_rows, reject, is_claimable, claimed, claim, is_open, marked_sent, mark_sent,
  marked_failed, mark_failed,
}
use open_dilim.Announcement.Store.Targets.{All-insert_targets}
use open_dilim.Announcement.Store.Rows.{claimable-expected, unlocked-parts}
use open_dilim.Announcement.Store.Runs.{
  Statement, creating, approving, rejecting, claiming, marking_sent, marking_failed, blocking,
  execute, run,
}
use open_dilim.Announcement.Queries.{
  max_send_per_tick, is_approved, is_due, joined, to_delivery, due_for_send,
}
use open_dilim.Announcement.Drafts.{World}
use open_dilim.Announcement.Notices.{Config}
use open_dilim.Announcement.Actions.{Action, act_all}
use open_dilim.Announcement.Actions.Calculus.{Only}
use open_dilim.Announcement.Actions.Refinement.{Permits, act_all-Refines}

module _ (id : Text) where
  abbrev IsLockedRow : DeliveryRow → Type 0
  IsLockedRow d = text_eq d.announcement_id id ≡ true → d.next_attempt_at ≡ none

  -- No row of the announcement waits for an attempt.
  abbrev pub IsLocked : Database → Type 0
  IsLocked db = All IsLockedRow db.deliveries

  -- It is another announcement that is approved.
  abbrev pub IsOther : ApproveInput → Type 0
  IsOther input = text_eq input.announcement_id id ≡ false

  claimed-IsLocked :
      (input : ClaimDeliveryInput) (d : DeliveryRow)
      → is_claimable input d ≡ true
      → IsLockedRow d
      → IsLockedRow (claimed input d)
  claimed-IsLocked input d h l own =
      let locked = l own in let (waits, _) = claimable-expected input d h in cc

  unlocked-IsLocked :
      (input : ApproveInput) (db : Database)
      → IsOther input
      → (d : DeliveryRow) → is_unlocked input.announcement_id db.blocks d ≡ true
      → IsLockedRow d
      → IsLockedRow (unlocked input.first_attempt_at d)
  unlocked-IsLocked input db other d h l own =
      let (same, _) = unlocked-parts input.announcement_id db.blocks d h in
      let own' : text_eq input.announcement_id id ≡ true =
        subst (λ u. text_eq u id ≡ true) same own in
      cc

  marked_failed-IsLocked :
      (input : FailDeliveryInput) (d : DeliveryRow)
      → IsLockedRow d
      → IsLockedRow (marked_failed input d)
  marked_failed-IsLocked input d h own = elim (Bool-cases input.give_up) [
    | inl up ↦ rw up refl
    | inr on ↦ (let own' = rw on at own in rw on (h own'))
  ]

  create-IsLocked :
      (uuid : Text) (ids : ℕ → Text) (now : ℕ) (input : CreateAnnouncementInput) (db : Database)
      → IsLocked db
      → IsLocked (create uuid ids now input db).1
  unfolding create
  create-IsLocked uuid ids now input db l =
      let rows = insert_targets ids 0 uuid input.rooms db.deliveries in
      elim (Bool-cases (any (has_id uuid) db.announcements || not (has_distinct_ids rows))) [
        | inl broken ↦ rw broken l
        | inr fine ↦ rw fine (
            All-insert_targets IsLockedRow ids 0 uuid (λ row room own. refl) input.rooms
              db.deliveries l)
      ]

  approve_rows-IsLocked :
      (input : ApproveInput) (now : ℕ) (db : Database)
      → IsOther input
      → IsLocked db
      → IsLocked (approve_rows input now db).1
  unfolding approve_rows
  approve_rows-IsLocked input now db other l =
      elim (Bool-cases (any (is_awaiting input.announcement_id) db.announcements)) [
        | inr none_left ↦ rw none_left l
        | inl there ↦ rw there (
            All-update_where IsLockedRow IsLockedRow (is_unlocked input.announcement_id db.blocks)
              (unlocked input.first_attempt_at) (unlocked-IsLocked input db other) (λ d h. h)
              db.deliveries l)
      ]

  execute-IsLocked :
      (s : Statement) (db : Database) → Only IsOther s → IsLocked db → IsLocked (execute s db)
  unfolding execute
  execute-IsLocked (creating uuid ids now input) db a l = create-IsLocked uuid ids now input db l
  execute-IsLocked (approving input now) db a l = approve_rows-IsLocked input now db a l
  execute-IsLocked (rejecting input now) db a l = unfold reject in l
  execute-IsLocked (claiming input) db a l =
      unfold claim in
      All-update_where IsLockedRow IsLockedRow (is_claimable input) (claimed input)
        (claimed-IsLocked input) (λ d h. h) db.deliveries l
  execute-IsLocked (marking_sent row at) db a l =
      unfold mark_sent in
      All-update_where IsLockedRow IsLockedRow (is_open row) (marked_sent at) (λ d _ _ _. refl)
        (λ d h. h) db.deliveries l
  execute-IsLocked (marking_failed input) db a l =
      unfold mark_failed in
      All-update_where IsLockedRow IsLockedRow (is_open input.id) (marked_failed input)
        (λ d _. marked_failed-IsLocked input d) (λ d h. h) db.deliveries l
  execute-IsLocked (blocking blocks) db a l = l

  run-IsLocked :
      (ss : List Statement) (db : Database)
      → All (Only IsOther) ss
      → IsLocked db
      → IsLocked (run ss db)
  unfolding run
  run-IsLocked [] db h l = l
  run-IsLocked (s ∷ ss) db (a, h) l = run-IsLocked ss (execute s db) h (execute-IsLocked s db a l)

  abbrev IsForeign : Delivery → Type 0
  IsForeign d = text_eq d.announcement_id id ≡ false

  due-foreign :
      (now : ℕ) (db : Database) (d : DeliveryRow)
      → IsLockedRow d
      → is_due now db d ≡ true
      → text_eq d.announcement_id id ≡ false
  unfolding is_due
  due-foreign now db d l due = elim (Bool-cases (text_eq d.announcement_id id)) [
    | inr other ↦ other
    | inl own ↦ absurd (let due' = rw (l own) at due in ground arith)
  ]

  to_delivery-announcement :
      (d : DeliveryRow) (t : Text) (y : Delivery)
      → to_delivery d t ≡ some y
      → y.announcement_id ≡ d.announcement_id
  unfolding to_delivery
  to_delivery-announcement d t y e = ground arith

  joined-announcement :
      (db : Database) (d : DeliveryRow) (y : Delivery)
      → joined db d ≡ some y
      → y.announcement_id ≡ d.announcement_id
  unfolding joined
  joined-announcement db d y e =
      elim (Option-cases (get_first (select (is_approved d.announcement_id) db.announcements))) [
        | inl missing ↦ (let never = rw missing at e in cc)
        | inr (a, there) ↦ to_delivery-announcement d a.text y (rw there at e)
      ]

  due_for_send-IsForeign :
      (now : ℕ) (db : Database) → IsLocked db → All IsForeign (due_for_send now db)
  unfolding due_for_send
  due_for_send-IsForeign now db l =
      All-collect IsForeign (joined db) (λ d. text_eq d.announcement_id id ≡ false)
        (λ d y other e. rw (joined-announcement db d y e) other) _
        (All-take (λ d. text_eq d.announcement_id id ≡ false) max_send_per_tick _
          (All-sort_by _ (λ d. text_eq d.announcement_id id ≡ false) _
            (All-select IsLockedRow (λ d. text_eq d.announcement_id id ≡ false) (is_due now db)
              (due-foreign now db) db.deliveries l)))

  locked-claim :
      (input : ClaimDeliveryInput) (ds : List DeliveryRow)
      → All IsLockedRow ds
      → any (λ d. text_eq d.announcement_id id && is_claimable input d) ds ≡ false
  locked-claim input [] l = refl
  locked-claim input (d ∷ ds) (p, l) =
      elim (Bool-cases (text_eq d.announcement_id id && is_claimable input d)) [
        | inr refused ↦ rw refused (locked-claim input ds l)
        | inl granted ↦ absurd (
            let (own, h) =
              and_parts (text_eq d.announcement_id id) (is_claimable input d) granted in
            let locked = p own in let (waits, _) = claimable-expected input d h in cc)
      ]

  -- If no row of an announcement waits for an attempt, and neither a call of the approver nor another
  -- instance approves it, then after whatever else the ports and the poller were asked to do, by
  -- whomever and in whatever order, with whatever failures, no delivery of it is due, and no claim of
  -- one would be granted.
  pub needs_approval :
      (config : Config) (actions : List Action) (w : World) (now : ℕ)
      → IsLocked w.db
      → All (Permits IsOther config) actions
      → All
          (λ d. text_eq d.announcement_id id ≡ false)
          (due_for_send now (act_all config actions w).db)
        × ((input : ClaimDeliveryInput)
            → any
                (λ d. text_eq d.announcement_id id && is_claimable input d)
                (act_all config actions w).db.deliveries
              ≡ false)
  needs_approval config actions w now l permitted =
      let (ss, only, e) = act_all-Refines IsOther config actions w permitted in
      let after : IsLocked (act_all config actions w).db = rw e (run-IsLocked ss w.db only l) in
      (
        due_for_send-IsForeign now (act_all config actions w).db after,
        λ input. locked-claim input (act_all config actions w).db.deliveries after,
      )
