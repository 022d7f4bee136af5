-- ===== src/Announcement/Service/Deciding.antt =====
-- What an approval does, the first time and the second (approve of src/announcements/service.ts and of
-- src/announcements/store.ts).
use open_dilim.Prelude.{
  ℕ, ◌≤◌, ◌≡◌, refl, Bool, true, false, not, ◌&&◌, ◌==◌, Option, none, some, List, [], ◌∷◌, ◌++◌,
  Bool-cases, Option-cases, inl, inr, any, count, le→leb, arith,
}
use open_dilim.Prelude.Update.{update_where, any-update_where_hit, count-update_where_exact}
use open_dilim.Prelude.Text.{Text, codes, text_eq}
use open_dilim.Prelude.Decimal.{show}
use open_dilim.Task.{ok, bind-ok}
use open_dilim.Chat.Ports.{send}
use open_dilim.Announcement.Types.{
  ApproveInput, BlockRow, DeliveryRow, Database, ApproverRoom, approved_for,
}
use open_dilim.Announcement.Store.{
  is_awaiting, is_unlocked, unlocked, approved_row, approve_rows, state_of, approve,
}
use open_dilim.Announcement.Store.Rows.{becomes_approved, unlocked-parts}
use open_dilim.Announcement.Queries.{is_approved, is_due, is_absent, origin_of}
use open_dilim.Announcement.Drafts.{World}
use open_dilim.Announcement.Service.{
  is_approver, approval, record_approval, tell_approved, approve_for,
}
use open_dilim.Announcement.Notices.{Config, is_announcement_id, notify_origin, room_target}

-- What the room is told that asked for the announcement.
abbrev pub told : ℕ → Text
told n = codes "Thông báo đã được duyệt. Hệ thống đang gửi tới " ++ show n ++ codes " nhóm đại lý."

module _ (config : Config) (id user : Text) (now_ms : ℕ) (w : World)
    (approver : is_approver config user ≡ true) (formed : is_announcement_id id ≡ true)
    (works : w.sql_fails (codes "approve") ≡ false) where
  decided :
      (n : Option ℕ) (db : Database)
      → approve (approval id user now_ms) w.bus.clock (λ db'. db') w.db ≡ (n, db)
      → approve_for id user config now_ms (λ db'. db') w ≡ tell_approved id n (record w { db = db })
  unfolding approve_for
  decided n db e =
      rw (approver, formed)
        (bind-ok (record_approval id user now_ms (λ db'. db')) w (record w { db = db })
          (tell_approved id) (recorded))
    where
      recorded : record_approval id user now_ms (λ db'. db') w ≡ (ok n, record w { db = db })
      recorded = unfold record_approval in rw (works, e) refl

  tell_approved-db : (n : Option ℕ) (v : World) → (tell_approved id n v).1.db ≡ v.db
  unfolding tell_approved notify_origin
  tell_approved-db none v = refl
  tell_approved-db (some n) v = elim (Bool-cases (v.sql_fails (codes "originOf"))) [
    | inl fails ↦ rw fails refl
    | inr reads ↦ elim (Option-cases (origin_of id v.db)) [
      | inl missing ↦ rw (reads, missing) refl
      | inr (o, there) ↦ rw (reads, there) refl
    ]
  ]

  again :
      any (is_awaiting id) w.db.announcements ≡ false
      → state_of id w.db ≡ some 1
      → approve (approval id user now_ms) w.bus.clock (λ db. db) w.db ≡ (some 0, w.db)
  unfolding approve approve_rows
  again none_waits state = rw (none_waits, state) refl

  -- An announcement that was approved before and is approved again, by the approver, is reported as
  -- approved for no room, nothing is changed in the tables, and the room that asked for it is told that
  -- it is sent to no room; if that room can be read and reached, and the announcement is well-formed
  -- and none with its id waits for approval.
  pub approve_again :
      any (is_awaiting id) w.db.announcements ≡ false
      → state_of id w.db ≡ some 1
      → (origin : ApproverRoom) → w.sql_fails (codes "originOf") ≡ false
      → origin_of id w.db ≡ some origin
      → w.bus.outages.broadcaster origin.conversation_id ≡ false
      → ((approve_for id user config now_ms (λ db. db) w).0 ≡ ok (approved_for 0))
        × ((approve_for id user config now_ms (λ db. db) w).1.db ≡ w.db)
        × ((approve_for id user config now_ms (λ db. db) w).1.bus.sent
            ≡ w.bus.sent ++ record { target = room_target origin true; text = told 0 } ∷ [])
  approve_again none_waits state origin reads there up =
      let e = decided (some 0) w.db (again none_waits state) in
      (
        rw e (unfold tell_approved in refl),
        rw e (tell_approved-db (some 0) w),
        rw e (unfold tell_approved notify_origin send in rw (reads, there, up) refl),
      )

-- A room that one of the blocks names.
abbrev pub is_shut : List BlockRow → DeliveryRow → Bool
is_shut blocks d = any (λ b. text_eq b.channel d.channel && text_eq b.group_id d.group_id) blocks

-- A row of the announcement that is pending, not sent, and whose room is not blocked.
abbrev pub is_fresh : Text → List BlockRow → DeliveryRow → Bool
is_fresh id blocks d =
    text_eq d.announcement_id id && d.status == 0 && is_absent d.sent_at && not (is_shut blocks d)

-- A row of the announcement that is due.
abbrev pub is_due_of : Text → ℕ → Database → DeliveryRow → Bool
is_due_of id t db d = text_eq d.announcement_id id && is_due t db d

-- A row of the announcement that has the instant of an attempt.
abbrev pub is_waiting_of : Text → DeliveryRow → Bool
is_waiting_of id d = text_eq d.announcement_id id && not (is_absent d.next_attempt_at)

module _ (input : ApproveInput) (now t : ℕ) (db : Database)
    (waits : any (is_awaiting input.announcement_id) db.announcements ≡ true)
    (none_waits : any (is_waiting_of input.announcement_id) db.deliveries ≡ false)
    (later : input.first_attempt_at ≤ t) where
  abbrev id : Text
  id = input.announcement_id

  abbrev after : Database
  after = record db {
    announcements = update_where (is_awaiting id) (approved_row input now) db.announcements;
    deliveries =
        update_where (is_unlocked id db.blocks) (unlocked input.first_attempt_at) db.deliveries;
  }

  after_lem : (approve_rows input now db).1 ≡ after
  unfolding approve_rows
  after_lem = rw waits refl

  there : any (is_approved id) after.announcements ≡ true
  there =
      any-update_where_hit (is_awaiting id) (is_approved id) (approved_row input now)
        db.announcements (becomes_approved input now) waits

  unlocked-due :
      (d : DeliveryRow)
      → is_unlocked id db.blocks d ≡ true
      → is_due_of id t after (unlocked input.first_attempt_at d) ≡ is_fresh id db.blocks d
  unfolding is_due is_unlocked
  unlocked-due d hit =
      let (same, _) = unlocked-parts id db.blocks d hit in
      rw (same, there, le→leb _ _ later) (ground (arith, hit))

  locked-due :
      (d : DeliveryRow)
      → is_unlocked id db.blocks d ≡ false
      → is_waiting_of id d ≡ false
      → is_due_of id t after d ≡ is_fresh id db.blocks d
  unfolding is_due is_unlocked
  locked-due d miss idle = elim (Option-cases d.next_attempt_at) [
    | inl e ↦ rw e (ground (arith, miss))
    | inr (at, e) ↦ (let idle' = rw e at idle in rw e (ground (arith, miss, idle')))
  ]

  -- Once an announcement is approved that waits for it, and none of whose rows has an instant yet,
  -- exactly as many of its rows are due, from the instant that was given on, as it has rows that are
  -- pending, not sent, and whose rooms are not blocked.
  pub approve_rows-is_due :
      count
        (is_due_of input.announcement_id t (approve_rows input now db).1)
        (approve_rows input now db).1.deliveries
      ≡ count (is_fresh input.announcement_id db.blocks) db.deliveries
  approve_rows-is_due = rw after_lem (
      count-update_where_exact (is_waiting_of id) (is_unlocked id db.blocks) (is_due_of id t after)
        (is_fresh id db.blocks) (unlocked input.first_attempt_at) db.deliveries none_waits
        (λ d idle. elim (Bool-cases (is_unlocked id db.blocks d)) [
          | inl hit ↦ rw hit (unlocked-due d hit)
          | inr miss ↦ rw miss (locked-due d miss idle)
        ]))
