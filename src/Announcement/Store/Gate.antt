-- ===== src/Announcement/Store/Gate.antt =====
-- The gate of the approval: what every run of statements keeps.
use open_dilim.Prelude.{
  ℕ, ◌≤◌, ◌≡◌, refl, sym, subst, Bool, true, some, List, [], ◌∷◌, arith, Bool-cases, inl, inr,
  count, any, All,
}
use open_dilim.Prelude.Update.{
  update_where, count-update_where, count-append_new, any-append-left, any-update_where,
  any-update_where_hit, All-update_where, All-map,
}
use open_dilim.Prelude.Text.{Text}
use open_dilim.Announcement.Types.{
  AnnouncementRow, DeliveryRow, Database, DealerRoom, CreateAnnouncementInput, ClaimDeliveryInput,
  FailDeliveryInput, ApproveInput, RejectInput,
}
use open_dilim.Announcement.Store.{
  has_id, is_awaiting, is_pending, is_target, new_announcement, insert_targets, has_distinct_ids,
  create, approved_row, is_unlocked, unlocked, approve_rows, rejected_row, reject, is_claimable,
  claimed, claim, is_open, marked_sent, mark_sent, marked_failed, mark_failed,
}
use open_dilim.Announcement.Queries.{is_approved}
use open_dilim.Announcement.Store.Runs.{
  Statement, creating, approving, rejecting, claiming, marking_sent, marking_failed, blocking,
  execute, run,
}
use open_dilim.Announcement.Store.Rows.{
  has_row_id, claimable-expected, approved_stays, becomes_approved, unlocked-parts,
}
use open_dilim.Announcement.Store.Targets.{
  insert_targets-one, All-insert_targets, has_distinct_ids-one,
}

-- A row that waits for an attempt is pending, and its announcement is approved.
abbrev pub IsGated : List AnnouncementRow → DeliveryRow → Type 0
IsGated announcements d =
    (t : ℕ)
    → d.next_attempt_at ≡ some t
    → (any (is_approved d.announcement_id) announcements ≡ true) × (is_pending d ≡ true)

-- The keys of both tables, a room once for each announcement, and the gate.
pub record IsSound (db : Database) : Type 0 where
  pub one_announcement : (id : Text) → count (has_id id) db.announcements ≤ 1
  pub one_delivery : (id : Text) → count (has_row_id id) db.deliveries ≤ 1
  pub one_target : (uuid : Text) (room : DealerRoom) → count (is_target uuid room) db.deliveries ≤ 1
  pub gated : All (IsGated db.announcements) db.deliveries

-- An UPDATE of deliveries that keeps their keys and the gate.
deliveries-IsSound :
    (db : Database) (p : DeliveryRow → Bool) (f : DeliveryRow → DeliveryRow)
    → ((d : DeliveryRow) → (f d).id ≡ d.id)
    → ((uuid : Text) (room : DealerRoom) (d : DeliveryRow)
        → is_target uuid room (f d) ≡ is_target uuid room d)
    → ((d : DeliveryRow) → p d ≡ true → IsGated db.announcements d → IsGated db.announcements (f d))
    → IsSound db
    → IsSound (record db { deliveries = update_where p f db.deliveries })
deliveries-IsSound db p f ids targets gate v = record {
  one_announcement = v.one_announcement;
  one_delivery = λ id. omega (
    arith,
    count-update_where p (has_row_id id) f db.deliveries (λ d _ h. rw (ids d) at h),
    v.one_delivery id,
  );
  one_target = λ uuid room. omega (
    arith,
    count-update_where p (is_target uuid room) f db.deliveries
        (λ d _ h. rw (targets uuid room d) at h),
    v.one_target uuid room,
  );
  gated =
      All-update_where (IsGated db.announcements) (IsGated db.announcements) p f gate (λ d g. g)
        db.deliveries v.gated;
}

module _ (db : Database) where
  claim-IsSound : (input : ClaimDeliveryInput) → IsSound db → IsSound (claim input db).1
  unfolding claim is_claimable
  claim-IsSound input v =
      deliveries-IsSound db (is_claimable input) (claimed input) (λ d. refl) (λ uuid room d. refl)
        (λ d h g t e.
          let (expected, waits) = claimable-expected input d h in
          ((g input.expected expected).0, waits))
        v

  mark_sent-IsSound : (id : Text) (at : ℕ) → IsSound db → IsSound (mark_sent id at db)
  unfolding mark_sent
  mark_sent-IsSound id at v =
      deliveries-IsSound db (is_open id) (marked_sent at) (λ d. refl) (λ uuid room d. refl)
        (λ d h g t e. cc) v

  pub marked_failed-parts :
      (input : FailDeliveryInput) (d : DeliveryRow)
      → ((marked_failed input d).id ≡ d.id)
        × ((marked_failed input d).announcement_id ≡ d.announcement_id)
        × ((marked_failed input d).channel ≡ d.channel)
        × ((marked_failed input d).group_id ≡ d.group_id)
  marked_failed-parts input d = ground arith

  marked_failed-IsGated :
      (input : FailDeliveryInput) (d : DeliveryRow)
      → IsGated db.announcements d
      → IsGated db.announcements (marked_failed input d)
  marked_failed-IsGated input d g t e = elim (Bool-cases input.give_up) [
    | inl up ↦ (let never = rw up at e in cc)
    | inr on ↦ rw on (g t (rw on at e))
  ]

  mark_failed-IsSound : (input : FailDeliveryInput) → IsSound db → IsSound (mark_failed input db)
  unfolding mark_failed
  mark_failed-IsSound input v =
      deliveries-IsSound db (is_open input.id) (marked_failed input)
        (λ d. (marked_failed-parts input d).0)
        (λ uuid room d. let (_, a, c, g) = marked_failed-parts input d in rw (a, c, g) refl)
        (λ d h g. marked_failed-IsGated input d g) v

  reject-IsSound : (input : RejectInput) (now : ℕ) → IsSound db → IsSound (reject input now db).1
  unfolding reject
  reject-IsSound input now v = record {
    one_announcement = λ id. omega (
      arith,
      count-update_where (is_awaiting input.announcement_id) (has_id id) (rejected_row input now)
          db.announcements (λ a _ h. h),
      v.one_announcement id,
    );
    one_delivery = v.one_delivery;
    one_target = v.one_target;
    gated =
        All-map (IsGated db.announcements) (IsGated (reject input now db).1.announcements)
          (λ d g t e.
            let (there, waits) = g t e in
            (
              any-update_where (is_awaiting input.announcement_id) (is_approved d.announcement_id)
                  (rejected_row input now) db.announcements
                  (λ a h k.
                    approved_stays a input.announcement_id d.announcement_id
                      (rejected_row input now) h k)
                  there,
              waits,
            ))
          db.deliveries v.gated;
  }

  approve_rows-IsSound :
      (input : ApproveInput) (now : ℕ) → IsSound db → IsSound (approve_rows input now db).1
  unfolding approve_rows
  approve_rows-IsSound input now v =
      elim (Bool-cases (any (is_awaiting input.announcement_id) db.announcements)) [
        | inr none_left ↦ rw none_left v
        | inl there ↦ rw there (
            deliveries-IsSound
              (record db {
                announcements =
                    update_where (is_awaiting input.announcement_id) (approved_row input now)
                      db.announcements;
              })
              (is_unlocked input.announcement_id db.blocks) (unlocked input.first_attempt_at)
              (λ d. refl) (λ uuid room d. refl)
              (λ d h g t e.
                let (same, waits) = unlocked-parts input.announcement_id db.blocks d h in
                (
                  subst
                      (λ u.
                        any (is_approved u) (
                          update_where (is_awaiting input.announcement_id) (approved_row input now)
                            db.announcements)
                        ≡ true)
                      (sym same)
                      (any-update_where_hit (is_awaiting input.announcement_id)
                        (is_approved input.announcement_id) (approved_row input now)
                        db.announcements (becomes_approved input now) there),
                  waits,
                ))
              (record {
                one_announcement = λ id. omega (
                  arith,
                  count-update_where (is_awaiting input.announcement_id) (has_id id)
                      (approved_row input now) db.announcements (λ a _ h. h),
                  v.one_announcement id,
                );
                one_delivery = v.one_delivery;
                one_target = v.one_target;
                gated =
                    All-map (IsGated db.announcements) _
                      (λ d g t e.
                        let (was, waits) = g t e in
                        (
                          any-update_where (is_awaiting input.announcement_id)
                              (is_approved d.announcement_id) (approved_row input now)
                              db.announcements
                              (λ a h k.
                                approved_stays a input.announcement_id d.announcement_id
                                  (approved_row input now) h k)
                              was,
                          waits,
                        ))
                      db.deliveries v.gated;
              }))
      ]

create-IsSound :
    (uuid : Text) (ids : ℕ → Text) (now : ℕ) (input : CreateAnnouncementInput) (db : Database)
    → IsSound db
    → IsSound (create uuid ids now input db).1
unfolding create new_announcement
create-IsSound uuid ids now input db v = elim (Bool-cases (any (has_id uuid) db.announcements)) [
  | inl taken ↦ rw taken v
  | inr free ↦
      elim (Bool-cases (has_distinct_ids (insert_targets ids 0 uuid input.rooms db.deliveries))) [
        | inr clash ↦ rw (free, clash) v
        | inl apart ↦
            rw (free, apart)
              (record {
                one_announcement =
                    count-append_new (λ a. a.id) (new_announcement uuid now input) db.announcements
                      free v.one_announcement;
                one_delivery =
                    has_distinct_ids-one (insert_targets ids 0 uuid input.rooms db.deliveries)
                      apart;
                one_target = insert_targets-one ids 0 uuid input.rooms db.deliveries v.one_target;
                gated =
                    All-insert_targets _ ids 0 uuid (λ id room t e. cc) input.rooms db.deliveries
                      (All-map (IsGated db.announcements) _
                        (λ d g t e.
                          let (was, waits) = g t e in
                          (
                            any-append-left (is_approved d.announcement_id) db.announcements _ was,
                            waits,
                          ))
                        db.deliveries v.gated);
              })
      ]
]

pub execute-IsSound : (s : Statement) (db : Database) → IsSound db → IsSound (execute s db)
unfolding execute
execute-IsSound (creating uuid ids now input) db v = create-IsSound uuid ids now input db v
execute-IsSound (approving input now) db v = approve_rows-IsSound db input now v
execute-IsSound (rejecting input now) db v = reject-IsSound db input now v
execute-IsSound (claiming input) db v = claim-IsSound db input v
execute-IsSound (marking_sent id at) db v = mark_sent-IsSound db id at v
execute-IsSound (marking_failed input) db v = mark_failed-IsSound db input v
execute-IsSound (blocking blocks) db v = record {
  one_announcement = v.one_announcement;
  one_delivery = v.one_delivery;
  one_target = v.one_target;
  gated = v.gated;
}

-- Whatever run of statements is executed, in whatever order the instances send them, the tables keep
-- this: each announcement and each delivery has an id of its own, each room stands once at most for
-- each announcement, and a delivery that waits for an attempt is pending and its announcement is
-- approved.
pub run-IsSound :
    (statements : List Statement) (db : Database) → IsSound db → IsSound (run statements db)
unfolding run
run-IsSound [] db v = v
run-IsSound (s ∷ rest) db v = run-IsSound rest (execute s db) (execute-IsSound s db v)
