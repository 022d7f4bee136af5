-- ===== src/Announcement/Store/Attempts.antt =====
-- What a statement does to the rows that may still come to a given attempt (src/announcements/store.ts).
use open_dilim.Prelude.{
  ℕ, ◌+◌, ◌≤◌, ◌<◌, ◌≡◌, refl, sym, ◌∙◌, subst, Bool, true, false, not, ◌&&◌, ◌||◌, Option, none,
  some, List, [], ◌∷◌, ◌++◌, arith, Bool-cases, Option-cases, inl, inr, any, count, count-append,
  count-any, append_assoc, append-nil, leb, ◌==◌, and_parts,
}
use open_dilim.Prelude.Update.{
  count-update_where, count-update_where_same, count-update_where_out, count-update_where_every,
  count-disjoint,
}
use open_dilim.Prelude.Text.{Text, text_eq, text_eq_iff}
use open_dilim.Announcement.Types.{
  AnnouncementRow, DeliveryRow, Database, DealerRoom, CreateAnnouncementInput, ClaimDeliveryInput,
  FailDeliveryInput, ApproveInput,
}
use open_dilim.Announcement.Store.{
  has_id, is_awaiting, is_pending, is_target, new_delivery, insert_target, insert_targets,
  has_distinct_ids, create, is_unlocked, unlocked, approve_rows, is_claimable, claimed, claim,
  marked_failed,
}
use open_dilim.Announcement.Store.Gate.{IsSound, IsGated}
use open_dilim.Announcement.Store.Targets.{has_distinct_ids-one}
use open_dilim.Announcement.Store.Rows.{has_row_id, claimable-expected, unlocked-parts}
use open_dilim.Announcement.Queries.{is_approved}
use open_dilim.Announcement.Store.Runs.{claiming, granted}

abbrev pub not_after : Option ℕ → ℕ → Bool
not_after none t = true
not_after (some u) t = leb u t

-- An announcement does not wait and stand approved.
both :
    (id : Text) (rows : List AnnouncementRow)
    → count (is_awaiting id) rows + count (is_approved id) rows ≤ count (has_id id) rows
both id rows =
    count-disjoint (is_awaiting id) (is_approved id) (has_id id) rows
      (λ a h. unfold is_awaiting in ground arith) (λ a h. ground arith)
      (λ a h. unfold is_awaiting in ground arith)

insert_targets-extra :
    (ids : ℕ → Text) (n : ℕ) (uuid : Text) (rooms : List DealerRoom) (rows : List DeliveryRow)
    → (extra : List DeliveryRow) × (insert_targets ids n uuid rooms rows ≡ rows ++ extra)
unfolding insert_targets insert_target
insert_targets-extra ids n uuid [] rows = ([], sym (append-nil rows))
insert_targets-extra ids n uuid (room ∷ rooms) rows =
    elim (Bool-cases (any (is_target uuid room) rows)) [
      | inl old ↦ rw old (insert_targets-extra ids (n + 1) uuid rooms rows)
      | inr new ↦
          let added = new_delivery (ids n) uuid room in
          let (extra, e) = insert_targets-extra ids (n + 1) uuid rooms (rows ++ added ∷ []) in
          rw new (added ∷ extra, e ∙ append_assoc rows (added ∷ []) extra)
    ]

module _ (id : Text) (t : ℕ) where
  -- The row may still come to the attempt.
  abbrev pub may_come : DeliveryRow → Bool
  may_come d = has_row_id id d && is_pending d && not_after d.next_attempt_at t

  claim_into :
      (input : ClaimDeliveryInput)
      → input.expected ≡ t
      → input.id ≡ id
      → (d : DeliveryRow) → is_claimable input d ≡ true
      → may_come d ≡ true
  unfolding is_claimable
  claim_into input at same d h =
      let (expected, waits) = claimable-expected input d h in
      let own : text_eq d.id input.id ≡ true = ground arith in
      let own' : text_eq d.id id ≡ true = subst (λ u. text_eq d.id u ≡ true) same own in
      rw (own', waits, expected, at) (ground arith)

  claim_out :
      (input : ClaimDeliveryInput)
      → t < input.next
      → (d : DeliveryRow) → may_come (claimed input d) ≡ false
  claim_out input later d = ground arith

  claim_keeps :
      (input : ClaimDeliveryInput)
      → input.expected < input.next
      → (d : DeliveryRow) → is_claimable input d ≡ true
      → may_come (claimed input d) ≡ true
      → may_come d ≡ true
  claim_keeps input later d h k =
      let (expected, waits) = claimable-expected input d h in rw expected (ground arith)

  pub claim_step :
      (input : ClaimDeliveryInput) (db : Database)
      → input.expected < input.next
      → granted id t (claiming input) db + count may_come (claim input db).1.deliveries
        ≤ count may_come db.deliveries
  unfolding granted claim
  claim_step input db later = elim (Bool-cases (text_eq input.id id && input.expected == t)) [
    | inl this ↦
        let (same, at) = and_parts (text_eq input.id id) (input.expected == t) this in
        let e : input.expected ≡ t = ground arith in
        let past : t < input.next = omega (arith, e, later) in
        rw (same, at)
          (ground (
            arith,
            count-update_where_out (is_claimable input) may_come (claimed input) db.deliveries
                (claim_into input e ((text_eq_iff input.id id).0 same))
                (λ d _. claim_out input past d),
            count-any (is_claimable input) db.deliveries,
          ))
    | inr other ↦ ground (
      arith,
      count-update_where (is_claimable input) may_come (claimed input) db.deliveries
          (claim_keeps input later),
    )
  ]

  unlock_keeps :
      (input : ApproveInput) (db : Database)
      → IsSound db
      → any (is_awaiting input.announcement_id) db.announcements ≡ true
      → (d : DeliveryRow) → IsGated db.announcements d
      → is_unlocked input.announcement_id db.blocks d ≡ true
      → may_come (unlocked input.first_attempt_at d) ≡ true
      → may_come d ≡ true
  unlock_keeps input db v waits d gate h k = elim (Option-cases d.next_attempt_at) [
    | inl e ↦ rw e (ground arith)
    | inr (u, e) ↦ absurd (
        let (same, _) = unlocked-parts input.announcement_id db.blocks d h in
        let there : any (is_approved input.announcement_id) db.announcements ≡ true =
          subst (λ i. any (is_approved i) db.announcements ≡ true) same (gate u e).0 in
        omega (
          arith,
          v.one_announcement input.announcement_id,
          count-any (is_awaiting input.announcement_id) db.announcements waits,
          count-any (is_approved input.announcement_id) db.announcements there,
          both input.announcement_id db.announcements,
        ))
  ]

  pub may_come-failed :
      (input : FailDeliveryInput) (d : DeliveryRow)
      → may_come (marked_failed input d) ≡ true
      → may_come d ≡ true
  may_come-failed input d h = ground arith

  append_new :
      (rows extra : List DeliveryRow)
      → 1 ≤ count (has_row_id id) rows
      → count (has_row_id id) (rows ++ extra) ≤ 1
      → count may_come (rows ++ extra) ≤ count may_come rows
  append_new rows extra there one =
      omega (
        arith,
        count-append may_come rows extra,
        count-append (has_row_id id) rows extra,
        few extra,
      )
    where
      few : (ds : List DeliveryRow) → count may_come ds ≤ count (has_row_id id) ds
      few [] = omega arith
      few (d ∷ ds) = ground (arith, few ds)

  pub create_step :
      (uuid : Text) (ids : ℕ → Text) (now : ℕ) (input : CreateAnnouncementInput) (db : Database)
      → 1 ≤ count (has_row_id id) db.deliveries
      → (count may_come (create uuid ids now input db).1.deliveries ≤ count may_come db.deliveries)
        × (1 ≤ count (has_row_id id) (create uuid ids now input db).1.deliveries)
  unfolding create
  create_step uuid ids now input db there =
      elim (Bool-cases (any (has_id uuid) db.announcements || not (has_distinct_ids rows))) [
        | inl broken ↦ rw broken (omega arith, there)
        | inr fine ↦
            let (extra, e) = insert_targets-extra ids 0 uuid input.rooms db.deliveries in
            let one = has_distinct_ids-one rows (ground arith) id in
            let one' = rw e at one in
            rw (fine, e)
              (
                append_new db.deliveries extra there one',
                omega (arith, count-append (has_row_id id) db.deliveries extra),
              )
      ]
    where
      rows : List DeliveryRow
      rows = insert_targets ids 0 uuid input.rooms db.deliveries

  pub approve_step :
      (input : ApproveInput) (now : ℕ) (db : Database)
      → IsSound db
      → 1 ≤ count (has_row_id id) db.deliveries
      → (count may_come (approve_rows input now db).1.deliveries ≤ count may_come db.deliveries)
        × (1 ≤ count (has_row_id id) (approve_rows input now db).1.deliveries)
  unfolding approve_rows
  approve_step input now db v there =
      elim (Bool-cases (any (is_awaiting input.announcement_id) db.announcements)) [
        | inr none_waits ↦ rw none_waits (omega arith, there)
        | inl waits ↦ rw waits (
          count-update_where_every (IsGated db.announcements)
              (is_unlocked input.announcement_id db.blocks) may_come
              (unlocked input.first_attempt_at) (unlock_keeps input db v waits) db.deliveries
              v.gated,
          omega (
            arith,
            count-update_where_same (is_unlocked input.announcement_id db.blocks) (has_row_id id)
                (unlocked input.first_attempt_at) db.deliveries (λ d. refl),
          ),
        )
      ]
