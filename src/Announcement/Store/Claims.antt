-- ===== src/Announcement/Store/Claims.antt =====
-- An attempt to send is claimed once (claim of SqlAnnouncementStore, src/announcements/store.ts),
-- whatever statements the instances send in between.
use open_dilim.Prelude.{ℕ, ◌+◌, ◌≤◌, ◌<◌, refl, List, [], ◌∷◌, arith, count, All, zero_add_le}
use open_dilim.Prelude.Update.{count-update_where, count-update_where_same}
use open_dilim.Prelude.Text.{Text}
use open_dilim.Announcement.Types.{DeliveryRow, Database}
use open_dilim.Announcement.Store.{
  reject, is_claimable, claimed, claim, is_open, marked_sent, mark_sent, marked_failed, mark_failed,
}
use open_dilim.Announcement.Store.Gate.{IsSound, marked_failed-parts, execute-IsSound}
use open_dilim.Announcement.Store.Rows.{has_row_id}
use open_dilim.Announcement.Store.Runs.{
  Statement, creating, approving, rejecting, claiming, marking_sent, marking_failed, blocking,
  execute, granted, grants,
}
use open_dilim.Announcement.Store.Attempts.{
  may_come, claim_step, create_step, approve_step, may_come-failed,
}

-- A claim moves the row to a later instant, as the poller's do.
abbrev pub Advances : Statement → Type 0
Advances (claiming input) = input.expected < input.next
Advances _ = Unit {0}

module _ (id : Text) (t : ℕ) where
  abbrev Stays : Statement → Database → Type 0
  Stays s db =
      (granted id t s db + count (may_come id t) (execute s db).deliveries
        ≤ count (may_come id t) db.deliveries)
      × (1 ≤ count (has_row_id id) (execute s db).deliveries)

  execute-Stays :
      (s : Statement) (db : Database)
      → IsSound db
      → Advances s
      → 1 ≤ count (has_row_id id) db.deliveries
      → Stays s db
  unfolding execute granted
  execute-Stays (creating uuid ids now input) db v a there =
      let (few, still) = create_step id t uuid ids now input db there in (zero_add_le few, still)
  execute-Stays (approving input now) db v a there =
      let (few, still) = approve_step id t input now db v there in (zero_add_le few, still)
  execute-Stays (rejecting input now) db v a there = unfold reject in (omega arith, there)
  execute-Stays (claiming input) db v a there = (
    claim_step id t input db a,
    unfold claim in
        omega (
          arith,
          count-update_where_same (is_claimable input) (has_row_id id) (claimed input) db.deliveries
              (λ d. refl),
        ),
  )
  execute-Stays (marking_sent row at) db v a there =
      unfold mark_sent in
      (
        zero_add_le (
            count-update_where (is_open row) (may_come id t) (marked_sent at) db.deliveries
              (λ d _ h. ground arith)),
        omega (
          arith,
          count-update_where_same (is_open row) (has_row_id id) (marked_sent at) db.deliveries
              (λ d. refl),
        ),
      )
  execute-Stays (marking_failed input) db v a there =
      unfold mark_failed in
      (
        zero_add_le (
            count-update_where (is_open input.id) (may_come id t) (marked_failed input)
              db.deliveries (λ d _ h. may_come-failed id t input d h)),
        omega (
          arith,
          count-update_where_same (is_open input.id) (has_row_id id) (marked_failed input)
              db.deliveries (λ d. rw (marked_failed-parts db input d).0 refl),
        ),
      )
  execute-Stays (blocking blocks) db v a there = (omega arith, there)

  grants-le-may_come :
      (statements : List Statement) (db : Database)
      → IsSound db
      → 1 ≤ count (has_row_id id) db.deliveries
      → All Advances statements
      → grants id t statements db ≤ count (may_come id t) db.deliveries
  unfolding grants
  grants-le-may_come [] db v there h = omega arith
  grants-le-may_come (s ∷ rest) db v there (a, h) =
      let (few, still) = execute-Stays s db v a there in
      omega (arith, few, grants-le-may_come rest (execute s db) (execute-IsSound s db v) still h)

  may_come-le : (ds : List DeliveryRow) → count (may_come id t) ds ≤ count (has_row_id id) ds
  may_come-le [] = omega arith
  may_come-le (d ∷ ds) = ground (arith, may_come-le ds)

  -- In whatever order the instances send their statements, at most one of them is a granted claim of a
  -- given attempt at a given delivery, if the tables have their keys and the gate, the delivery is there,
  -- and every claim moves its row to a later instant.
  pub claims_le_one :
      (statements : List Statement) (db : Database)
      → IsSound db
      → 1 ≤ count (has_row_id id) db.deliveries
      → All Advances statements
      → grants id t statements db ≤ 1
  claims_le_one statements db v there h = omega (
    arith,
    grants-le-may_come statements db v there h,
    may_come-le db.deliveries,
    v.one_delivery id,
  )
