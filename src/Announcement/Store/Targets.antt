-- ===== src/Announcement/Store/Targets.antt =====
-- The rows that `create` inserts for the rooms of an announcement (src/announcements/store.ts).
use open_dilim.Prelude.{
  ℕ, ◌+◌, ◌≤◌, ◌≡◌, true, false, List, [], ◌∷◌, arith, Bool-cases, inl, inr, count, any,
  count-append, any-count, All, All-append,
}
use open_dilim.Prelude.Text.{Text, text_eq, text_eq_iff}
use open_dilim.Announcement.Types.{DeliveryRow, DealerRoom}
use open_dilim.Announcement.Store.{
  is_target, new_delivery, insert_target, insert_targets, has_distinct_ids,
}
use open_dilim.Announcement.Store.Rows.{has_row_id}

-- Inserting the rows of an announcement.
pub insert_target-one :
    (id uuid : Text) (room : DealerRoom) (rows : List DeliveryRow)
    → ((u : Text) (r : DealerRoom) → count (is_target u r) rows ≤ 1)
    → (u : Text) (r : DealerRoom) → count (is_target u r) (insert_target id uuid room rows) ≤ 1
unfolding insert_target
insert_target-one id uuid room rows one u r = elim (Bool-cases (any (is_target uuid room) rows)) [
  | inl old ↦ rw old (one u r)
  | inr new ↦
      rw (new, count-append (is_target u r) rows (new_delivery id uuid room ∷ []))
        elim (Bool-cases (is_target u r (new_delivery id uuid room))) [
          | inr other ↦ rw other (omega (arith, one u r))
          | inl same ↦
              rw (same, any-count (is_target u r) rows (same_target u r same new)) (omega arith)
        ]
]
  where
    same_target :
        (u' : Text) (r' : DealerRoom)
        → is_target u' r' (new_delivery id uuid room) ≡ true
        → any (is_target uuid room) rows ≡ false
        → any (is_target u' r') rows ≡ false
    same_target u' r' same new =
        let a : uuid ≡ u' = (text_eq_iff uuid u').0 (ground arith) in
        let b : room.channel ≡ r'.channel =
          (text_eq_iff room.channel r'.channel).0 (ground arith) in
        let c : room.group_id ≡ r'.group_id =
          (text_eq_iff room.group_id r'.group_id).0 (ground arith) in
        rw (← a, ← b, ← c) new

pub insert_targets-one :
    (ids : ℕ → Text) (n : ℕ) (uuid : Text) (rooms : List DealerRoom) (rows : List DeliveryRow)
    → ((u : Text) (r : DealerRoom) → count (is_target u r) rows ≤ 1)
    → (u : Text) (r : DealerRoom) → count (is_target u r) (insert_targets ids n uuid rooms rows) ≤ 1
unfolding insert_targets
insert_targets-one ids n uuid [] rows one = one
insert_targets-one ids n uuid (room ∷ rooms) rows one =
    insert_targets-one ids (n + 1) uuid rooms (insert_target (ids n) uuid room rows)
      (insert_target-one (ids n) uuid room rows one)

-- What holds of the rows before, and of a row that is new.
pub All-insert_targets {κ} :
    (P : DeliveryRow → Type κ) (ids : ℕ → Text) (n : ℕ) (uuid : Text)
    → ((id : Text) (room : DealerRoom) → P (new_delivery id uuid room))
    → (rooms : List DealerRoom) (rows : List DeliveryRow) → All P rows
    → All P (insert_targets ids n uuid rooms rows)
unfolding insert_targets insert_target
All-insert_targets P ids n uuid new [] rows h = h
All-insert_targets P ids n uuid new (room ∷ rooms) rows h =
    All-insert_targets P ids (n + 1) uuid new rooms (insert_target (ids n) uuid room rows)
      elim (Bool-cases (any (is_target uuid room) rows)) [
        | inl old ↦ rw old h
        | inr fresh ↦
            rw fresh
              (All-append P rows (new_delivery (ids n) uuid room ∷ []) h (new (ids n) room, tt))
      ]

pub has_distinct_ids-one :
    (rows : List DeliveryRow)
    → has_distinct_ids rows ≡ true
    → (id : Text) → count (has_row_id id) rows ≤ 1
unfolding has_distinct_ids
has_distinct_ids-one [] h id = omega arith
has_distinct_ids-one (d ∷ ds) h id = elim (Bool-cases (text_eq d.id id)) [
  | inr other ↦ rw other (has_distinct_ids-one ds (ground arith) id)
  | inl same ↦
      let e : d.id ≡ id = (text_eq_iff d.id id).0 same in
      let apart : any (has_row_id d.id) ds ≡ false = ground arith in
      rw (same, any-count (has_row_id id) ds (rw e at apart)) (omega arith)
]
