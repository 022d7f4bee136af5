-- ===== src/Announcement/Store/Rows.antt =====
-- What a statement does to one row of announcements (src/announcements/store.ts).
use open_dilim.Prelude.{ℕ, ◌≡◌, Option-cases, Bool, true, some, List, arith, inl, inr}
use open_dilim.Prelude.Text.{Text, text_eq, text_eq_iff}
use open_dilim.Announcement.Types.{
  AnnouncementRow, DeliveryRow, BlockRow, ClaimDeliveryInput, ApproveInput,
}
use open_dilim.Announcement.Store.{is_awaiting, is_pending, approved_row, is_unlocked, is_claimable}
use open_dilim.Announcement.Queries.{is_approved}

abbrev pub has_row_id : Text → DeliveryRow → Bool
has_row_id id d = text_eq d.id id

pub claimable-expected :
    (input : ClaimDeliveryInput) (d : DeliveryRow)
    → is_claimable input d ≡ true
    → (d.next_attempt_at ≡ some input.expected) × (is_pending d ≡ true)
unfolding is_claimable
claimable-expected input d h = elim (Option-cases d.next_attempt_at) [
  | inl e ↦ (let never = rw e at h in ground arith)
  | inr (t, e) ↦ (let h' = rw e at h in (rw e (ground arith), ground arith))
]

pub approved_stays :
    (a : AnnouncementRow) (id uuid : Text) (f : AnnouncementRow → AnnouncementRow)
    → is_awaiting id a ≡ true
    → is_approved uuid a ≡ true
    → is_approved uuid (f a) ≡ true
unfolding is_awaiting
approved_stays a id uuid f h k = ground arith

pub becomes_approved :
    (input : ApproveInput) (now : ℕ) (a : AnnouncementRow)
    → is_awaiting input.announcement_id a ≡ true
    → is_approved input.announcement_id (approved_row input now a) ≡ true
unfolding is_awaiting
becomes_approved input now a h = ground arith

pub unlocked-parts :
    (id : Text) (blocks : List BlockRow) (d : DeliveryRow)
    → is_unlocked id blocks d ≡ true
    → (d.announcement_id ≡ id) × (is_pending d ≡ true)
unfolding is_unlocked
unlocked-parts id blocks d h = ((text_eq_iff d.announcement_id id).0 (ground arith), ground arith)
