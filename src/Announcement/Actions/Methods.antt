-- ===== src/Announcement/Actions/Methods.antt =====
-- The methods of the store as tasks (src/announcements/store.ts, src/announcements/drafts.ts).
use open_dilim.Announcement.Actions.Calculus.{Only, RefinesTask}
use open_dilim.Prelude.{ℕ, ◌≡◌, refl, List, [], ◌∷◌, Bool-cases, inl, inr, All, ◌==◌}
use open_dilim.Prelude.Text.{Text}
use open_dilim.Announcement.Types.{Database, ApproveInput, AnnouncementDraft}
use open_dilim.Announcement.Store.{
  create, approve, approve_rows, reject, claim, mark_sent, mark_failed,
}
use open_dilim.Announcement.Store.Runs.{
  Statement, creating, approving, rejecting, claiming, marking_sent, marking_failed, execute, run,
}
use open_dilim.Announcement.Drafts.{put, take_draft}

module _ {A : ApproveInput → Type 0} where
  pub create-Refines :
      (uuid : Text) (ids : ℕ → Text) (now : ℕ) (input : _) (db : Database)
      → (ss : List Statement) × All (Only A) ss × ((create uuid ids now input db).1 ≡ run ss db)
  unfolding run execute
  create-Refines uuid ids now input db = (creating uuid ids now input ∷ [], (tt, tt), refl)

  pub approve-Refines :
      (input : ApproveInput) (now : ℕ) (others : List Statement) (db : Database)
      → A input
      → All (Only A) others
      → (ss : List Statement) × All (Only A) ss
        × ((approve input now (run others) db).1 ≡ run ss db)
  unfolding approve run execute
  approve-Refines input now others db a o = elim (Bool-cases ((approve_rows input now db).0 == 0)) [
    | inl zero_rows ↦ rw zero_rows (approving input now ∷ others, (a, o), refl)
    | inr some_rows ↦ rw some_rows (approving input now ∷ [], (a, tt), refl)
  ]

  pub reject-Refines :
      (input : _) (now : ℕ) (db : Database)
      → (ss : List Statement) × All (Only A) ss × ((reject input now db).1 ≡ run ss db)
  unfolding run execute
  reject-Refines input now db = (rejecting input now ∷ [], (tt, tt), refl)

  pub claim-Refines :
      (input : _) (db : Database)
      → (ss : List Statement) × All (Only A) ss × ((claim input db).1 ≡ run ss db)
  unfolding run execute
  claim-Refines input db = (claiming input ∷ [], (tt, tt), refl)

  pub mark_sent-Refines :
      (id : Text) (at : ℕ) (db : Database)
      → (ss : List Statement) × All (Only A) ss × (mark_sent id at db ≡ run ss db)
  unfolding run execute
  mark_sent-Refines id at db = (marking_sent id at ∷ [], (tt, tt), refl)

  pub mark_failed-Refines :
      (input : _) (db : Database)
      → (ss : List Statement) × All (Only A) ss × (mark_failed input db ≡ run ss db)
  unfolding run execute
  mark_failed-Refines input db = (marking_failed input ∷ [], (tt, tt), refl)

  pub put-Refines : (d : AnnouncementDraft) (ttl : ℕ) → RefinesTask A (put d ttl)
  unfolding put run
  put-Refines d ttl = record {
    apply = λ w. elim (Bool-cases w.redis_down) [
      | inl down ↦ rw down ([], tt, refl)
      | inr up ↦ rw up ([], tt, refl)
    ];
  }

  pub take_draft-Refines : (id : Text) → RefinesTask A (take_draft id)
  unfolding take_draft run
  take_draft-Refines id = record {
    apply = λ w. elim (Bool-cases w.redis_down) [
      | inl down ↦ rw down ([], tt, refl)
      | inr up ↦ rw up ([], tt, refl)
    ];
  }
