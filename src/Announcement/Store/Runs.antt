-- ===== src/Announcement/Store/Runs.antt =====
-- Every statement that any instance of the server sends to the tables of announcements, in the order
-- in which the database executes them (SqlAnnouncementStore of src/announcements/store.ts), and the
-- changes of the blocked rooms.
use open_dilim.Prelude.{ℕ, ◌+◌, ◌&&◌, List, [], ◌∷◌, ◌==◌, if◌then◌else◌}
use open_dilim.Prelude.Text.{Text, text_eq}
use open_dilim.Announcement.Types.{
  BlockRow, Database, CreateAnnouncementInput, ClaimDeliveryInput, FailDeliveryInput, ApproveInput,
  RejectInput,
}
use open_dilim.Announcement.Store.{create, approve_rows, reject, claim, mark_sent, mark_failed}

pub data Statement : Type 0 where
  creating : Text → (ℕ → Text) → ℕ → CreateAnnouncementInput → Statement
  approving : ApproveInput → ℕ → Statement
  rejecting : RejectInput → ℕ → Statement
  claiming : ClaimDeliveryInput → Statement
  marking_sent : Text → ℕ → Statement
  marking_failed : FailDeliveryInput → Statement
  blocking : List BlockRow → Statement

unfoldable pub execute : Statement → Database → Database
execute (creating uuid ids now input) db = (create uuid ids now input db).1
execute (approving input now) db = (approve_rows input now db).1
execute (rejecting input now) db = (reject input now db).1
execute (claiming input) db = (claim input db).1
execute (marking_sent id at) db = mark_sent id at db
execute (marking_failed input) db = mark_failed input db
execute (blocking blocks) db = record db { blocks = blocks }

unfoldable pub run : List Statement → Database → Database
unfolding execute
run [] db = db
run (s ∷ rest) db = run rest (execute s db)

-- How many of the statements are claims of one attempt that were granted.
unfoldable pub granted : Text → ℕ → Statement → Database → ℕ
granted id expected (claiming input) db =
    if text_eq input.id id && input.expected == expected && (claim input db).0 then 1 else 0
granted id expected _ db = 0

unfoldable pub grants : Text → ℕ → List Statement → Database → ℕ
unfolding granted execute
grants id expected [] db = 0
grants id expected (s ∷ rest) db = granted id expected s db + grants id expected rest (execute s db)
