-- ===== src/Announcement/Store.antt =====
-- The statements that write to the tables of announcements (SqlAnnouncementStore of
-- src/announcements/store.ts, with the constraints of migrations/0001_init.sql). A table is the list
-- of its rows in insertion order; a statement is one atomic step; `now` is the database's clock, and
-- `uuid` and `ids` are what its gen_random_uuid() returns for the announcement and for the n-th row.
pub mod Runs
pub mod Rows
pub mod Targets
pub mod Gate
pub mod Attempts
pub mod Claims
use open_dilim.Prelude.{
  ℕ, ◌+◌, Bool, true, false, not, ◌&&◌, ◌||◌, Option, none, some, List, [], ◌∷◌, ◌++◌, ◌==◌,
  if◌then◌else◌, length, any, count, drop,
}
use open_dilim.Prelude.Update.{update_where}
use open_dilim.Prelude.Text.{Text, codes, text_eq, is_empty}
use open_dilim.Task.{Result, ok, thrown, unique_violation, error}
use open_dilim.Announcement.Types.{
  AnnouncementRow, DeliveryRow, BlockRow, Database, DealerRoom, CreateAnnouncementInput,
  ClaimDeliveryInput, FailDeliveryInput, ApproveInput, RejectInput, kind_text, awaiting_approval,
  approved, rejected, pending, sent, failed,
}

abbrev pub has_id : Text → AnnouncementRow → Bool
has_id id a = text_eq a.id id

-- Ids are compared as texts; for Postgres they are UUIDs, the same in upper and lower case.
unfoldable pub is_awaiting : Text → AnnouncementRow → Bool
is_awaiting id a = text_eq a.id id && a.status == awaiting_approval

abbrev pub is_pending : DeliveryRow → Bool
is_pending d = d.status == pending

unfoldable pub new_announcement : Text → ℕ → CreateAnnouncementInput → AnnouncementRow
unfolding kind_text
new_announcement uuid now input = record {
  id = uuid;
  kind = kind_text input.kind;
  text = input.text;
  status = awaiting_approval;
  created_by = input.created_by;
  origin_channel = input.origin.channel;
  origin_conversation = input.origin.conversation_id;
  approved_by = none;
  approved_at = none;
  reject_reason = none;
  created_at = now;
}

-- `next_attempt_at` is left out, and only `approve` sets it.
abbrev pub new_delivery : Text → Text → DealerRoom → DeliveryRow
new_delivery id uuid room = record {
  id = id;
  announcement_id = uuid;
  channel = room.channel;
  group_id = room.group_id;
  customer_id = room.customer_id;
  status = pending;
  attempts = 0;
  last_error = none;
  next_attempt_at = none;
  sent_at = none;
}

-- The unique index (announcement_id, channel, group_id).
abbrev pub is_target : Text → DealerRoom → DeliveryRow → Bool
is_target uuid room d =
    text_eq d.announcement_id uuid
    && text_eq d.channel room.channel
    && text_eq d.group_id room.group_id

-- ON CONFLICT … DO NOTHING, row by row.
unfoldable pub insert_target : Text → Text → DealerRoom → List DeliveryRow → List DeliveryRow
insert_target id uuid room rows =
    if any (is_target uuid room) rows then rows else rows ++ new_delivery id uuid room ∷ []

unfoldable pub insert_targets :
    (ℕ → Text) → ℕ → Text → List DealerRoom → List DeliveryRow → List DeliveryRow
unfolding insert_target
insert_targets ids n uuid [] rows = rows
insert_targets ids n uuid (room ∷ rooms) rows =
    insert_targets ids (n + 1) uuid rooms (insert_target (ids n) uuid room rows)

-- The primary key of the deliveries.
unfoldable pub has_distinct_ids : List DeliveryRow → Bool
has_distinct_ids [] = true
has_distinct_ids (d ∷ ds) = not (any (λ e. text_eq e.id d.id) ds) && has_distinct_ids ds

abbrev no_id : Text
no_id = codes "[announcements] tạo đợt phát xong nhưng không đọc được announcement_id"

-- What RETURNING says of the rows that were inserted.
abbrev pub created_id : List DeliveryRow → Result Text
created_id [] = thrown (error no_id)
created_id (d ∷ _) =
    if is_empty d.announcement_id then thrown (error no_id) else ok d.announcement_id

unfoldable pub create :
    Text → (ℕ → Text) → ℕ → CreateAnnouncementInput → Database → Result Text × Database
unfolding insert_targets has_distinct_ids new_announcement
create uuid ids now input db =
    let rows = insert_targets ids 0 uuid input.rooms db.deliveries in
    if any (has_id uuid) db.announcements || not (has_distinct_ids rows)
    then (thrown unique_violation, db)
    else (
      created_id (drop (length db.deliveries) rows),
      record db {
        announcements = db.announcements ++ new_announcement uuid now input ∷ [];
        deliveries = rows;
      },
    )

abbrev pub state_of_row : List AnnouncementRow → Text → Option ℕ
state_of_row [] id = none
state_of_row (a ∷ rest) id = if text_eq a.id id then some a.status else state_of_row rest id

unfoldable pub state_of : Text → Database → Option ℕ
state_of id db = state_of_row db.announcements id

abbrev pub approved_row : ApproveInput → ℕ → AnnouncementRow → AnnouncementRow
approved_row input now a = record a {
  status = approved;
  approved_by = some input.approved_by;
  approved_at = some now;
}

abbrev is_blocked_by : DeliveryRow → BlockRow → Bool
is_blocked_by d b = text_eq b.channel d.channel && text_eq b.group_id d.group_id

-- The rows that an approval unlocks.
unfoldable pub is_unlocked : Text → List BlockRow → DeliveryRow → Bool
is_unlocked id blocks d =
    text_eq d.announcement_id id && is_pending d && not (any (is_blocked_by d) blocks)

abbrev pub unlocked : ℕ → DeliveryRow → DeliveryRow
unlocked first d = record d { next_attempt_at = some first }

-- The CTE and the UPDATE that joins it, in one statement: how many rows it unlocked.
unfoldable pub approve_rows : ApproveInput → ℕ → Database → ℕ × Database
unfolding is_awaiting is_unlocked update_where
approve_rows input now db =
    if any (is_awaiting input.announcement_id) db.announcements
    then (
      count (is_unlocked input.announcement_id db.blocks) db.deliveries,
      record db {
        announcements =
            update_where (is_awaiting input.announcement_id) (approved_row input now)
              db.announcements;
        deliveries =
            update_where (is_unlocked input.announcement_id db.blocks)
              (unlocked input.first_attempt_at) db.deliveries;
      },
    )
    else (0, db)

-- No row: the state is asked for in a second query.
abbrev pub zero_if_approved : Option ℕ → Option ℕ
zero_if_approved none = none
zero_if_approved (some status) = if status == approved then some 0 else none

-- `others` is what other instances do between the two queries. Neither fails without the other.
unfoldable pub approve : ApproveInput → ℕ → (Database → Database) → Database → Option ℕ × Database
unfolding approve_rows state_of
approve input now others db =
    let (n, db') = approve_rows input now db in
    if n == 0
    then (zero_if_approved (state_of input.announcement_id (others db')), others db')
    else (some n, db')

abbrev pub rejected_row : RejectInput → ℕ → AnnouncementRow → AnnouncementRow
rejected_row input now a = record a {
  status = rejected;
  approved_by = some input.rejected_by;
  approved_at = some now;
  reject_reason = some input.reason;
}

unfoldable pub reject : RejectInput → ℕ → Database → Bool × Database
unfolding is_awaiting update_where
reject input now db = (
  any (is_awaiting input.announcement_id) db.announcements,
  record db {
    announcements =
        update_where (is_awaiting input.announcement_id) (rejected_row input now) db.announcements;
  },
)

abbrev instant_is : Option ℕ → ℕ → Bool
instant_is none t = false
instant_is (some u) t = u == t

unfoldable pub is_claimable : ClaimDeliveryInput → DeliveryRow → Bool
is_claimable input d =
    text_eq d.id input.id && is_pending d && instant_is d.next_attempt_at input.expected

abbrev pub claimed : ClaimDeliveryInput → DeliveryRow → DeliveryRow
claimed input d = record d { next_attempt_at = some input.next; attempts = d.attempts + 1 }

-- Compare and swap on `next_attempt_at`.
unfoldable pub claim : ClaimDeliveryInput → Database → Bool × Database
unfolding is_claimable update_where
claim input db = (
  any (is_claimable input) db.deliveries,
  record db { deliveries = update_where (is_claimable input) (claimed input) db.deliveries },
)

unfoldable pub is_open : Text → DeliveryRow → Bool
is_open id d = text_eq d.id id && is_pending d

abbrev pub marked_sent : ℕ → DeliveryRow → DeliveryRow
marked_sent sent_at d = record d {
  status = sent;
  sent_at = some sent_at;
  next_attempt_at = none;
  last_error = none;
}

unfoldable pub mark_sent : Text → ℕ → Database → Database
unfolding is_open update_where
mark_sent id sent_at db = record db {
  deliveries = update_where (is_open id) (marked_sent sent_at) db.deliveries;
}

-- Given up, or kept pending with the instant that the claim has set.
abbrev pub marked_failed : FailDeliveryInput → DeliveryRow → DeliveryRow
marked_failed input d =
    if input.give_up
    then record d { status = failed; last_error = some input.reason; next_attempt_at = none }
    else record d { last_error = some input.reason }

unfoldable pub mark_failed : FailDeliveryInput → Database → Database
unfolding is_open update_where
mark_failed input db = record db {
  deliveries = update_where (is_open input.id) (marked_failed input) db.deliveries;
}
