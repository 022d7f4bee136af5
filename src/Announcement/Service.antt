-- ===== src/Announcement/Service.antt =====
-- The two ports of announcements, for the agent and for the approver (src/announcements/service.ts).
-- `uuid` and `ids` are what is drawn at random, and `others` is what other instances do to the tables
-- in between.
pub mod Queueing
pub mod Deciding
use open_dilim.Prelude.{
  ℕ, zero, suc, ◌+◌, ◌*◌, ◌-◌, Bool, true, false, not, ◌&&◌, ◌||◌, Option, none, some, List, [],
  ◌∷◌, ◌++◌, min, leb, ltb, ◌==◌, if◌then◌else◌, length, take,
}
use open_dilim.Prelude.Text.{Text, codes, text_eq, is_digit}
use open_dilim.Prelude.Decimal.{show}
use open_dilim.Task.{Task, Result, ok, thrown, ◌>>=◌, ◌>>◌, pure, ignore_failure}
use open_dilim.Chat.{BroadcastTarget}
use open_dilim.Chat.Ports.{send}
use open_dilim.Broadcast.Limits.{limit_for_channel}
use open_dilim.Announcement.Types.{
  Database, DealerRoom, ApproverRoom, CreateAnnouncementInput, ApproveInput, RejectInput,
  AnnouncementKind, het_hang, van_hanh, AnnouncementDraft, AnnouncementStatus, AwaitingApproval,
  DraftOutcome, drafted, no_room, too_long, QueueOutcome, queued, expired, not_author, no_rooms,
  no_approver, DecisionOutcome, approved_for, was_rejected, not_found, forbidden,
}
use open_dilim.Announcement.Store.{create, approve, reject}
use open_dilim.Announcement.Queries.{
  all_enabled, room_of, origin_of, status, latest_by, list_awaiting,
}
use open_dilim.Announcement.Drafts.{
  World, statement, update, query, on_bus, others_run, put, take_draft,
}
use open_dilim.Announcement.Notices.{
  asker_label, is_hex, hex_run, dash, at_end, is_announcement_id, strictest_limit, Config,
  line_break, join_lines, approval_text, room_target, notify_approver, tell_origin, notify_origin,
}

abbrev pub draft_ttl_sec : ℕ
draft_ttl_sec = 10 * 60

abbrev pub draft_id_length : ℕ
draft_id_length = 8

abbrev pub awaiting_limit : ℕ
awaiting_limit = 10

abbrev pub all_rooms : Config → Task World (List DealerRoom)
all_rooms config = query (codes "allEnabled") (all_enabled config.collate)

module _ (text author_sender_id uuid : Text) where
  abbrev new_draft : AnnouncementDraft
  new_draft = record {
    id = take draft_id_length uuid;
    text = text;
    author_sender_id = author_sender_id;
  }

  unfoldable pub draft_for : List DealerRoom → Task World DraftOutcome
  unfolding strictest_limit
  draft_for [] = pure no_room
  draft_for (room ∷ rooms) =
      if ltb (strictest_limit room rooms) (length text)
      then pure (too_long (strictest_limit room rooms) (length text))
      else do put new_draft draft_ttl_sec; pure (drafted new_draft (length (room ∷ rooms)))

  -- `uuid` is without its dashes.
  unfoldable pub draft : Config → Task World DraftOutcome
  unfolding draft_for all_enabled
  draft config = do rooms ← all_rooms config; draft_for rooms

pub record QueueInput : Type 0 where
  pub draft_id : Text
  pub kind : AnnouncementKind
  pub sender_id : Text
  pub origin : ApproverRoom

abbrev pub creation : QueueInput → AnnouncementDraft → List DealerRoom → CreateAnnouncementInput
creation input draft' rooms = record {
  kind = input.kind;
  text = draft'.text;
  created_by = input.sender_id;
  origin = input.origin;
  rooms = rooms;
}

abbrev pub not_configured : Text
not_configured = codes "hệ thống chưa cấu hình người duyệt phát tin"

abbrev pub not_connected : Text
not_connected =
    codes "người duyệt chưa nối tài khoản trên kênh vận hành nên hệ thống không nhắn được"

pub data Approver : Type 0 where
  room : ApproverRoom → Approver
  missing : Text → Approver

abbrev pub room_or_missing : Option ApproverRoom → Approver
room_or_missing none = missing not_connected
room_or_missing (some found) = room found

abbrev pub approver_of : Text → Option Text → Task World Approver
approver_of channel none = pure (missing not_configured)
approver_of channel (some user_id) = do
  found ← query (codes "roomOf") (room_of channel user_id)
  pure (room_or_missing found)

unfoldable pub resolve_approver : Config → Task World Approver
unfolding room_of
resolve_approver config = approver_of config.approver_channel config.approver_user_id

module _ (config : Config) (input : QueueInput) (uuid : Text) (ids : ℕ → Text)
    (others : Database → Database) where
  unfoldable pub write_announcement : AnnouncementDraft → List DealerRoom → Task World Text
  unfolding create
  write_announcement draft' rooms w =
      statement (codes "create") (create uuid ids w.bus.clock (creation input draft' rooms)) w

  -- The rooms are asked for again, and `others` may run before the announcement is written.
  unfoldable pub queue_for :
      ApproverRoom → AnnouncementDraft → List DealerRoom → Task World QueueOutcome
  unfolding write_announcement notify_approver
  queue_for approver draft' [] = pure no_rooms
  queue_for approver draft' (first ∷ rest) = do
    others_run others
    announcement_id ← write_announcement draft' (first ∷ rest)
    ignore_failure
        (notify_approver approver announcement_id draft'.text (length (first ∷ rest)) input.kind)
    pure (queued announcement_id (length (first ∷ rest)))

  unfoldable pub queue_draft : ApproverRoom → Option AnnouncementDraft → Task World QueueOutcome
  unfolding queue_for all_enabled
  queue_draft approver none = pure expired
  queue_draft approver (some draft') =
      if text_eq draft'.author_sender_id input.sender_id
      then (do rooms ← all_rooms config; queue_for approver draft' rooms)
      else pure not_author

  unfoldable pub queue_with : Approver → Task World QueueOutcome
  unfolding queue_draft take_draft
  queue_with (missing detail) = pure (no_approver detail)
  queue_with (room approver) = do draft' ← take_draft input.draft_id; queue_draft approver draft'

  -- The approver is looked up before the draft is taken.
  unfoldable pub queue : Task World QueueOutcome
  unfolding queue_with resolve_approver
  queue = do approver ← resolve_approver config; queue_with approver

abbrev pub or_latest : Text → Option Text → Task World (Option Text)
or_latest sender_id (some id) = pure (some id)
or_latest sender_id none = query (codes "latestBy") (latest_by sender_id)

abbrev pub status_by_id : Option Text → Task World (Option AnnouncementStatus)
status_by_id none = pure none
status_by_id (some id) =
    if is_announcement_id id then query (codes "status") (status id) else pure none

unfoldable pub status_of : Text → Option Text → Task World (Option AnnouncementStatus)
unfolding is_announcement_id status latest_by
status_of sender_id announcement_id = do id ← or_latest sender_id announcement_id; status_by_id id

-- Not configured: nobody is.
abbrev pub is_user : Option Text → Text → Bool
is_user none user_id = false
is_user (some approver) user_id = text_eq approver user_id

unfoldable pub is_approver : Config → Text → Bool
is_approver config user_id = is_user config.approver_user_id user_id

unfoldable pub tell_approved : Text → Option ℕ → Task World DecisionOutcome
unfolding notify_origin
tell_approved announcement_id none = pure not_found
tell_approved announcement_id (some room_count) = do
  notify_origin announcement_id (
      codes "Thông báo đã được duyệt. Hệ thống đang gửi tới "
      ++ show room_count
      ++ codes " nhóm đại lý.")
  pure (approved_for room_count)

unfoldable pub tell_rejected : Text → Text → Bool → Task World DecisionOutcome
unfolding notify_origin
tell_rejected announcement_id reason false = pure not_found
tell_rejected announcement_id reason true = do
  notify_origin announcement_id (
      codes "Thông báo KHÔNG được duyệt: "
      ++ reason
      ++ codes ". Không nhóm đại lý nào nhận được tin này.")
  pure was_rejected

module _ (announcement_id user_id : Text) where
  abbrev pub approval : ℕ → ApproveInput
  approval now_ms = record {
    announcement_id = announcement_id;
    approved_by = user_id;
    first_attempt_at = now_ms;
  }

  abbrev pub rejection : Text → RejectInput
  rejection reason = record {
    announcement_id = announcement_id;
    rejected_by = user_id;
    reason = reason;
  }

  unfoldable pub record_approval : ℕ → (Database → Database) → Task World (Option ℕ)
  unfolding approve
  record_approval now_ms others w =
      update (codes "approve") (approve (approval now_ms) w.bus.clock others) w

  unfoldable pub approve_for : Config → ℕ → (Database → Database) → Task World DecisionOutcome
  unfolding is_approver is_announcement_id record_approval tell_approved
  approve_for config now_ms others =
      if not (is_approver config user_id)
      then pure forbidden
      else if not (is_announcement_id announcement_id)
      then pure not_found
      else do room_count ← record_approval now_ms others; tell_approved announcement_id room_count

  unfoldable pub record_rejection : Text → Task World Bool
  unfolding reject
  record_rejection reason w = update (codes "reject") (reject (rejection reason) w.bus.clock) w

  unfoldable pub reject_for : Config → Text → Task World DecisionOutcome
  unfolding is_approver is_announcement_id record_rejection tell_rejected
  reject_for config reason =
      if not (is_approver config user_id)
      then pure forbidden
      else if not (is_announcement_id announcement_id)
      then pure not_found
      else do done ← record_rejection reason; tell_rejected announcement_id reason done

unfoldable pub awaiting : Config → Text → Task World (List AwaitingApproval)
unfolding is_approver list_awaiting
awaiting config user_id =
    if is_approver config user_id
    then query (codes "listAwaiting") (list_awaiting awaiting_limit)
    else pure []
