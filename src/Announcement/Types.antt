-- ===== src/Announcement/Types.antt =====
-- The data of announcements (src/announcements/types.ts, AnnouncementStatus and DeliveryStatus of
-- src/db/schema.ts, and the tables of migrations/0001_init.sql). A time is milliseconds since the
-- epoch. The texts and numbers of a row are what the driver hands over; columns that no code reads
-- are kept as far as a statement writes them.
use open_dilim.Prelude.{ℕ, Bool, Option, List}
use open_dilim.Prelude.Text.{Text, codes}

pub data AnnouncementKind : Type 0 where
  het_hang van_hanh : AnnouncementKind

unfoldable pub kind_text : AnnouncementKind → Text
kind_text het_hang = codes "het_hang"
kind_text van_hanh = codes "van_hanh"

-- The codes of AnnouncementStatus and of DeliveryStatus.
abbrev pub awaiting_approval : ℕ
awaiting_approval = 0

abbrev pub approved : ℕ
approved = 1

abbrev pub rejected : ℕ
rejected = 2

abbrev pub pending : ℕ
pending = 0

abbrev pub sent : ℕ
sent = 1

abbrev pub failed : ℕ
failed = 2

abbrev pub max_attempts : ℕ
max_attempts = 4

pub record AnnouncementRow : Type 0 where
  pub id : Text
  pub kind : Text
  pub text : Text
  pub status : ℕ
  pub created_by : Text
  pub origin_channel : Text
  pub origin_conversation : Text
  pub approved_by : Option Text
  pub approved_at : Option ℕ
  pub reject_reason : Option Text
  pub created_at : ℕ

pub record DeliveryRow : Type 0 where
  pub id : Text
  pub announcement_id : Text
  pub channel : Text
  pub group_id : Text
  pub customer_id : Text
  pub status : ℕ
  pub attempts : ℕ
  pub last_error : Option Text
  pub next_attempt_at : Option ℕ
  pub sent_at : Option ℕ

-- `group_block`, `group_map` and `user_binding`.
pub record BlockRow : Type 0 where
  pub channel : Text
  pub group_id : Text

pub record GroupRow : Type 0 where
  pub channel : Text
  pub group_id : Text
  pub customer_id : Text
  pub enabled : Bool
  pub updated_at : ℕ

pub record BindingRow : Type 0 where
  pub channel : Text
  pub sender_id : Text
  pub user_id : Text
  pub bound_at : ℕ
  pub revoked_at : Option ℕ

pub record Database : Type 0 where
  pub announcements : List AnnouncementRow
  pub deliveries : List DeliveryRow
  pub blocks : List BlockRow
  pub groups : List GroupRow
  pub bindings : List BindingRow

pub record DealerRoom : Type 0 where
  pub channel : Text
  pub group_id : Text
  pub customer_id : Text

pub record ApproverRoom : Type 0 where
  pub channel : Text
  pub conversation_id : Text

pub record AnnouncementDraft : Type 0 where
  pub id : Text
  pub text : Text
  pub author_sender_id : Text

pub record Delivery : Type 0 where
  pub id : Text
  pub announcement_id : Text
  pub channel : Text
  pub group_id : Text
  pub customer_id : Text
  pub text : Text
  pub attempts : ℕ
  pub next_attempt_at : Option ℕ

pub record FailedDelivery : Type 0 where
  pub group_id : Text
  pub customer_id : Text
  pub reason : Text

pub record AnnouncementStatus : Type 0 where
  pub announcement_id : Text
  pub state : ℕ
  pub total : ℕ
  pub sent : ℕ
  pub pending : ℕ
  pub failed : List FailedDelivery
  pub reject_reason : Option Text

pub record AwaitingApproval : Type 0 where
  pub announcement_id : Text
  pub kind : Text
  pub text : Text
  pub created_by : Text
  pub room_count : ℕ
  pub created_at : ℕ

pub record CreateAnnouncementInput : Type 0 where
  pub kind : AnnouncementKind
  pub text : Text
  pub created_by : Text
  pub origin : ApproverRoom
  pub rooms : List DealerRoom

pub record ClaimDeliveryInput : Type 0 where
  pub id : Text
  pub expected : ℕ
  pub next : ℕ

pub record FailDeliveryInput : Type 0 where
  pub id : Text
  pub reason : Text
  pub give_up : Bool

pub record ApproveInput : Type 0 where
  pub announcement_id : Text
  pub approved_by : Text
  pub first_attempt_at : ℕ

pub record RejectInput : Type 0 where
  pub announcement_id : Text
  pub rejected_by : Text
  pub reason : Text

pub data DraftOutcome : Type 0 where
  drafted : AnnouncementDraft → ℕ → DraftOutcome
  no_room : DraftOutcome
  too_long : ℕ → ℕ → DraftOutcome

pub data QueueOutcome : Type 0 where
  queued : Text → ℕ → QueueOutcome
  expired not_author no_rooms : QueueOutcome
  no_approver : Text → QueueOutcome

pub data DecisionOutcome : Type 0 where
  approved_for : ℕ → DecisionOutcome
  was_rejected not_found forbidden : DecisionOutcome
