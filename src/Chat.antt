-- ===== src/Chat.antt =====
-- The types that every layer shares (src/types/index.ts, src/broadcast/types.ts, RoomRef of
-- src/workflows/types.ts). An optional property is an `Option`; a time is milliseconds since the
-- epoch.
pub mod Ports
pub mod Delivery
use open_dilim.Prelude.{ℕ, Bool, Option, List, ◌&&◌}
use open_dilim.Prelude.Text.{Text, text_eq}

pub record RoomRef : Type 0 where
  pub channel : Text
  pub group_id : Text

unfoldable pub same_room : RoomRef → RoomRef → Bool
same_room a b = text_eq a.channel b.channel && text_eq a.group_id b.group_id

pub data MessageSource : Type 0 where
  channel cron distill proactive : MessageSource

pub record Mention : Type 0 where
  pub uid : Text

pub record Envelope : Type 0 where
  pub source : MessageSource
  pub channel : Text
  pub msg_id : Text
  pub cli_msg_id : Option Text
  pub conversation_id : Text
  pub sender_id : Text
  pub sender_name : Option Text
  pub is_group : Bool
  pub addressed_to_agent : Bool
  pub intent_gate : Option Bool
  pub text : Text
  pub image_url : Option Text
  pub file_url : Option Text
  pub file_name : Option Text
  pub mentions : List Mention
  pub ts : ℕ

pub data HistoryRole : Type 0 where
  user agent : HistoryRole

pub record HistoryEntry : Type 0 where
  pub conversation_id : Text
  pub msg_id : Text
  pub sender_id : Text
  pub sender_name : Option Text
  pub text : Text
  pub image_url : Option Text
  pub file_url : Option Text
  pub file_name : Option Text
  pub is_group : Bool
  pub role : HistoryRole
  pub ts : ℕ

pub record BroadcastTarget : Type 0 where
  pub channel : Text
  pub conversation_id : Text
  pub is_group : Bool
  pub reply_to_sender_id : Text
  pub reply_to_sender_name : Option Text
