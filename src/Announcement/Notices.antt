-- ===== src/Announcement/Notices.antt =====
-- What the service of announcements tells whom, and how it reads an id (src/announcements/service.ts).
use open_dilim.Prelude.{
  ℕ, zero, suc, Bool, true, false, ◌&&◌, ◌||◌, Option, none, some, List, [], ◌∷◌, ◌++◌, min, leb,
  ◌==◌,
}
use open_dilim.Prelude.Text.{Text, codes, is_digit}
use open_dilim.Prelude.Decimal.{show}
use open_dilim.Task.{Task, ◌>>=◌, pure, ignore_failure}
use open_dilim.Chat.{BroadcastTarget}
use open_dilim.Chat.Ports.{send}
use open_dilim.Broadcast.Limits.{limit_for_channel}
use open_dilim.Announcement.Types.{DealerRoom, ApproverRoom, AnnouncementKind, het_hang, van_hanh}
use open_dilim.Announcement.Queries.{origin_of}
use open_dilim.Announcement.Drafts.{World, query, on_bus}

abbrev pub asker_label : AnnouncementKind → Text
asker_label het_hang = codes "Kho"
asker_label van_hanh = codes "Vận hành"

-- Hexadecimal digits of either case.
abbrev pub is_hex : ℕ → Bool
unfolding is_digit
is_hex c = is_digit c || (leb b'a' c && leb c b'f') || (leb b'A' c && leb c b'F')

-- So many digits, and then the rest.
pub hex_run : ℕ → (Text → Bool) → Text → Bool
unfolding is_digit
hex_run zero rest s = rest s
hex_run (suc n) rest [] = false
hex_run (suc n) rest (c ∷ s) = is_hex c && hex_run n rest s

abbrev pub dash : (Text → Bool) → Text → Bool
dash rest [] = false
dash rest (c ∷ s) = c == b'-' && rest s

abbrev pub at_end : Text → Bool
at_end [] = true
at_end (_ ∷ _) = false

-- ANNOUNCEMENT_ID_PATTERN.
unfoldable pub is_announcement_id : Text → Bool
unfolding hex_run
is_announcement_id =
    hex_run 8 (dash (hex_run 4 (dash (hex_run 4 (dash (hex_run 4 (dash (hex_run 12 at_end))))))))

-- The least limit of the channels; no room has been refused before.
unfoldable pub strictest_limit : DealerRoom → List DealerRoom → ℕ
unfolding limit_for_channel
strictest_limit room [] = limit_for_channel room.channel
strictest_limit room (next ∷ rooms) =
    min (limit_for_channel room.channel) (strictest_limit next rooms)

pub record Config : Type 0 where
  pub approver_user_id : Option Text
  pub approver_channel : Text
  pub collate : Text → Text → Bool

abbrev pub line_break : Text
line_break = 10 ∷ []

-- `lines.join("\n")`.
abbrev pub join_lines : List Text → Text
join_lines [] = []
join_lines (l ∷ []) = l
join_lines (l ∷ m ∷ ls) = l ++ line_break ++ join_lines (m ∷ ls)

unfoldable pub approval_text : Text → Text → ℕ → AnnouncementKind → Text
approval_text announcement_id text room_count kind = join_lines (
    (codes "[DUYỆT PHÁT TIN] "
      ++ asker_label kind
      ++ codes " xin gửi thông báo tới "
      ++ show room_count
      ++ codes " nhóm đại lý.")
    ∷ []
    ∷ codes "Nội dung:"
    ∷ codes "---"
    ∷ text
    ∷ codes "---"
    ∷ []
    ∷ (codes "Duyệt:   /duyet-thongbao " ++ announcement_id)
    ∷ (codes "Từ chối: /tuchoi-thongbao " ++ announcement_id ++ codes " <lý do>")
    ∷ codes "Chưa gửi cho nhóm nào cho tới khi bạn duyệt."
    ∷ [])

abbrev pub room_target : ApproverRoom → Bool → BroadcastTarget
room_target room is_group = record {
  channel = room.channel;
  conversation_id = room.conversation_id;
  is_group = is_group;
  reply_to_sender_id = room.conversation_id;
  reply_to_sender_name = none;
}

unfoldable pub notify_approver :
    ApproverRoom → Text → Text → ℕ → AnnouncementKind → Task World (Unit {0})
unfolding approval_text
notify_approver room announcement_id text room_count kind =
    on_bus (send (room_target room false) (approval_text announcement_id text room_count kind))

abbrev pub tell_origin : Text → Option ApproverRoom → Task World (Unit {0})
tell_origin text none = pure tt
tell_origin text (some origin) = on_bus (send (room_target origin true) text)

-- What it throws is logged and no more.
unfoldable pub notify_origin : Text → Text → Task World (Unit {0})
unfolding origin_of
notify_origin announcement_id text =
    ignore_failure
      (do origin ← query (codes "originOf") (origin_of announcement_id); tell_origin text origin)
