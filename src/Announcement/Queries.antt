-- ===== src/Announcement/Queries.antt =====
-- The queries on the tables of announcements (find, listAwaiting, originOf, dueForSend, status and
-- latestBy of SqlAnnouncementStore, and SqlApproverRoomLookup, of src/announcements/store.ts), and the
-- rooms of the dealers (src/announcements/rooms.ts). The readers skip a row with an empty text where
-- they need one. `collate` is the order in which the database sorts texts.
use open_dilim.Prelude.{
  ℕ, suc, Bool, true, false, not, ◌&&◌, Option, none, some, List, [], ◌∷◌, leb, ltb, ◌==◌,
  if◌then◌else◌, length, any, select, count, take, collect, get_first,
}
use open_dilim.Prelude.Text.{Text, codes, text_eq, is_empty}
use open_dilim.Prelude.Sort.{sort_by}
use open_dilim.Workflow.Row.{◌>>=◌, or_else}
use open_dilim.Announcement.Types.{
  AnnouncementRow, DeliveryRow, GroupRow, BlockRow, BindingRow, Database, DealerRoom, ApproverRoom,
  Delivery, FailedDelivery, AnnouncementStatus, AwaitingApproval, awaiting_approval, approved,
  pending, sent,
}
use open_dilim.Announcement.Store.{has_id, is_pending}

abbrev pub max_send_per_tick : ℕ
max_send_per_tick = 30

abbrev pub read_string : Text → Option Text
read_string t = if is_empty t then none else some t

abbrev pub read_optional : Option Text → Option Text
read_optional none = none
read_optional (some t) = read_string t

unfoldable pub to_awaiting : AnnouncementRow → ℕ → Option AwaitingApproval
to_awaiting a room_count = do
  announcement_id ← read_string a.id
  kind ← read_string a.kind
  text ← read_string a.text
  created_by ← read_string a.created_by
  some (record {
    announcement_id = announcement_id;
    kind = kind;
    text = text;
    created_by = created_by;
    room_count = room_count;
    created_at = a.created_at;
  })

abbrev pub of_announcement : Text → DeliveryRow → Bool
of_announcement id d = text_eq d.announcement_id id

-- A row with the number of its deliveries.
abbrev awaiting_of : Database → AnnouncementRow → Option AwaitingApproval
unfolding to_awaiting
awaiting_of db a = to_awaiting a (count (of_announcement a.id) db.deliveries)

unfoldable pub find : Text → Database → Option AwaitingApproval
unfolding to_awaiting
find id db = do a ← get_first (select (has_id id) db.announcements); awaiting_of db a

unfoldable pub list_awaiting : ℕ → Database → List AwaitingApproval
unfolding to_awaiting
list_awaiting limit db = collect (awaiting_of db) (
    take limit
      (sort_by (λ a. a.created_at) (select (λ a. a.status == awaiting_approval) db.announcements)))

unfoldable pub origin_of : Text → Database → Option ApproverRoom
origin_of id db = do
  a ← get_first (select (has_id id) db.announcements)
  channel ← read_string a.origin_channel
  conversation_id ← read_string a.origin_conversation
  some (record { channel = channel; conversation_id = conversation_id })

unfoldable pub to_delivery : DeliveryRow → Text → Option Delivery
to_delivery d announcement_text = do
  id ← read_string d.id
  announcement_id ← read_string d.announcement_id
  channel ← read_string d.channel
  group_id ← read_string d.group_id
  customer_id ← read_string d.customer_id
  text ← read_string announcement_text
  some (record {
    id = id;
    announcement_id = announcement_id;
    channel = channel;
    group_id = group_id;
    customer_id = customer_id;
    text = text;
    attempts = d.attempts;
    next_attempt_at = d.next_attempt_at;
  })

abbrev at_or_before : Option ℕ → ℕ → Bool
at_or_before none now = false
at_or_before (some t) now = leb t now

abbrev pub is_absent : Option ℕ → Bool
is_absent none = true
is_absent (some t) = false

abbrev pub is_approved : Text → AnnouncementRow → Bool
is_approved id a = text_eq a.id id && a.status == approved

unfoldable pub is_due : ℕ → Database → DeliveryRow → Bool
is_due now db d =
    any (is_approved d.announcement_id) db.announcements
    && is_pending d
    && is_absent d.sent_at
    && at_or_before d.next_attempt_at now

-- The row joined with the text of its announcement.
unfoldable pub joined : Database → DeliveryRow → Option Delivery
unfolding to_delivery
joined db d = do
  a ← get_first (select (is_approved d.announcement_id) db.announcements)
  to_delivery d a.text

unfoldable pub due_for_send : ℕ → Database → List Delivery
unfolding is_due joined
due_for_send now db = collect (joined db) (
    take max_send_per_tick
      (sort_by (λ d. or_else d.next_attempt_at 0) (select (is_due now db) db.deliveries)))

abbrev pub failed_delivery : DeliveryRow → FailedDelivery
failed_delivery d = record {
  group_id = or_else (read_string d.group_id) (codes "(không rõ)");
  customer_id = or_else (read_string d.customer_id) (codes "(không rõ)");
  reason = or_else (read_optional d.last_error) (codes "(không rõ lý do)");
}

-- The counters of the loop.
unfoldable pub tally : List DeliveryRow → AnnouncementStatus → AnnouncementStatus
tally [] counts = counts
tally (d ∷ ds) counts =
    let rest = tally ds counts in
    if d.status == sent
    then record rest { sent = suc rest.sent }
    else if d.status == pending
    then record rest { pending = suc rest.pending }
    else record rest { failed = failed_delivery d ∷ rest.failed }

abbrev no_counts : AnnouncementRow → Text → ℕ → AnnouncementStatus
no_counts a id total = record {
  announcement_id = id;
  state = a.status;
  total = total;
  sent = 0;
  pending = 0;
  failed = [];
  reject_reason = read_optional a.reject_reason;
}

-- A code that is no state is refused.
unfoldable pub status : Text → Database → Option AnnouncementStatus
unfolding tally
status id db = do
  a ← get_first (select (has_id id) db.announcements)
  let rows = select (of_announcement id) db.deliveries
  if leb a.status 2 then some (tally rows (no_counts a id (length rows))) else none

abbrev newer : AnnouncementRow → AnnouncementRow → AnnouncementRow
newer a b = if ltb a.created_at b.created_at then b else a

-- ORDER BY created_at DESC LIMIT 1: the first of equals.
latest_row : AnnouncementRow → List AnnouncementRow → AnnouncementRow
latest_row best [] = best
latest_row best (a ∷ rest) = latest_row (newer best a) rest

abbrev latest : List AnnouncementRow → Option AnnouncementRow
unfolding latest_row
latest [] = none
latest (a ∷ rest) = some (latest_row a rest)

unfoldable pub latest_by : Text → Database → Option Text
unfolding latest_row
latest_by created_by db = do
  a ← latest (select (λ a. text_eq a.created_by created_by) db.announcements)
  read_string a.id

abbrev later_bound : BindingRow → BindingRow → BindingRow
later_bound a b = if ltb a.bound_at b.bound_at then b else a

latest_binding : BindingRow → List BindingRow → BindingRow
latest_binding best [] = best
latest_binding best (b ∷ rest) = latest_binding (later_bound best b) rest

abbrev latest_bound : List BindingRow → Option BindingRow
unfolding latest_binding
latest_bound [] = none
latest_bound (b ∷ rest) = some (latest_binding b rest)

abbrev is_bound : Text → Text → BindingRow → Bool
is_bound channel user_id b =
    text_eq b.user_id user_id && text_eq b.channel channel && is_absent b.revoked_at

unfoldable pub room_of : Text → Text → Database → Option ApproverRoom
unfolding latest_binding
room_of channel user_id db = do
  b ← latest_bound (select (is_bound channel user_id) db.bindings)
  bound_channel ← read_string b.channel
  sender_id ← read_string b.sender_id
  some (record { channel = bound_channel; conversation_id = sender_id })

abbrev is_blocked : List BlockRow → GroupRow → Bool
is_blocked blocks g = any (λ b. text_eq b.channel g.channel && text_eq b.group_id g.group_id) blocks

abbrev to_dealer_room : GroupRow → DealerRoom
to_dealer_room g = record {
  channel = g.channel;
  group_id = g.group_id;
  customer_id = g.customer_id;
}

module _ (collate : Text → Text → Bool) where
  -- ORDER BY customer_id, updated_at DESC.
  abbrev comes_first : GroupRow → GroupRow → Bool
  comes_first a b =
      if text_eq a.customer_id b.customer_id
      then leb b.updated_at a.updated_at
      else collate a.customer_id b.customer_id

  insert_group : GroupRow → List GroupRow → List GroupRow
  insert_group g [] = g ∷ []
  insert_group g (h ∷ hs) = if comes_first g h then g ∷ h ∷ hs else h ∷ insert_group g hs

  sort_groups : List GroupRow → List GroupRow
  unfolding insert_group
  sort_groups [] = []
  sort_groups (g ∷ gs) = insert_group g (sort_groups gs)

  -- DISTINCT ON (customer_id): the first row of each customer.
  distinct_from : Text → List GroupRow → List GroupRow
  distinct_from customer [] = []
  distinct_from customer (g ∷ gs) =
      let rest = distinct_from g.customer_id gs in
      let skipped = distinct_from customer gs in
      if text_eq g.customer_id customer then skipped else g ∷ rest

  distinct_groups : List GroupRow → List GroupRow
  unfolding distinct_from
  distinct_groups [] = []
  distinct_groups (g ∷ gs) = g ∷ distinct_from g.customer_id gs

  unfoldable pub all_enabled : Database → List DealerRoom
  unfolding sort_groups distinct_groups
  all_enabled db =
      collect (λ g. some (to_dealer_room g))
        (distinct_groups
          (sort_groups (select (λ g. g.enabled && not (is_blocked db.blocks g)) db.groups)))
