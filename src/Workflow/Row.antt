-- ===== src/Workflow/Row.antt =====
-- From a row of `pending_actions` to a request (toRequest and its readers, and roomApprover, of
-- src/workflows/store.ts). `Row` is the table; what the driver hands over is a `Value`. Reading a
-- date or a JSON document out of a string is the runtime's, and a parameter.
use open_dilim.Prelude.{ℕ, Bool, true, ◌&&◌, Option, none, some, [], ◌∷◌, ◌++◌, ◌==◌, if◌then◌else◌}
use open_dilim.Prelude.Text.{Text, codes, text_eq, is_empty, is_digit, trim}
use open_dilim.Prelude.Decimal.{read_from}
use open_dilim.Chat.{RoomRef}
use open_dilim.Workflow.Types.{
  Value, integer, text, date, object, Fields, end, field, PendingStatus, pending, approved, denied,
  expired, PendingRequest,
}

pub record Row : Type 0 where
  pub approval_id : Text
  pub conversation_id : Text
  pub channel : Text
  pub workflow : Text
  pub subject : Option Text
  pub state_snapshot : Value
  pub idempotency_key : Text
  pub status : ℕ
  pub approver : Text
  pub requester_id : Option Text
  pub ask_count : ℕ
  pub next_remind_at : Option ℕ
  pub expires_at : ℕ
  pub created_at : ℕ
  pub resolved_at : Option ℕ

pub record Runtime : Type 0 where
  pub parse_date : Text → Option ℕ
  pub parse_json : Text → Option Value

infixl 5 ◌>>=◌
abbrev pub ◌>>=◌ {ℓ κ} : {A : Type ℓ} {B : Type κ} → Option A → (A → Option B) → Option B
none >>= f = none
some a >>= f = f a

-- `record[key]`, `undefined` where the key is missing.
unfoldable pub get : Fields → Text → Option Value
get end key = none
get (field k v rest) key = if text_eq k key then some v else get rest key

abbrev pub value_as_record : Value → Option Fields
value_as_record (object fields) = some fields
value_as_record _ = none

abbrev pub as_record : Option Value → Option Fields
as_record none = none
as_record (some v) = value_as_record v

abbrev string_of : Option Value → Option Text
string_of (some (text t)) = if is_empty t then none else some t
string_of _ = none

unfoldable pub read_string : Fields → Text → Option Text
unfolding get
read_string record' key = string_of (get record' key)

all_digits : Text → Bool
unfolding is_digit
all_digits [] = true
all_digits (c ∷ s) = is_digit c && all_digits s

-- `/^\d+$/` on the trimmed text, and its number.
integer_of_text : Text → Option ℕ
unfolding all_digits read_from
integer_of_text [] = none
integer_of_text (c ∷ s) = if all_digits (c ∷ s) then some (read_from 0 (c ∷ s)) else none

abbrev integer_of : Option Value → Option ℕ
unfolding integer_of_text trim
integer_of (some (integer n)) = some n
integer_of (some (text t)) = integer_of_text (trim t)
integer_of _ = none

unfoldable pub read_integer : Fields → Text → Option ℕ
unfolding get integer_of_text trim
read_integer record' key = integer_of (get record' key)

status_of_code : ℕ → Option PendingStatus
status_of_code n =
    if n == 0
    then some pending
    else if n == 1
    then some approved
    else if n == 2
    then some denied
    else if n == 3
    then some expired
    else none

unfoldable pub read_status : Fields → Option PendingStatus
unfolding read_integer status_of_code
read_status record' = do n ← read_integer record' (codes "status"); status_of_code n

unfoldable pub read_room : Fields → Text → Option RoomRef
unfolding read_string
read_room snapshot key = do
  room ← as_record (get snapshot key)
  channel ← read_string room (codes "channel")
  group_id ← read_string room (codes "groupId")
  some (record { channel = channel; group_id = group_id })

abbrev pub or_else {ℓ} : {A : Type ℓ} → Option A → A → A
or_else none d = d
or_else (some a) d = a

unfoldable pub room_approver : RoomRef → Text
room_approver room = codes "room:" ++ room.channel ++ b':' ∷ room.group_id

module _ (runtime : Runtime) where
  open runtime use {parse_date, parse_json}

  abbrev date_of : Option Value → Option ℕ
  date_of (some (date t)) = some t
  date_of (some (text t)) = parse_date t
  date_of _ = none

  unfoldable pub read_date : Fields → Text → Option ℕ
  unfolding get
  read_date record' key = date_of (get record' key)

  abbrev snapshot_of : Option Value → Fields
  snapshot_of (some (text t)) = or_else (as_record (parse_json t)) end
  snapshot_of v = or_else (as_record v) end

  unfoldable pub read_snapshot : Fields → Fields
  unfolding get
  read_snapshot record' = snapshot_of (get record' (codes "state_snapshot"))

  unfoldable pub to_request : Value → Option PendingRequest
  unfolding read_string read_integer read_status read_room read_date read_snapshot
  to_request row = do
    columns ← value_as_record row
    id ← read_string columns (codes "approval_id")
    workflow ← read_string columns (codes "workflow")
    target_group_id ← read_string columns (codes "conversation_id")
    target_channel ← read_string columns (codes "channel")
    requester_id ← read_string columns (codes "requester_id")
    expires_at ← read_date columns (codes "expires_at")
    status ← read_status columns
    origin ← read_room (read_snapshot columns) (codes "origin")
    some (record {
      id = id;
      workflow = workflow;
      subject = read_string columns (codes "subject");
      target = record { channel = target_channel; group_id = target_group_id };
      origin = origin;
      requester_id = requester_id;
      state = or_else (as_record (get (read_snapshot columns) (codes "state"))) end;
      ask_count = or_else (read_integer columns (codes "ask_count")) 0;
      next_remind_at = read_date columns (codes "next_remind_at");
      expires_at = expires_at;
      status = status;
      answer = read_string (read_snapshot columns) (codes "answer");
    })
