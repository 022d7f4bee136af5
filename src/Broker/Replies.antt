-- ===== src/Broker/Replies.antt =====
-- What Redis replies, read into types of our own (src/broker/resp.ts). A reply is a `Value`, as is
-- what JSON.parse reads. The sixth clause of `count_of` stands for values that Redis does not send as
-- a count: a fraction, and an array that Number() would read.
pub mod RoundTrip
pub mod Envelopes
use open_dilim.Prelude.{
  ℕ, Bool, true, false, not, ◌&&◌, Option, none, some, List, [], ◌∷◌, ◌++◌, any, if◌then◌else◌,
}
use open_dilim.Prelude.Text.{Text, codes, text_eq, is_empty}
use open_dilim.Chat.{MessageSource, channel, cron, distill, proactive, Mention}
use open_dilim.Workflow.Types.{
  Value, null, boolean, integer, fraction, text, date, array, object, Items, nil, cons, Fields, end,
  field,
}
use open_dilim.Workflow.Row.{◌>>=◌, get, value_as_record}
use open_dilim.Scheduler.Number.{integer_of_text}

pub record StreamEntry : Type 0 where
  pub id : Text
  pub payload : Text

pub record PendingEntry : Type 0 where
  pub id : Text
  pub deliveries : ℕ

abbrev pub text_of : Value → Option Text
text_of (text t) = some t
text_of _ = none

abbrev is_text : Text → Value → Bool
is_text name (text t) = text_eq t name
is_text name _ = false

-- Names and values by turns.
unfoldable pub field_in : Text → Items → Option Text
field_in name (cons key (cons value rest)) =
    let later = field_in name rest in if is_text name key then text_of value else later
field_in name _ = none

abbrev pub text_at : Fields → Text → Option Text
text_at fields name = do value ← get fields name; text_of value

unfoldable pub field_value : Text → Value → Option Text
unfolding field_in
field_value name (array items) = field_in name items
field_value name (object fields) = text_at fields name
field_value name _ = none

abbrev entry_of : Text → Value → Option StreamEntry
unfolding field_value
entry_of name (array (cons (text id) (cons fields rest))) = do
  payload ← field_value name fields
  some (record { id = id; payload = payload })
entry_of name _ = none

abbrev if_there {ℓ} : {A : Type ℓ} → Option A → List A → List A
if_there none rest = rest
if_there (some x) rest = x ∷ rest

unfoldable pub entries_in : Text → Items → List StreamEntry
unfolding field_value
entries_in name nil = []
entries_in name (cons item rest) = if_there (entry_of name item) (entries_in name rest)

unfoldable pub parse_entries : Value → Text → List StreamEntry
unfolding entries_in
parse_entries (array items) name = entries_in name items
parse_entries _ name = []

abbrev entries_of_stream : Text → Value → List StreamEntry
unfolding parse_entries
entries_of_stream name (array (cons key (cons entries rest))) = parse_entries entries name
entries_of_stream name _ = []

unfoldable pub entries_of_streams : Text → Items → List StreamEntry
unfolding parse_entries
entries_of_streams name nil = []
entries_of_streams name (cons stream rest) =
    entries_of_stream name stream ++ entries_of_streams name rest

unfoldable pub entries_of_values : Text → Fields → List StreamEntry
unfolding parse_entries
entries_of_values name end = []
entries_of_values name (field key entries rest) =
    parse_entries entries name ++ entries_of_values name rest

unfoldable pub parse_read_reply : Value → Text → List StreamEntry
unfolding entries_of_streams entries_of_values
parse_read_reply (array streams) name = entries_of_streams name streams
parse_read_reply (object fields) name = entries_of_values name fields
parse_read_reply _ name = []

-- A count that is a number, or what Number() makes of it.
abbrev count_of : Value → Option ℕ
count_of (integer n) = some n
count_of (text t) = integer_of_text t
count_of (date t) = some t
count_of (boolean b) = some (if b then 1 else 0)
count_of null = some 0
count_of _ = none

abbrev pending_of : Value → Option PendingEntry
pending_of (array (cons (text id) (cons consumer (cons idle (cons deliveries rest))))) = do
  count ← count_of deliveries
  some (record { id = id; deliveries = count })
pending_of _ = none

unfoldable pub pending_in : Items → List PendingEntry
pending_in nil = []
pending_in (cons row rest) = if_there (pending_of row) (pending_in rest)

unfoldable pub parse_pending : Value → List PendingEntry
unfolding pending_in
parse_pending (array rows) = pending_in rows
parse_pending _ = []

-- An envelope whose fields are checked, with those that `...rest` takes over unchecked. `ts` is kept
-- as the number that was read.
pub record ParsedEnvelope : Type 0 where
  pub source : MessageSource
  pub channel : Text
  pub msg_id : Text
  pub conversation_id : Text
  pub sender_id : Text
  pub is_group : Bool
  pub addressed_to_agent : Bool
  pub text : Text
  pub mentions : List Mention
  pub ts : Value
  pub intent_gate : Bool
  pub rest : Fields

abbrev mention_of : Value → Option Mention
mention_of (object fields) = do uid ← text_at fields (codes "uid"); some (record { uid = uid })
mention_of _ = none

unfoldable pub mentions_in : Items → Option (List Mention)
mentions_in nil = some []
mentions_in (cons item others) = do
  mention ← mention_of item
  mentions ← mentions_in others
  some (mention ∷ mentions)

unfoldable pub parse_mentions : Value → Option (List Mention)
unfolding mentions_in
parse_mentions (array items) = mentions_in items
parse_mentions _ = none

unfoldable pub source_of : Text → Option MessageSource
source_of t =
    if text_eq t (codes "channel")
    then some channel
    else if text_eq t (codes "cron")
    then some cron
    else if text_eq t (codes "distill")
    then some distill
    else if text_eq t (codes "proactive")
    then some proactive
    else none

abbrev nonempty : Text → Option Text
nonempty t = if is_empty t then none else some t

abbrev boolean_of : Value → Option Bool
boolean_of (boolean b) = some b
boolean_of _ = none

abbrev number_of : Value → Option Value
number_of (integer n) = some (integer n)
number_of fraction = some fraction
number_of _ = none

abbrev is_true : Option Value → Bool
is_true (some (boolean b)) = b
is_true _ = false

abbrev checked_fields : List Text
checked_fields =
    codes "intentGate"
    ∷ codes "source"
    ∷ codes "channel"
    ∷ codes "msgId"
    ∷ codes "conversationId"
    ∷ codes "senderId"
    ∷ codes "isGroup"
    ∷ codes "addressedToAgent"
    ∷ codes "text"
    ∷ codes "mentions"
    ∷ codes "ts"
    ∷ []

-- `...rest`, less the fields that are written over.
unfoldable pub without_checked : Fields → Fields
without_checked end = end
without_checked (field name value others) =
    let later = without_checked others in
    if any (text_eq name) checked_fields then later else field name value later

unfoldable pub envelope_of : Fields → Option ParsedEnvelope
unfolding parse_mentions source_of without_checked
envelope_of raw = do
  mentions_value ← get raw (codes "mentions")
  mentions ← parse_mentions mentions_value
  source_text ← text_at raw (codes "source")
  source ← source_of source_text
  channel_text ← text_at raw (codes "channel")
  channel' ← nonempty channel_text
  msg_text ← text_at raw (codes "msgId")
  msg_id ← nonempty msg_text
  conversation_text ← text_at raw (codes "conversationId")
  conversation_id ← nonempty conversation_text
  sender_id ← text_at raw (codes "senderId")
  group_value ← get raw (codes "isGroup")
  is_group ← boolean_of group_value
  addressed_value ← get raw (codes "addressedToAgent")
  addressed_to_agent ← boolean_of addressed_value
  text' ← text_at raw (codes "text")
  ts_value ← get raw (codes "ts")
  ts ← number_of ts_value
  some (record {
    source = source;
    channel = channel';
    msg_id = msg_id;
    conversation_id = conversation_id;
    sender_id = sender_id;
    is_group = is_group;
    addressed_to_agent = addressed_to_agent;
    text = text';
    mentions = mentions;
    ts = ts;
    intent_gate = is_true (get raw (codes "intentGate"));
    rest = without_checked raw;
  })

-- `parse_json` is JSON.parse: nothing where it throws.
unfoldable pub parse_envelope : (Text → Option Value) → Text → Option ParsedEnvelope
unfolding envelope_of
parse_envelope parse_json json = do
  raw ← parse_json json
  fields ← value_as_record raw
  envelope_of fields
