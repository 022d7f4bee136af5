-- ===== src/Proactive/Pending.antt =====
-- The waiting questions on Redis (src/proactive/pending.ts): a sorted set of the members that wait,
-- with the instant from which each may be picked up, and a hash of their payloads. What
-- JSON.stringify wrote is kept as the value that JSON.parse reads back. Members that are due at the
-- same instant stand in the order in which they came. `others` is what other instances do before each
-- command of a claim. The two commands of schedule are definitions of their own, so that runs of
-- commands can put others between them; schedule is both, with nothing in between. Redis serves every
-- command.
pub mod Latest
pub mod Claims
use open_dilim.Prelude.{
  ℕ, ◌+◌, Bool, true, false, not, ◌&&◌, Option, none, some, List, [], ◌∷◌, ◌++◌, map, leb,
  if◌then◌else◌, any, select, take,
}
use open_dilim.Prelude.Text.{Text, codes, text_eq, is_empty}
use open_dilim.Prelude.Sort.{sort_by}
use open_dilim.Workflow.Types.{Value, integer, text, object, Fields, end, field}
use open_dilim.Workflow.Row.{get, value_as_record, ◌>>=◌}

abbrev pub claim_batch : ℕ
claim_batch = 100

pub record PendingQuestion : Type 0 where
  pub channel : Text
  pub conversation_id : Text
  pub sender_id : Text
  pub sender_name : Option Text
  pub msg_id : Text
  pub text : Text
  pub ts : ℕ

pub record Member : Type 0 where
  pub key : Text
  pub score : ℕ

pub record Waiting : Type 0 where
  pub due : List Member
  pub payloads : Text → Option Value

unfoldable pub member_key : Text → Text → Text → Text
member_key channel conversation_id sender_id =
    channel ++ codes "|" ++ conversation_id ++ codes "|" ++ sender_id

abbrev pub key_of : PendingQuestion → Text
key_of q = member_key q.channel q.conversation_id q.sender_id

abbrev name_field : Option Text → Fields → Fields
name_field none rest = rest
name_field (some name) rest = field (codes "senderName") (text name) rest

-- The JSON of a question.
abbrev pub payload : PendingQuestion → Value
payload q = object (
    field (codes "channel") (text q.channel) (
      field (codes "conversationId") (text q.conversation_id) (
        field (codes "senderId") (text q.sender_id) (
          name_field q.sender_name (
            field (codes "msgId") (text q.msg_id)
              (field (codes "text") (text q.text) (field (codes "ts") (integer q.ts) end)))))))

abbrev as_text : Option Value → Option Text
as_text (some (text t)) = some t
as_text _ = none

abbrev unless_empty : Text → Option Text
unless_empty t = if is_empty t then none else some t

abbrev as_number : Option Value → Option ℕ
as_number (some (integer n)) = some n
as_number _ = none

abbrev name_of : Option Text → Option Text
name_of none = none
name_of (some t) = unless_empty t

unfoldable pub parse_pending_question : Value → Option PendingQuestion
unfolding get
parse_pending_question raw = do
  fields ← value_as_record raw
  channel ← as_text (get fields (codes "channel"))
  channel' ← unless_empty channel
  conversation_id ← as_text (get fields (codes "conversationId"))
  conversation_id' ← unless_empty conversation_id
  sender_id ← as_text (get fields (codes "senderId"))
  msg_id ← as_text (get fields (codes "msgId"))
  text' ← as_text (get fields (codes "text"))
  ts ← as_number (get fields (codes "ts"))
  some (record {
    channel = channel';
    conversation_id = conversation_id';
    sender_id = sender_id;
    sender_name = name_of (as_text (get fields (codes "senderName")));
    msg_id = msg_id;
    text = text';
    ts = ts;
  })

abbrev pub is_member : Text → Member → Bool
is_member key m = text_eq m.key key

-- `ZADD`: a member that is there gets the new score.
unfoldable pub add_member : Text → ℕ → List Member → List Member
add_member key score [] = record { key = key; score = score } ∷ []
add_member key score (m ∷ ms) =
    let later = add_member key score ms in
    if is_member key m then record m { score = score } ∷ ms else m ∷ later

-- `HSET` of the payload and `ZADD` of the member.
abbrev pub set_payload : PendingQuestion → Waiting → Waiting
set_payload q w = record w {
  payloads = λ k. if text_eq k (key_of q) then some (payload q) else w.payloads k;
}

abbrev pub add_due : Text → ℕ → Waiting → Waiting
add_due key fire_at_ms w = record w { due = add_member key fire_at_ms w.due }

unfoldable pub schedule : PendingQuestion → ℕ → Waiting → Waiting
unfolding add_member
schedule q fire_at_ms w = add_due (key_of q) fire_at_ms (set_payload q w)

-- `ZREM`: whether it was this call that removed the member.
unfoldable pub remove_member : Text → Waiting → Bool × Waiting
remove_member key w =
    (any (is_member key) w.due, record w { due = select (λ m. not (is_member key m)) w.due })

-- `HDEL`.
abbrev pub delete_payload : Text → Waiting → Waiting
delete_payload key w = record w { payloads = λ k. if text_eq k key then none else w.payloads k }

-- What others do before the ZREM, the HGET and the HDEL of a claim.
pub record Gaps : Type 0 where
  pub before_remove : Waiting → Waiting
  pub before_read : Waiting → Waiting
  pub before_delete : Waiting → Waiting

abbrev pub read_question : Option Value → Option PendingQuestion
read_question raw = do json ← raw; parse_pending_question json

-- The member is this instance's if its ZREM removed it.
abbrev pub claim_removed : Text → Gaps → Bool × Waiting → Option PendingQuestion × Waiting
claim_removed key gaps (false, w) = (none, w)
claim_removed key gaps (true, w) =
    let read = gaps.before_read w in
    (read_question (read.payloads key), delete_payload key (gaps.before_delete read))

-- The question of a member, and the state after its turn.
unfoldable pub claim_member : Text → Gaps → Waiting → Option PendingQuestion × Waiting
unfolding remove_member
claim_member key gaps w = claim_removed key gaps (remove_member key (gaps.before_remove w))

abbrev pub with_claimed : Option PendingQuestion → List PendingQuestion → List PendingQuestion
with_claimed none rest = rest
with_claimed (some q) rest = q ∷ rest

unfoldable pub claim_members : List Text → (Text → Gaps) → Waiting → List PendingQuestion × Waiting
unfolding claim_member
claim_members [] others w = ([], w)
claim_members (key ∷ keys) others w =
    let (q, w') = claim_member key (others key) w in
    let (rest, w'') = claim_members keys others w' in (with_claimed q rest, w'')

unfoldable pub due_members : ℕ → Waiting → List Text
due_members now_ms w =
    map (λ m. m.key)
      (take claim_batch (sort_by (λ m. m.score) (select (λ m. leb m.score now_ms) w.due)))

unfoldable pub claim_due : ℕ → (Text → Gaps) → Waiting → List PendingQuestion × Waiting
unfolding due_members claim_members
claim_due now_ms others w = claim_members (due_members now_ms w) others w
