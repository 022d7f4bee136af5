-- ===== src/Workflow/Store.antt =====
-- The table `pending_actions` and the statements on it (SqlPendingStore of src/workflows/store.ts,
-- with the constraints of migrations/0001_init.sql). A table is the list of its rows in insertion
-- order; a statement is one atomic step. `now` is the database's clock and `uuid` the value that
-- `crypto.randomUUID()` returns.
pub mod Opening
pub mod Uniqueness
pub mod Claims
pub mod Closing
pub mod Runs
pub mod Reading
pub mod Answering
use open_dilim.Prelude.Update.{update_where}
use open_dilim.Prelude.{
  ℕ, zero, suc, ◌+◌, ◌≡◌, refl, Bool, true, false, not, ◌&&◌, ◌||◌, Option, none, some, List, [],
  ◌∷◌, ◌++◌, map, leb, ◌==◌, if◌then◌else◌, length, any, select, count, take, collect, get_first,
}
use open_dilim.Prelude.Text.{Text, codes, text_eq}
use open_dilim.Prelude.Sort.{sort_by}
use open_dilim.Task.{Result, ok, thrown, unique_violation, error}
use open_dilim.Chat.{RoomRef}
use open_dilim.Workflow.Types.{
  Value, null, integer, text, date, object, Fields, end, field, PendingStatus, pending, approved,
  expired, status_code, PendingRequest, subject_is,
}
use open_dilim.Workflow.Row.{
  Row, Runtime, get, as_record, value_as_record, or_else, room_approver, to_request, ◌>>=◌,
}

abbrev pub Table : Type 0
Table = List Row

abbrev pub max_remind_per_tick : ℕ
max_remind_per_tick = 100

abbrev pub is_pending : Row → Bool
is_pending r = r.status == 0

-- The rows of the partial unique index (workflow, subject) WHERE status = 0.
unfoldable pub is_open : Text → Text → Row → Bool
is_open workflow subject r =
    is_pending r && text_eq r.workflow workflow && subject_is r.subject subject

abbrev text_column : Option Text → Value
text_column none = null
text_column (some t) = text t

abbrev date_column : Option ℕ → Value
date_column none = null
date_column (some t) = date t

-- The columns that every query returns, as the driver hands them over.
unfoldable pub returning : Row → Value
returning r = object (
    field (codes "approval_id") (text r.approval_id) (
      field (codes "conversation_id") (text r.conversation_id) (
        field (codes "channel") (text r.channel) (
          field (codes "workflow") (text r.workflow) (
            field (codes "subject") (text_column r.subject) (
              field (codes "state_snapshot") r.state_snapshot (
                field (codes "status") (integer r.status) (
                  field (codes "requester_id") (text_column r.requester_id) (
                    field (codes "ask_count") (integer r.ask_count) (
                      field (codes "next_remind_at") (date_column r.next_remind_at)
                        (field (codes "expires_at") (date r.expires_at) end)))))))))))

-- `a || b` on jsonb objects: the fields of `b` win. The program stores nothing but objects.
unfoldable pub put_field : Text → Value → Fields → Fields
put_field k v end = field k v end
put_field k v (field j w rest) =
    if text_eq j k then field j v rest else field j w (put_field k v rest)

merge_fields : Fields → Fields → Fields
unfolding put_field
merge_fields a end = a
merge_fields a (field k v rest) = merge_fields (put_field k v a) rest

unfoldable pub json_concat : Value → Value → Value
unfolding merge_fields
json_concat (object a) (object b) = object (merge_fields a b)
json_concat a b = a

unfoldable pub room_value : RoomRef → Value
room_value room =
    object (
      field (codes "channel") (text room.channel)
        (field (codes "groupId") (text room.group_id) end))

pub record OpenPendingInput : Type 0 where
  pub workflow : Text
  pub subject : Option Text
  pub target : RoomRef
  pub origin : RoomRef
  pub requester_id : Text
  pub state : Fields
  pub next_remind_at : Option ℕ
  pub expires_at : ℕ

-- A template string prints a missing subject as `undefined`.
unfoldable pub idempotency_key : Text → Option Text → Text
idempotency_key workflow subject = workflow ++ b':' ∷ or_else subject (codes "undefined")

unfoldable pub new_row : Text → ℕ → OpenPendingInput → Row
unfolding idempotency_key room_value room_approver
new_row uuid now input = record {
  approval_id = uuid;
  conversation_id = input.target.group_id;
  channel = input.target.channel;
  workflow = input.workflow;
  subject = input.subject;
  state_snapshot = object (
      field (codes "origin") (room_value input.origin)
        (field (codes "state") (object input.state) end));
  idempotency_key = idempotency_key input.workflow input.subject;
  status = 0;
  approver = room_approver input.target;
  requester_id = some input.requester_id;
  ask_count = 1;
  next_remind_at = input.next_remind_at;
  expires_at = input.expires_at;
  created_at = now;
  resolved_at = none;
}

unfoldable pub conflicts : Text → Option Text → Table → Bool
unfolding is_open
conflicts workflow none table = false
conflicts workflow (some subject) table = any (is_open workflow subject) table

-- The primary key and the constraint `pending_actions_idem_uniq`.
unfoldable pub violates : Row → Table → Bool
violates row table =
    any
      (λ r. text_eq r.approval_id row.approval_id || text_eq r.idempotency_key row.idempotency_key)
      table

-- ON CONFLICT names the partial index only, so another broken constraint throws.
unfoldable pub insert_row : Row → Option Text → Table → Result (Option Row) × Table
unfolding conflicts violates
insert_row row subject table =
    if conflicts row.workflow subject table
    then (ok none, table)
    else if violates row table
    then (thrown unique_violation, table)
    else (ok (some row), table ++ row ∷ [])

module _ (runtime : Runtime) where
  abbrev pub read_row : Row → Option PendingRequest
  read_row r = to_request runtime (returning r)

  -- `first(rows)`: the first row, unless it cannot be read.
  abbrev pub first : List Row → Option PendingRequest
  first rows = do r ← get_first rows; read_row r

  abbrev first_inserted : Result (Option Row) → Result (Option PendingRequest)
  first_inserted (ok inserted) = ok (do r ← inserted; read_row r)
  first_inserted (thrown e) = thrown e

  unfoldable pub open_pending :
      Text → ℕ → OpenPendingInput → Table → Result (Option PendingRequest) × Table
  unfolding insert_row new_row returning
  open_pending uuid now input table =
      let (inserted, table') = insert_row (new_row uuid now input) input.subject table in
      (first_inserted inserted, table')

  abbrev pub resolved_row : List Row → Text → Result (Option PendingRequest)
  resolved_row [] id = ok none
  resolved_row (r ∷ rs) id = elim (read_row r) [
    | none ↦ thrown (error id)
    | some request ↦ ok (some request)
  ]

abbrev instant_is : Option ℕ → ℕ → Bool
instant_is none t = false
instant_is (some u) t = u == t

unfoldable pub is_claimable : Text → ℕ → Row → Bool
is_claimable id expected r =
    text_eq r.approval_id id && is_pending r && instant_is r.next_remind_at expected

abbrev pub claimed : ℕ → Row → Row
claimed next r = record r { next_remind_at = some next; ask_count = r.ask_count + 1 }

-- Compare and swap on `next_remind_at`.
unfoldable pub claim_remind : Text → ℕ → ℕ → Table → Bool × Table
unfolding is_claimable update_where
claim_remind id expected next table = (
  any (is_claimable id expected) table,
  update_where (is_claimable id expected) (claimed next) table,
)

unfoldable pub is_resolvable : Text → Row → Bool
is_resolvable id r = text_eq r.approval_id id && is_pending r

unfoldable pub resolved : Text → Text → ℕ → Row → Row
unfolding json_concat
resolved answer resolved_by now r = record r {
  status = 1;
  state_snapshot = json_concat r.state_snapshot (
      object
        (field (codes "answer") (text answer) (field (codes "answeredBy") (text resolved_by) end)));
  resolved_at = some now;
  next_remind_at = none;
}

unfoldable pub resolve :
    Runtime → Text → Text → Text → ℕ → Table → Result (Option PendingRequest) × Table
unfolding is_resolvable resolved update_where returning
resolve runtime id answer resolved_by now table = (
  resolved_row runtime (map (resolved answer resolved_by now) (select (is_resolvable id) table)) id,
  update_where (is_resolvable id) (resolved answer resolved_by now) table,
)

unfoldable pub is_overdue : ℕ → Row → Bool
is_overdue now r = is_pending r && leb r.expires_at now

abbrev pub closed_expired : ℕ → Row → Row
closed_expired now r = record r { status = 3; resolved_at = some now; next_remind_at = none }

unfoldable pub expire_due : ℕ → Table → ℕ × Table
unfolding is_overdue update_where
expire_due now table =
    (count (is_overdue now) table, update_where (is_overdue now) (closed_expired now) table)
