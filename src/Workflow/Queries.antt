-- ===== src/Workflow/Queries.antt =====
-- The queries on `pending_actions` (findOpen, findAnswered, openForTarget, openForOrigin and
-- dueForRemind of SqlPendingStore, src/workflows/store.ts).
pub mod Lookup
use open_dilim.Prelude.{
  ℕ, ◌≡◌, refl, Bool, true, false, not, ◌&&◌, Option, none, some, List, [], ◌∷◌, leb, ◌==◌,
  if◌then◌else◌, select, take, collect,
}
use open_dilim.Prelude.Text.{Text, codes, text_eq}
use open_dilim.Prelude.Sort.{sort_by}
use open_dilim.Chat.{RoomRef}
use open_dilim.Workflow.Types.{Value, text, PendingRequest, subject_is}
use open_dilim.Workflow.Row.{Row, Runtime, get, as_record, value_as_record, or_else, ◌>>=◌}
use open_dilim.Workflow.Store.{
  Table, max_remind_per_tick, is_pending, is_open, returning, read_row, first,
}

unfoldable pub is_answered : Text → Text → Row → Bool
is_answered workflow subject r =
    text_eq r.workflow workflow && subject_is r.subject subject && r.status == 1

-- ORDER BY resolved_at DESC NULLS LAST: the latest, the first of equals.
abbrev later_resolved : Row → Row → Bool
later_resolved a b = elim b.resolved_at [
  | none ↦ false
  | some t ↦ elim a.resolved_at [ none ↦ true | some u ↦ not (leb t u) ]
]

latest_resolved : Row → List Row → Row
latest_resolved best [] = best
latest_resolved best (r ∷ rs) = latest_resolved (if later_resolved best r then r else best) rs

abbrev latest : List Row → List Row
unfolding latest_resolved
latest [] = []
latest (r ∷ rs) = latest_resolved r rs ∷ []

unfoldable pub is_for_target : RoomRef → Row → Bool
is_for_target room r =
    text_eq r.channel room.channel && text_eq r.conversation_id room.group_id && is_pending r

abbrev text_is : Option Value → Text → Bool
text_is (some (text s)) t = text_eq s t
text_is _ t = false

-- `state_snapshot -> 'origin' ->> key = value`, over texts.
origin_is : Row → Text → Text → Bool
unfolding get
origin_is r key value =
    text_is
      (do
        snapshot ← value_as_record r.state_snapshot
        origin ← as_record (get snapshot (codes "origin"))
        get origin key)
      value

abbrev at_or_before : Option ℕ → ℕ → Bool
at_or_before none now = false
at_or_before (some t) now = leb t now

unfoldable pub is_due : ℕ → Row → Bool
is_due now r = is_pending r && at_or_before r.next_remind_at now

module _ (runtime : Runtime) where
  unfoldable pub find_open : Text → Text → Table → Option PendingRequest
  unfolding is_open returning
  find_open workflow subject table = first runtime (select (is_open workflow subject) table)

  unfoldable pub find_answered : Text → Text → Table → Option PendingRequest
  unfolding is_answered latest_resolved returning
  find_answered workflow subject table =
      first runtime (latest (select (is_answered workflow subject) table))

  unfoldable pub open_for_target : RoomRef → Table → List PendingRequest
  unfolding is_for_target returning
  open_for_target room table =
      collect (read_row runtime) (sort_by (λ r. r.created_at) (select (is_for_target room) table))

  unfoldable pub open_for_origin : RoomRef → Table → List PendingRequest
  unfolding origin_is returning
  open_for_origin room table = collect (read_row runtime) (
      sort_by (λ r. r.created_at)
        (select
          (λ r.
            is_pending r
            && origin_is r (codes "channel") room.channel
            && origin_is r (codes "groupId") room.group_id)
          table))

  unfoldable pub due_for_remind : ℕ → Table → List PendingRequest
  unfolding is_due returning
  due_for_remind now table = collect (read_row runtime) (
      take max_remind_per_tick
        (sort_by (λ r. or_else r.next_remind_at 0) (select (is_due now) table)))
