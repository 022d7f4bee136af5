-- ===== src/Workflow/Poller/Sweep.antt =====
-- What a sweep reminds of (tick of src/workflows/poller.ts).
use open_dilim.Prelude.Update.{update_where}
use open_dilim.Prelude.{
  ℕ, ◌≤◌, ◌<◌, ◌≡◌, ◌∙◌, inl, inr, true, some, [], ◌∷◌, arith, Option-cases, All, All-take,
  All-select, All-collect, length, length-take, length-collect, select, take, and_parts, ==_iff,
}
use open_dilim.Prelude.Sort.{sort_by, All-sort_by}
use open_dilim.Workflow.Types.{PendingStatus, status_code, PendingRequest}
use open_dilim.Workflow.Row.{Row, Runtime, or_else, to_request}
use open_dilim.Workflow.Store.{
  Table, is_pending, is_overdue, expire_due, returning, max_remind_per_tick,
}
use open_dilim.Workflow.Queries.{is_due, due_for_remind}
use open_dilim.Workflow.Store.Reading.{to_request-Mirrors}

-- A pending row of this table has its deadline still ahead.
abbrev InTime : ℕ → Row → Type 0
InTime now r = is_pending r ≡ true → now < r.expires_at

expire_due-InTime : (now : ℕ) (table : Table) → All (InTime now) (expire_due now table).1
unfolding expire_due update_where is_overdue
expire_due-InTime now [] = tt
expire_due-InTime now (r ∷ rs) = (λ h. ground arith, unfold expire_due in expire_due-InTime now rs)

-- A request that is worth a reminder now.
pub record IsDue (now : ℕ) (request : PendingRequest) : Type 0 where
  pub pending : request.status ≡ PendingStatus.pending
  pub in_time : now < request.expires_at
  pub reminder : (t : ℕ) × (request.next_remind_at ≡ some t) × (t ≤ now)

pending_of_code : (s : PendingStatus) → status_code s ≡ 0 → s ≡ PendingStatus.pending
unfolding status_code
pending_of_code s h = ground arith

abbrev IsDueRow : ℕ → Row → Type 0
IsDueRow now r = (is_due now r ≡ true) × (now < r.expires_at)

due_reminder :
    (now : ℕ) (r : Row) → is_due now r ≡ true → (t : ℕ) × (r.next_remind_at ≡ some t) × (t ≤ now)
unfolding is_due
due_reminder now r h = elim (Option-cases r.next_remind_at) [
  | inl e ↦ ground arith
  | inr (t, e) ↦ (t, e, ground arith)
]

read_IsDue :
    (runtime : Runtime) (now : ℕ) (r : Row) (request : PendingRequest)
    → IsDueRow now r
    → to_request runtime (returning r) ≡ some request
    → IsDue now request
read_IsDue runtime now r request (due, ahead) e =
    let m = to_request-Mirrors runtime r request e in
    let (t, at, before) = due_reminder now r due in
    record {
      pending = pending_of_code request.status (m.status ∙ code);
      in_time = rw m.expires_at ahead;
      reminder = (t, m.next_remind_at ∙ at, before);
    }
  where
    code : r.status ≡ 0
    code = (==_iff r.status 0).0 (unfold is_due in (and_parts _ _ due).0)

-- After the overdue requests were closed, every request that the sweep reminds of is pending, has
-- its deadline still ahead and its reminder behind it; and there are at most 100 of them.
pub due_for_remind-expire_due :
    (runtime : Runtime) (now : ℕ) (table : Table)
    → All (IsDue now) (due_for_remind runtime now (expire_due now table).1)
      × (length (due_for_remind runtime now (expire_due now table).1) ≤ max_remind_per_tick)
unfolding due_for_remind
due_for_remind-expire_due runtime now table = (
  All-collect (IsDue now) (λ r. to_request runtime (returning r)) (IsDueRow now)
      (λ r request. read_IsDue runtime now r request) _
      (All-take (IsDueRow now) max_remind_per_tick _ (
        All-sort_by (λ r. or_else r.next_remind_at 0) (IsDueRow now) _
          (All-select (InTime now) (IsDueRow now) (is_due now)
            (λ r ahead due. (due, ahead (unfold is_due in (and_parts _ _ due).0))) _
            (expire_due-InTime now table)))),
  omega (
    arith,
    length-collect (IsDue now) (λ r. to_request runtime (returning r))
        (take max_remind_per_tick (
          sort_by (λ r. or_else r.next_remind_at 0)
            (select (is_due now) (expire_due now table).1))),
    length-take max_remind_per_tick
        (sort_by (λ r. or_else r.next_remind_at 0) (select (is_due now) (expire_due now table).1)),
  ),
)
