-- ===== src/Workflow/Store/Closing.antt =====
-- A request is closed by one answer, and an overdue one by none (resolve and expireDue of
-- SqlPendingStore, src/workflows/store.ts).
use open_dilim.Prelude.{
  zero_add_le, ℕ, ◌+◌, ◌≤◌, ◌≡◌, true, false, List, [], ◌∷◌, arith, Bool-cases, inl, inr, count,
  any, count-any,
}
use open_dilim.Prelude.Text.{Text, text_eq, text_eq_iff}
use open_dilim.Workflow.Row.{Row, Runtime}
use open_dilim.Workflow.Store.{
  Table, new_row, open_pending, claim_remind, resolve, expire_due, is_claimable, claimed,
  is_resolvable, resolved, is_overdue, closed_expired,
}
use open_dilim.Prelude.Update.{count-update_where, count-update_where_out}
use open_dilim.Workflow.Store.Opening.{has_id, insert_row-count, execute-has}
use open_dilim.Workflow.Store.Runs.{
  Statement, opening, claiming, resolving, expiring, execute, closed, closings,
}
use open_dilim.Workflow.Store.Uniqueness.{IsValid}

resolvable-le :
    (id : Text) (table : Table) → count (is_resolvable id) table ≤ count (has_id id) table
unfolding is_resolvable
resolvable-le id [] = omega arith
resolvable-le id (r ∷ rs) = ground (arith, resolvable-le id rs)

resolvable-resolved :
    (id answer by : Text) (now : ℕ) (r : Row) → is_resolvable id (resolved answer by now r) ≡ false
unfolding is_resolvable resolved
resolvable-resolved id answer by now r = ground arith

module _ (runtime : Runtime) (id : Text) where
  closed_resolving :
      (id' answer by : Text) (now : ℕ) (table : Table)
      → closed runtime id (resolving id' answer by now) table
          + count (is_resolvable id) (resolve runtime id' answer by now table).1
        ≤ count (is_resolvable id) table
  unfolding closed resolve
  closed_resolving id' answer by now table = elim (Bool-cases (text_eq id' id)) [
    | inl same ↦ rw ((text_eq_iff id' id).0 same) (
        ground (
          arith,
          count-update_where_out (is_resolvable id) (is_resolvable id) (resolved answer by now)
              table (λ r h. h) (λ r _. resolvable-resolved id answer by now r),
          count-any (is_resolvable id) table,
        ))
    | inr other ↦ ground (
      arith,
      count-update_where (is_resolvable id') (is_resolvable id) (resolved answer by now) table
          (λ r _ h. absurd (never r h)),
    )
  ]
    where
      never : (r : Row) → is_resolvable id (resolved answer by now r) ≡ true → ⊥
      never r h = cc (resolvable-resolved id answer by now r)

  closed_step :
      (s : Statement) (table : Table)
      → any (has_id id) table ≡ true
      → closed runtime id s table + count (is_resolvable id) (execute runtime s table)
        ≤ count (is_resolvable id) table
  unfolding execute
  closed_step (opening uuid now input) table there =
      unfold open_pending closed in
      zero_add_le (
        insert_row-count id (is_resolvable id) (new_row uuid now input) input.subject table there
          (λ r h. unfold is_resolvable in ground arith))
  closed_step (claiming id' expected next) table there =
      unfold claim_remind closed in
      zero_add_le (
        count-update_where (is_claimable id' expected) (is_resolvable id) (claimed next) table
          (λ r _ h. unfold is_resolvable in h))
  closed_step (resolving id' answer by now) table there = closed_resolving id' answer by now table
  closed_step (expiring now) table there =
      unfold expire_due closed in
      zero_add_le (
        count-update_where (is_overdue now) (is_resolvable id) (closed_expired now) table
          (λ r _ h. unfold is_resolvable in ground arith))

  closings-le-resolvable :
      (statements : List Statement) (table : Table)
      → any (has_id id) table ≡ true
      → closings runtime id statements table ≤ count (is_resolvable id) table
  unfolding closings
  closings-le-resolvable [] table there = omega arith
  closings-le-resolvable (s ∷ rest) table there = omega (
    arith,
    closed_step s table there,
    closings-le-resolvable rest (execute runtime s table) (execute-has runtime id s table there),
  )

  -- Whatever statements all the instances send, and in whatever order, at most one of them closes
  -- the request with an answer, if the table satisfies its constraints and holds the request.
  pub closings-le-one :
      (statements : List Statement) (table : Table)
      → IsValid table
      → any (has_id id) table ≡ true
      → closings runtime id statements table ≤ 1
  closings-le-one statements table v there =
      omega
        (arith, closings-le-resolvable statements table there, resolvable-le id table, v.one_id id)
