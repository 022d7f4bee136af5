-- ===== src/Workflow/Store/Claims.antt =====
-- One reminder is claimed once (claimRemind of SqlPendingStore, src/workflows/store.ts), whatever
-- the instances of the server do to the table in between.
use open_dilim.Prelude.{
  zero_add_le, and_parts, ==_iff, ℕ, ◌+◌, ◌≤◌, ◌<◌, ◌≡◌, Bool, true, false, ◌&&◌, Option, none,
  some, List, [], ◌∷◌, arith, Bool-cases, inl, inr, count, any, count-any, All, leb, ◌==◌,
}
use open_dilim.Prelude.Text.{Text, text_eq, text_eq_iff}
use open_dilim.Workflow.Row.{Row, Runtime}
use open_dilim.Workflow.Store.{
  Table, is_pending, new_row, open_pending, claim_remind, resolve, expire_due, is_claimable,
  claimed, is_resolvable, resolved, is_overdue, closed_expired,
}
use open_dilim.Prelude.Update.{count-update_where, count-update_where_out}
use open_dilim.Workflow.Store.Runs.{
  Statement, opening, claiming, resolving, expiring, execute, granted, grants, Advances,
}
use open_dilim.Workflow.Store.Opening.{has_id, insert_row-count, execute-has}
use open_dilim.Workflow.Store.Uniqueness.{IsValid}

-- A pending row of the request whose reminder stands at the given instant or before it.
at_most : Option ℕ → ℕ → Bool
at_most none t = false
at_most (some u) t = leb u t

stands : Text → ℕ → Row → Bool
unfolding at_most
stands id expected r = has_id id r && is_pending r && at_most r.next_remind_at expected

stands-claimable :
    (id : Text) (expected : ℕ) (r : Row)
    → is_claimable id expected r ≡ true
    → stands id expected r ≡ true
unfolding is_claimable stands at_most
stands-claimable id expected r h = ground arith

stands-claimed :
    (id : Text) (expected next : ℕ) (r : Row)
    → expected < next
    → stands id expected (claimed next r) ≡ false
unfolding stands at_most
stands-claimed id expected next r h = ground arith

-- A claim of any reminder of any request brings no row back.
stands-claimed_of :
    (id id' : Text) (expected expected' next : ℕ) (r : Row)
    → expected' < next
    → is_claimable id' expected' r ≡ true
    → stands id expected (claimed next r) ≡ true
    → stands id expected r ≡ true
unfolding stands at_most is_claimable
stands-claimed_of id id' expected expected' next r a c h = ground arith

stands-le :
    (id : Text) (expected : ℕ) (table : Table)
    → count (stands id expected) table ≤ count (has_id id) table
unfolding stands
stands-le id expected [] = omega arith
stands-le id expected (r ∷ rs) = ground (arith, stands-le id expected rs)

module _ (runtime : Runtime) (id : Text) (expected : ℕ) where
  granted_self :
      (id' : Text) (expected' next : ℕ) (table : Table)
      → expected' < next
      → id' ≡ id
      → expected' ≡ expected
      → granted runtime id expected (claiming id' expected' next) table
          + count (stands id expected) (claim_remind id' expected' next table).1
        ≤ count (stands id expected) table
  unfolding granted claim_remind
  granted_self id' expected' next table a e t =
      rw (e, t)
        (ground (
          arith,
          count-update_where_out (is_claimable id expected) (stands id expected) (claimed next)
              table (stands-claimable id expected)
              (λ r _. stands-claimed id expected next r (omega arith)),
          count-any (is_claimable id expected) table,
        ))

  granted_other :
      (id' : Text) (expected' next : ℕ) (table : Table)
      → expected' < next
      → (text_eq id' id && expected' == expected) ≡ false
      → granted runtime id expected (claiming id' expected' next) table
          + count (stands id expected) (claim_remind id' expected' next table).1
        ≤ count (stands id expected) table
  unfolding granted claim_remind
  granted_other id' expected' next table a other = ground (
    arith,
    count-update_where (is_claimable id' expected') (stands id expected) (claimed next) table
        (λ r. stands-claimed_of id id' expected expected' next r a),
  )

  -- Each granted claim uses up a row that stands, and no statement makes one.
  granted_step :
      (s : Statement) (table : Table)
      → Advances s
      → any (has_id id) table ≡ true
      → granted runtime id expected s table + count (stands id expected) (execute runtime s table)
        ≤ count (stands id expected) table
  unfolding execute granted
  granted_step (opening uuid now input) table a there =
      unfold open_pending in
      zero_add_le (
        insert_row-count id (stands id expected) (new_row uuid now input) input.subject table there
          (λ r h. unfold stands in ground arith))
  granted_step (claiming id' expected' next) table a there =
      elim (Bool-cases (text_eq id' id && expected' == expected)) [
        | inl same ↦
            let (same_id, same_instant) = and_parts (text_eq id' id) (expected' == expected) same in
            granted_self id' expected' next table a ((text_eq_iff id' id).0 same_id)
              ((==_iff expected' expected).0 same_instant)
        | inr other ↦ granted_other id' expected' next table a other
      ]
  granted_step (resolving id' answer by now) table a there =
      unfold resolve in
      zero_add_le (
        count-update_where (is_resolvable id') (stands id expected) (resolved answer by now) table
          (λ r _ h. unfold stands resolved in ground arith))
  granted_step (expiring now) table a there =
      unfold expire_due in
      zero_add_le (
        count-update_where (is_overdue now) (stands id expected) (closed_expired now) table
          (λ r _ h. unfold stands in ground arith))

  grants-le-stands :
      (statements : List Statement) (table : Table)
      → All Advances statements
      → any (has_id id) table ≡ true
      → grants runtime id expected statements table ≤ count (stands id expected) table
  unfolding grants
  grants-le-stands [] table a there = omega arith
  grants-le-stands (s ∷ rest) table (a, as') there = omega (
    arith,
    granted_step s table a there,
    grants-le-stands rest (execute runtime s table) as' (execute-has runtime id s table there),
  )

  -- Whatever statements all the instances send, and in whatever order, at most one of them is a
  -- granted claim of this reminder of this request, if the table satisfies its constraints and holds
  -- the request, and every claim moves its reminder forward.
  pub grants-le-one :
      (statements : List Statement) (table : Table)
      → IsValid table
      → any (has_id id) table ≡ true
      → All Advances statements
      → grants runtime id expected statements table ≤ 1
  grants-le-one statements table v there a =
      omega
        (arith, grants-le-stands statements table a there, stands-le id expected table, v.one_id id)
