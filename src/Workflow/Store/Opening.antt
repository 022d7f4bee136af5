-- ===== src/Workflow/Store/Opening.antt =====
-- What an INSERT does to the rows that are there (`open` of SqlPendingStore, src/workflows/store.ts).
use open_dilim.Prelude.{
  ◌≤◌, ◌≡◌, refl, Bool, true, false, Option, [], ◌∷◌, ◌++◌, arith, Bool-cases, inl, inr, count, any,
  count-append,
}
use open_dilim.Prelude.Text.{Text, text_eq, text_eq_iff}
use open_dilim.Workflow.Row.{Row, Runtime}
use open_dilim.Workflow.Store.{
  Table, conflicts, violates, insert_row, new_row, open_pending, claim_remind, resolve, expire_due,
  is_claimable, claimed, is_resolvable, resolved, is_overdue, closed_expired,
}
use open_dilim.Prelude.Update.{any-update_where_same}
use open_dilim.Workflow.Store.Runs.{Statement, opening, claiming, resolving, expiring, execute}

abbrev pub has_id : Text → Row → Bool
has_id id r = text_eq r.approval_id id

abbrev pub has_key : Text → Row → Bool
has_key key r = text_eq r.idempotency_key key

pub violates-false :
    (row : Row) (table : Table)
    → violates row table ≡ false
    → (any (has_id row.approval_id) table ≡ false)
      × (any (has_key row.idempotency_key) table ≡ false)
unfolding violates
violates-false row [] h = (refl, refl)
violates-false row (r ∷ rs) h = ground (arith, violates-false row rs)

-- The row of a request stays.
pub insert_row-count :
    (id : Text) (q : Row → Bool) (row : Row) (subject : Option Text) (table : Table)
    → any (has_id id) table ≡ true
    → ((r : Row) → q r ≡ true → has_id id r ≡ true)
    → count q (insert_row row subject table).1 ≤ count q table
unfolding insert_row
insert_row-count id q row subject table there within =
    elim (Bool-cases (conflicts row.workflow subject table)) [
      | inl hit ↦ rw hit (omega arith)
      | inr free ↦ elim (Bool-cases (violates row table)) [
        | inl broken ↦ rw (free, broken) (omega arith)
        | inr fine ↦
            rw (free, fine)
              elim (Bool-cases (q row)) [
                | inl hit ↦
                    let e : row.approval_id ≡ id =
                      (text_eq_iff row.approval_id id).0 (within row hit) in
                    absurd (clash (rw e at (violates-false row table fine).0))
                | inr miss ↦ rw (count-append q table (row ∷ []), miss) (omega arith)
              ]
      ]
    ]
  where
    clash : any (has_id id) table ≡ false → ⊥
    clash h = cc

pub insert_row-has :
    (id : Text) (row : Row) (subject : Option Text) (table : Table)
    → any (has_id id) table ≡ true
    → any (has_id id) (insert_row row subject table).1 ≡ true
unfolding insert_row
insert_row-has id row subject table there =
    elim (Bool-cases (conflicts row.workflow subject table)) [
      | inl hit ↦ rw hit there
      | inr free ↦ elim (Bool-cases (violates row table)) [
        | inl broken ↦ rw (free, broken) there
        | inr fine ↦ rw (free, fine) (any-append table there)
      ]
    ]
  where
    any-append : (t : Table) → any (has_id id) t ≡ true → any (has_id id) (t ++ row ∷ []) ≡ true
    any-append [] h = cc
    any-append (r ∷ rs) h = ground (arith, any-append rs)

module _ (runtime : Runtime) (id : Text) where
  pub execute-has :
      (s : Statement) (table : Table)
      → any (has_id id) table ≡ true
      → any (has_id id) (execute runtime s table) ≡ true
  unfolding execute open_pending claim_remind resolve expire_due resolved
  execute-has (opening uuid now input) table h =
      insert_row-has id (new_row uuid now input) input.subject table h
  execute-has (claiming id' expected next) table h =
      rw
        (any-update_where_same (is_claimable id' expected) (has_id id) (claimed next) table
          (λ r. refl))
        h
  execute-has (resolving id' answer by now) table h =
      rw
        (any-update_where_same (is_resolvable id') (has_id id) (resolved answer by now) table
          (λ r. refl))
        h
  execute-has (expiring now) table h =
      rw (any-update_where_same (is_overdue now) (has_id id) (closed_expired now) table (λ r. refl))
        h
