-- ===== src/Workflow/Store/Uniqueness.antt =====
-- The constraints that every run of statements keeps.
use open_dilim.Prelude.{
  subst, ◌≤◌, ◌≡◌, refl, Bool, true, false, Option, none, some, List, [], ◌∷◌, ◌++◌, arith,
  Bool-cases, inl, inr, count, any, count-append, any-count,
}
use open_dilim.Prelude.Text.{Text, text_eq, text_eq_iff}
use open_dilim.Workflow.Types.{subject_is}
use open_dilim.Workflow.Row.{Row, Runtime}
use open_dilim.Workflow.Store.{
  Table, is_open, conflicts, violates, insert_row, update_where, new_row, open_pending,
  claim_remind, resolve, expire_due, is_claimable, claimed, is_resolvable, resolved, is_overdue,
  closed_expired,
}
use open_dilim.Workflow.Store.Opening.{has_id, has_key, violates-false}
use open_dilim.Prelude.Update.{update_where, count-update_where}
use open_dilim.Workflow.Store.Runs.{Statement, opening, claiming, resolving, expiring, execute, run}

-- One open request for each workflow and subject, one row for each id and each idempotency key.
pub record IsValid (table : Table) : Type 0 where
  pub one_open : (workflow subject : Text) → count (is_open workflow subject) table ≤ 1
  pub one_id : (id : Text) → count (has_id id) table ≤ 1
  pub one_key : (key : Text) → count (has_key key) table ≤ 1

-- An UPDATE that opens no row and leaves the keys alone keeps the constraints.
update_where-IsValid :
    (p : Row → Bool) (f : Row → Row)
    → ((w s : Text) (r : Row) → p r ≡ true → is_open w s (f r) ≡ true → is_open w s r ≡ true)
    → ((r : Row) → (f r).approval_id ≡ r.approval_id)
    → ((r : Row) → (f r).idempotency_key ≡ r.idempotency_key)
    → (table : Table) → IsValid table
    → IsValid (update_where p f table)
update_where-IsValid p f opens ids keys table v = record {
  one_open =
      λ w s. omega (arith, count-update_where p (is_open w s) f table (opens w s), v.one_open w s);
  one_id = λ id.
      omega
        (arith, count-update_where p (has_id id) f table (λ r _ h. rw (ids r) at h), v.one_id id);
  one_key = λ key. omega (
    arith,
    count-update_where p (has_key key) f table (λ r _ h. rw (keys r) at h),
    v.one_key key,
  );
}

-- A count that was zero for the key of the new row stays at most one for every key.
one_after_append :
    (key_of : Row → Text) (row : Row) (table : Table)
    → any (λ r. text_eq (key_of r) (key_of row)) table ≡ false
    → ((key : Text) → count (λ r. text_eq (key_of r) key) table ≤ 1)
    → (key : Text) → count (λ r. text_eq (key_of r) key) (table ++ row ∷ []) ≤ 1
one_after_append key_of row table fresh one key =
    rw (count-append (λ r. text_eq (key_of r) key) table (row ∷ []))
      elim (Bool-cases (text_eq (key_of row) key)) [
        | inl same ↦
            let e : key_of row ≡ key = (text_eq_iff (key_of row) key).0 same in
            let zero_before : count (λ r. text_eq (key_of r) key) table ≡ 0 =
              any-count (λ r. text_eq (key_of r) key) table (rw e at fresh) in
            rw (same, zero_before) (omega arith)
        | inr other ↦ rw other (omega (arith, one key))
      ]

conflicts-free :
    (row : Row) (subject : Option Text) (table : Table)
    → row.subject ≡ subject
    → conflicts row.workflow subject table ≡ false
    → (w s : Text) → is_open w s row ≡ true
    → any (is_open w s) table ≡ false
unfolding conflicts is_open subject_is
conflicts-free row none table e free w s h = ground arith
conflicts-free row (some t) table e free w s h =
    subst (λ u. any (is_open u s) table ≡ false) (workflow_eq)
      (subst (λ u. any (is_open row.workflow u) table ≡ false) (subject_eq) free)
  where
    workflow_eq : row.workflow ≡ w
    workflow_eq = (text_eq_iff row.workflow w).0 (ground arith)

    subject_eq : t ≡ s
    subject_eq = (text_eq_iff t s).0 (ground arith)

insert_row-IsValid :
    (row : Row) (subject : Option Text) (table : Table)
    → row.subject ≡ subject
    → IsValid table
    → IsValid (insert_row row subject table).1
unfolding insert_row
insert_row-IsValid row subject table e v =
    elim (Bool-cases (conflicts row.workflow subject table)) [
      | inl hit ↦ rw hit v
      | inr free ↦ elim (Bool-cases (violates row table)) [
        | inl broken ↦ rw (free, broken) v
        | inr fine ↦
            let (no_id, no_key) = violates-false row table fine in
            rw (free, fine)
              (record {
                one_open = λ w s. one_open_after w s free;
                one_id = one_after_append (λ r. r.approval_id) row table no_id v.one_id;
                one_key = one_after_append (λ r. r.idempotency_key) row table no_key v.one_key;
              })
      ]
    ]
  where
    one_open_after :
        (w s : Text)
        → conflicts row.workflow subject table ≡ false
        → count (is_open w s) (table ++ row ∷ []) ≤ 1
    one_open_after w s free =
        rw (count-append (is_open w s) table (row ∷ [])) elim (Bool-cases (is_open w s row)) [
          | inl opens ↦
              rw
                (
                  opens,
                  any-count (is_open w s) table (conflicts-free row subject table e free w s opens),
                )
                (omega arith)
          | inr shut ↦ rw shut (omega (arith, v.one_open w s))
        ]

module _ (runtime : Runtime) where
  -- Every statement keeps the constraints.
  pub execute-IsValid :
      (s : Statement) (table : Table) → IsValid table → IsValid (execute runtime s table)
  unfolding execute open_pending claim_remind resolve expire_due
  execute-IsValid (opening uuid now input) table v =
      insert_row-IsValid (new_row uuid now input) input.subject table (unfold new_row in refl) v
  execute-IsValid (claiming id expected next) table v =
      update_where-IsValid (is_claimable id expected) (claimed next)
        (λ w s r _ h. unfold is_open in h) (λ r. refl) (λ r. refl) table v
  execute-IsValid (resolving id answer by now) table v =
      update_where-IsValid (is_resolvable id) (resolved answer by now)
        (λ w s r _ h. unfold is_open resolved in cc) (λ r. unfold resolved in refl)
        (λ r. unfold resolved in refl) table v
  execute-IsValid (expiring now) table v =
      update_where-IsValid (is_overdue now) (closed_expired now) (λ w s r _ h. unfold is_open in cc)
        (λ r. refl) (λ r. refl) table v

  -- Whatever run of inserts, claims, resolutions and expirations is executed on a table with these
  -- constraints, the table that results has them too.
  pub run-IsValid :
      (statements : List Statement) (table : Table)
      → IsValid table
      → IsValid (run runtime statements table)
  unfolding run
  run-IsValid [] table v = v
  run-IsValid (s ∷ rest) table v =
      run-IsValid rest (execute runtime s table) (execute-IsValid s table v)
