-- ===== src/Workflow/Queries/Lookup.antt =====
-- A request that was just opened is the one that is found (open and findOpen of SqlPendingStore,
-- src/workflows/store.ts).
use open_dilim.Prelude.{
  ℕ, ◌≡◌, Bool, true, false, none, some, [], ◌∷◌, ◌++◌, arith, Bool-cases, inl, inr, any, select,
  select-none, select-append,
}
use open_dilim.Prelude.Text.{Text, text_eq_refl}
use open_dilim.Task.{ok, thrown, unique_violation}
use open_dilim.Workflow.Types.{PendingRequest, subject_is}
use open_dilim.Workflow.Row.{Row, Runtime, to_request}
use open_dilim.Workflow.Store.{
  Table, OpenPendingInput, new_row, returning, is_open, conflicts, violates, insert_row,
  open_pending,
}
use open_dilim.Workflow.Queries.{find_open}

new_row-is_open :
    (uuid : Text) (now : ℕ) (input : OpenPendingInput) (subject : Text)
    → input.subject ≡ some subject
    → is_open input.workflow subject (new_row uuid now input) ≡ true
unfolding is_open new_row subject_is
new_row-is_open uuid now input subject e =
    rw e (ground (arith, text_eq_refl input.workflow, text_eq_refl subject))

select_new :
    (row : Row) (p : Row → Bool) (table : Table)
    → any p table ≡ false
    → p row ≡ true
    → select p (table ++ row ∷ []) ≡ row ∷ []
select_new row p table free hit =
    rw (select-append p table (row ∷ []), select-none p table free, hit)

module _ (runtime : Runtime) (uuid : Text) (now : ℕ) (input : OpenPendingInput)
    (table : Table) where
  abbrev row : Row
  row = new_row uuid now input

  -- The three outcomes of the INSERT.
  pub open_pending-conflict :
      conflicts input.workflow input.subject table ≡ true
      → open_pending runtime uuid now input table ≡ (ok none, table)
  unfolding open_pending insert_row
  open_pending-conflict hit = rw hit

  pub open_pending-violation :
      conflicts input.workflow input.subject table ≡ false
      → violates row table ≡ true
      → open_pending runtime uuid now input table ≡ (thrown unique_violation, table)
  unfolding open_pending insert_row
  open_pending-violation free broken = rw (free, broken)

  pub open_pending-inserted :
      conflicts input.workflow input.subject table ≡ false
      → violates row table ≡ false
      → open_pending runtime uuid now input table
        ≡ (ok (to_request runtime (returning row)), table ++ row ∷ [])
  unfolding open_pending insert_row
  open_pending-inserted free fine = rw (free, fine)

  module _ (subject : Text) (given : input.subject ≡ some subject) where
    find_open-inserted :
        conflicts input.workflow input.subject table ≡ false
        → find_open runtime input.workflow subject (table ++ row ∷ [])
          ≡ to_request runtime (returning row)
    unfolding find_open conflicts
    find_open-inserted free =
        let free' : any (is_open input.workflow subject) table ≡ false = rw given at free in
        rw (
          select_new row (is_open input.workflow subject) table free'
            (new_row-is_open uuid now input subject given))

    -- What INSERT returned is what the next lookup of the same workflow and subject returns.
    pub find_open-open_pending :
        (request : PendingRequest) (table' : Table)
        → open_pending runtime uuid now input table ≡ (ok (some request), table')
        → find_open runtime input.workflow subject table' ≡ some request
    find_open-open_pending request table' e =
        elim (Bool-cases (conflicts input.workflow input.subject table)) [
          | inl hit ↦ cc (open_pending-conflict hit)
          | inr free ↦ elim (Bool-cases (violates row table)) [
            | inl broken ↦ cc (open_pending-violation free broken)
            | inr fine ↦ cc (open_pending-inserted free fine, find_open-inserted free)
          ]
        ]
