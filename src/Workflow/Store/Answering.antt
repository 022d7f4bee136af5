-- ===== src/Workflow/Store/Answering.antt =====
-- What closing a request with an answer leaves in the table, and which request it returns (resolve of
-- src/workflows/store.ts).
use open_dilim.Prelude.{
  ℕ, ◌≡◌, refl, ap, ◌∙◌, Bool, false, ◌&&◌, ◌==◌, none, some, List, [], ◌∷◌, map, any, select,
  get_first, Bool-cases, Option-cases, inl, inr, if◌then◌else◌, arith,
}
use open_dilim.Prelude.Text.{Text, codes, text_eq, text_eq_iff}
use open_dilim.Prelude.Update.{update_where}
use open_dilim.Task.{ok, thrown, Failure}
use open_dilim.Workflow.Types.{text, object, end, field, PendingRequest}
use open_dilim.Workflow.Row.{Row, Runtime, to_request}
use open_dilim.Workflow.Store.{Table, json_concat, returning, resolve, resolved, resolved_row}
use open_dilim.Workflow.Store.Reading.{to_request-Mirrors}

-- The row of the request, while it is open.
abbrev pub is_asked : Text → Row → Bool
is_asked id r = text_eq r.approval_id id && r.status == 0

abbrev pub answered : Text → Text → ℕ → Row → Row
answered answer by now r = record r {
  status = 1;
  state_snapshot =
      json_concat r.state_snapshot
        (object (field (codes "answer") (text answer) (field (codes "answeredBy") (text by) end)));
  next_remind_at = none;
  resolved_at = some now;
}

-- The table with that row answered and all others as they were.
abbrev pub with_answered : Text → Text → Text → ℕ → Table → Table
with_answered id answer by now table =
    map (λ r. if is_asked id r then answered answer by now r else r) table

update_where-map :
    (p : Row → Bool) (f : Row → Row) (table : Table)
    → update_where p f table ≡ map (λ r. if p r then f r else r) table
unfolding update_where
update_where-map p f [] = refl
update_where-map p f (r ∷ rest) = ap (λ t. (if p r then f r else r) ∷ t) (update_where-map p f rest)

first-asked :
    (id : Text) (table : Table) (row : Row)
    → get_first (select (is_asked id) table) ≡ some row
    → row.approval_id ≡ id
first-asked id [] row e = cc
first-asked id (r ∷ rest) row e = elim (Bool-cases (is_asked id r)) [
  | inl hit ↦
      let same : r ≡ row = (let e' = rw hit at e in cc) in
      rw (← same) ((text_eq_iff r.approval_id id).0 (ground arith))
  | inr miss ↦ first-asked id rest row (rw miss at e)
]

any-none : (p : Row → Bool) (table : Table) → select p table ≡ [] → any p table ≡ false
any-none p [] e = refl
any-none p (r ∷ rest) e = elim (Bool-cases (p r)) [
  | inl hit ↦ (let never = rw hit at e in cc)
  | inr miss ↦ rw miss (any-none p rest (rw miss at e))
]

module _ (runtime : Runtime) (id answer by : Text) (now : ℕ) (table : Table) where
  pub resolve-table :
      (resolve runtime id answer by now table).1 ≡ with_answered id answer by now table
  unfolding resolve resolved
  resolve-table = update_where-map (is_asked id) (answered answer by now) table

  -- The request that is returned is read from the answered row, and has the id that was given.
  pub record IsReturned (request : PendingRequest) : Type 0 where
    pub row : Row
    pub asked : get_first (select (is_asked id) table) ≡ some row
    pub read : to_request runtime (returning (answered answer by now row)) ≡ some request
    pub same : request.id ≡ id

  returned :
      (rows : List Row) (request : PendingRequest)
      → select (is_asked id) table ≡ rows
      → (resolve runtime id answer by now table).0 ≡ ok (some request)
      → IsReturned request
  unfolding resolve resolved
  returned [] request e r = (let never = rw e at r in cc)
  returned (row ∷ rest) request e r =
      let r' : resolved_row runtime (answered answer by now row ∷ map (answered answer by now) rest)
            id
          ≡ ok (some request) =
        rw e at r in
      elim (Option-cases (to_request runtime (returning (answered answer by now row)))) [
        | inl broken ↦ (let never = rw (resolved_row, broken) at r' in cc)
        | inr (q, read) ↦
            let same : q ≡ request = (let r'' = rw (resolved_row, read) at r' in cc) in
            let read' = rw same at read in
            let first : get_first (select (is_asked id) table) ≡ some row = rw e refl in
            record {
              row = row;
              asked = first;
              read = read';
              same =
                  (to_request-Mirrors runtime (answered answer by now row) request read').id
                  ∙ first-asked id table row first;
            }
      ]

  pub resolve-IsReturned :
      (request : PendingRequest)
      → (resolve runtime id answer by now table).0 ≡ ok (some request)
      → IsReturned request
  resolve-IsReturned request = returned (select (is_asked id) table) request refl

  -- The call throws only if the row that it answered cannot be read.
  pub record IsBroken : Type 0 where
    pub row : Row
    pub asked : get_first (select (is_asked id) table) ≡ some row
    pub unread : to_request runtime (returning (answered answer by now row)) ≡ none

  broken_row :
      (rows : List Row) (x : Failure)
      → select (is_asked id) table ≡ rows
      → (resolve runtime id answer by now table).0 ≡ thrown x
      → IsBroken
  unfolding resolve resolved
  broken_row [] x e r = (let never = rw e at r in absurd cc)
  broken_row (row ∷ rest) x e r =
      let r' : resolved_row runtime (answered answer by now row ∷ map (answered answer by now) rest)
            id
          ≡ thrown x =
        rw e at r in
      elim (Option-cases (to_request runtime (returning (answered answer by now row)))) [
        | inl unread ↦ record { row = row; asked = rw e refl; unread = unread }
        | inr (q, read) ↦ (let never = rw (resolved_row, read) at r' in absurd cc)
      ]

  pub resolve-IsBroken :
      (x : Failure) → (resolve runtime id answer by now table).0 ≡ thrown x → IsBroken
  resolve-IsBroken x = broken_row (select (is_asked id) table) x refl

  none_asked :
      (rows : List Row)
      → select (is_asked id) table ≡ rows
      → (resolve runtime id answer by now table).0 ≡ ok none
      → any (is_asked id) table ≡ false
  unfolding resolve resolved
  none_asked [] e r = any-none (is_asked id) table e
  none_asked (row ∷ rest) e r =
      let r' : resolved_row runtime (answered answer by now row ∷ map (answered answer by now) rest)
            id
          ≡ ok none =
        rw e at r in
      elim (Option-cases (to_request runtime (returning (answered answer by now row)))) [
        | inl broken ↦ (let never = rw (resolved_row, broken) at r' in cc)
        | inr (q, read) ↦ (let never = rw (resolved_row, read) at r' in cc)
      ]

  -- No request is returned only if none is open with the id.
  pub resolve-none :
      (resolve runtime id answer by now table).0 ≡ ok none → any (is_asked id) table ≡ false
  resolve-none = none_asked (select (is_asked id) table) refl
