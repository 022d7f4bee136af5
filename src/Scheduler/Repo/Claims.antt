-- ===== src/Scheduler/Repo/Claims.antt =====
-- A run of a job is claimed once (`claim` of SqlJobRepo, src/scheduler/repo.ts), whatever statements
-- the instances and the rooms send in between.
use open_dilim.Prelude.Update.{count-update_where, count-update_where_out}
use open_dilim.Prelude.{
  zero_add_le, ℕ, ◌+◌, ◌≤◌, ◌<◌, ◌≡◌, Bool, true, false, not, ◌&&◌, Option, none, some, List, [],
  ◌∷◌, arith, Bool-cases, inl, inr, if◌then◌else◌, count, select, count-append, count-any, All,
  ◌==◌, and_parts,
}
use open_dilim.Prelude.Text.{Text, text_eq, text_eq_iff}
use open_dilim.Scheduler.Repo.{
  Table, Job, ClaimInput, CreateInput, claim, is_claimable, claimed, create, created, update,
  updated, set_enabled, switched, remove, is_named, is_switched,
}

-- Every statement that writes to the table, with the database's clock.
pub data Statement : Type 0 where
  claiming : ClaimInput → ℕ → Statement
  creating : CreateInput → ℕ → Statement
  updating : Text → Text → Text → Option Text → Option Text → ℕ → Statement
  switching : Text → Text → Text → Bool → ℕ → Statement
  removing : Text → Text → Text → Statement

unfoldable pub execute : Statement → Table → Table
execute (claiming input now) table = (claim input now table).1
execute (creating input now) table = (create input now table).1
execute (updating channel target short_id schedule task now) table =
    (update channel target short_id schedule task now table).1
execute (switching channel target short_id enabled now) table =
    (set_enabled channel target short_id enabled now table).1
execute (removing channel target short_id) table = (remove channel target short_id table).1

abbrev pub is_instant : Option ℕ → ℕ → Bool
is_instant none t = false
is_instant (some u) t = u == t

-- How many of the statements are claims of one run that were granted.
unfoldable pub granted : Text → ℕ → Statement → Table → ℕ
granted id t (claiming input now) table =
    if text_eq input.id id && is_instant input.expected t && (claim input now table).0 then 1 else 0
granted id t _ table = 0

unfoldable pub grants : Text → ℕ → List Statement → Table → ℕ
unfolding granted execute
grants id t [] table = 0
grants id t (s ∷ rest) table = granted id t s table + grants id t rest (execute s table)

-- A claim moves the job past the instant, as every claim does that is made once it has come.
abbrev pub MovesPast : ℕ → Statement → Type 0
MovesPast t (claiming input now) = t < input.next
MovesPast t _ = Unit {0}

-- The job stands at the run.
unfoldable pub stands : Text → ℕ → Job → Bool
stands id t j = text_eq j.id id && is_instant j.next_run_at t

count-select : (p q : Job → Bool) (table : Table) → count q (select p table) ≤ count q table
count-select p q [] = omega arith
count-select p q (j ∷ js) = ground (arith, count-select p q js)

module _ (id : Text) (t : ℕ) where
  into_stands :
      (input : ClaimInput)
      → text_eq input.id id ≡ true
      → is_instant input.expected t ≡ true
      → (j : Job) → is_claimable input j ≡ true
      → stands id t j ≡ true
  unfolding is_claimable stands
  into_stands input same at j h =
      let e : input.id ≡ id = (text_eq_iff input.id id).0 same in let h' = rw e at h in ground arith

  moved_out :
      (input : ClaimInput) (now : ℕ)
      → t < input.next
      → (j : Job) → stands id t (claimed input now j) ≡ false
  unfolding claimed stands
  moved_out input now past j = ground arith

  claim_step :
      (input : ClaimInput) (now : ℕ) (table : Table)
      → t < input.next
      → granted id t (claiming input now) table + count (stands id t) (claim input now table).1
        ≤ count (stands id t) table
  unfolding granted claim
  claim_step input now table past =
      elim (Bool-cases (text_eq input.id id && is_instant input.expected t)) [
        | inl same ↦
            let (same_id, at) =
              and_parts (text_eq input.id id) (is_instant input.expected t) same in
            rw (same_id, at)
              (ground (
                arith,
                count-update_where_out (is_claimable input) (stands id t) (claimed input now) table
                    (into_stands input same_id at) (λ j _. moved_out input now past j),
                count-any (is_claimable input) table,
              ))
        | inr other ↦ ground (
          arith,
          count-update_where (is_claimable input) (stands id t) (claimed input now) table
              (λ j _ h. absurd (never j h)),
        )
      ]
    where
      never : (j : Job) → stands id t (claimed input now j) ≡ true → ⊥
      never j h = cc (moved_out input now past j)

  -- Each granted claim uses up a row that stands at the run, and no statement makes one.
  granted_step :
      (s : Statement) (table : Table)
      → MovesPast t s
      → granted id t s table + count (stands id t) (execute s table) ≤ count (stands id t) table
  unfolding execute granted
  granted_step (claiming input now) table past = claim_step input now table past
  granted_step (creating input now) table past =
      unfold create stands in
      ground (arith, count-append (stands id t) table (created input now ∷ []))
  granted_step (updating channel target short_id schedule task now) table past =
      unfold update in
      zero_add_le (
        count-update_where (is_named channel target short_id) (stands id t)
          (updated schedule task now) table (λ j _ h. unfold updated stands in ground arith))
  granted_step (switching channel target short_id enabled now) table past =
      unfold set_enabled in
      zero_add_le (
        count-update_where (is_switched channel target short_id enabled) (stands id t)
          (switched enabled now) table (λ j _ h. unfold stands in ground arith))
  granted_step (removing channel target short_id) table past =
      unfold remove in
      zero_add_le (count-select (λ j. not (is_named channel target short_id j)) (stands id t) table)

  grants-le-stands :
      (statements : List Statement) (table : Table)
      → All (MovesPast t) statements
      → grants id t statements table ≤ count (stands id t) table
  unfolding grants
  grants-le-stands [] table a = omega arith
  grants-le-stands (s ∷ rest) table (p, a) =
      omega (arith, granted_step s table p, grants-le-stands rest (execute s table) a)

  stands-le : (table : Table) → count (stands id t) table ≤ count (λ j. text_eq j.id id) table
  unfolding stands
  stands-le [] = omega arith
  stands-le (j ∷ js) = ground (arith, stands-le js)

  -- Whatever statements the instances and the rooms send, and in whatever order, at most one of them
  -- is a granted claim of this run of this job, if every claim moves its job past that run and the
  -- table holds the id of the job once at most.
  pub claims-le-one :
      (statements : List Statement) (table : Table)
      → count (λ j. text_eq j.id id) table ≤ 1
      → All (MovesPast t) statements
      → grants id t statements table ≤ 1
  claims-le-one statements table one a =
      omega (arith, grants-le-stands statements table a, stands-le table)
