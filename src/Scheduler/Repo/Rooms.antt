-- ===== src/Scheduler/Repo/Rooms.antt =====
-- A room manages its own jobs only (update, setEnabled and remove of SqlJobRepo,
-- src/scheduler/repo.ts).
use open_dilim.Prelude.Update.{update_where}
use open_dilim.Prelude.{
  ℕ, ◌≡◌, refl, Bool, true, false, not, Option, [], ◌∷◌, arith, Bool-cases, inl, inr, select,
}
use open_dilim.Prelude.Text.{Text}
use open_dilim.Scheduler.Repo.{
  Table, Job, is_in_room, is_named, is_switched, update, updated, set_enabled, switched, remove,
}

abbrev pub elsewhere : Text → Text → Job → Bool
elsewhere channel target j = not (is_in_room channel target j)

untouched :
    (p q : Job → Bool) (f : Job → Job) (table : Table)
    → ((j : Job) → q j ≡ true → p j ≡ false)
    → ((j : Job) → q j ≡ false → q (f j) ≡ false)
    → select q (update_where p f table) ≡ select q table
unfolding update_where
untouched p q f [] apart stays = refl
untouched p q f (j ∷ js) apart stays =
    let rest = untouched p q f js apart stays in
    elim (Bool-cases (q j)) [
      | inl e ↦ rw (apart j e, e, rest)
      | inr e ↦ elim (Bool-cases (p j)) [
        | inl hit ↦ rw (hit, stays j e, e) rest
        | inr miss ↦ rw (miss, e) rest
      ]
    ]

select-keeps :
    (p q : Job → Bool) (table : Table)
    → ((j : Job) → q j ≡ true → p j ≡ true)
    → select q (select p table) ≡ select q table
select-keeps p q [] keeps = refl
select-keeps p q (j ∷ js) keeps =
    let rest = select-keeps p q js keeps in
    elim (Bool-cases (q j)) [
      | inl e ↦ rw (keeps j e, e, rest)
      | inr e ↦ elim (Bool-cases (p j)) [
        | inl hit ↦ rw (hit, e) rest
        | inr miss ↦ rw (miss, e) rest
      ]
    ]

module _ (channel target : Text) where
  named_here :
      (short_id : Text) (j : Job)
      → elsewhere channel target j ≡ true
      → is_named channel target short_id j ≡ false
  unfolding is_named
  named_here short_id j h = ground arith

  switched_here :
      (short_id : Text) (enabled : Bool) (j : Job)
      → elsewhere channel target j ≡ true
      → is_switched channel target short_id enabled j ≡ false
  unfolding is_switched
  switched_here short_id enabled j h = rw (named_here short_id j h)

  -- Whatever a room updates, switches on or off, or removes, the jobs of all other rooms stay as they
  -- are.
  pub room-elsewhere :
      (short_id : Text) (schedule task : Option Text) (enabled : Bool) (now : ℕ) (table : Table)
      → (select
            (elsewhere channel target)
            (update channel target short_id schedule task now table).1
          ≡ select (elsewhere channel target) table)
        × (select
              (elsewhere channel target)
              (set_enabled channel target short_id enabled now table).1
            ≡ select (elsewhere channel target) table)
        × (select (elsewhere channel target) (remove channel target short_id table).1
            ≡ select (elsewhere channel target) table)
  unfolding update set_enabled remove
  room-elsewhere short_id schedule task enabled now table = (
    untouched (is_named channel target short_id) (elsewhere channel target)
        (updated schedule task now) table (named_here short_id)
        (λ j h. unfold updated is_in_room in h),
    untouched (is_switched channel target short_id enabled) (elsewhere channel target)
        (switched enabled now) table (switched_here short_id enabled)
        (λ j h. unfold is_in_room in h),
    select-keeps (λ j. not (is_named channel target short_id j)) (elsewhere channel target) table
        (λ j h. rw (named_here short_id j h)),
  )
