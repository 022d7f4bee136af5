-- ===== src/Scheduler/Cron/Values.antt =====
-- The values that a range with a step names (the loop of parsePart in src/scheduler/schedule.ts).
use open_dilim.Prelude.{
  ℕ, zero, suc, ◌+◌, ◌*◌, ◌≤◌, ◌<◌, ◌≡◌, refl, ◌↔◌, true, arith, Bool-cases, inl, inr, leb, leb→le,
  le→leb, ◌==◌, ==_iff,
}
use open_dilim.Scheduler.Cron.{Range, steps_from, steps}
use open_dilim.Scheduler.Next.{includes}
use open_dilim.Scheduler.Next.Days.{includes-none}

-- A value is a number of steps from the first one and not past the last.
abbrev pub IsStep : ℕ → ℕ → ℕ → ℕ → Type 0
IsStep from to step v = (k : ℕ) × (v ≡ from + k * step) × (v ≤ to)

includes-steps_from :
    (rounds from to step v : ℕ)
    → to < from + rounds
    → 1 ≤ step
    → IsStep from to step v
    → includes (steps_from rounds from to step) v ≡ true
unfolding includes steps_from
includes-steps_from zero from to step v enough positive (k, at, last) = absurd (omega arith)
includes-steps_from (suc rounds) from to step v enough positive (zero, at, last) =
    rw (le→leb from to (omega arith), (==_iff from v).1 (omega arith)) refl
includes-steps_from (suc rounds) from to step v enough positive (suc k, at, last) =
    let rest =
      includes-steps_from rounds (from + step) to step v (omega arith) positive
        (k, omega arith, last) in
    rw (le→leb from to (omega arith), rest) (ground arith)

steps_from-includes :
    (rounds from to step v : ℕ)
    → includes (steps_from rounds from to step) v ≡ true
    → IsStep from to step v
unfolding includes steps_from
steps_from-includes zero from to step v e = cc
steps_from-includes (suc rounds) from to step v e = elim (Bool-cases (leb from to)) [
  | inl fits ↦ elim (Bool-cases (from == v)) [
    | inl same ↦
        let at = (==_iff from v).0 same in
        let last = leb→le from to fits in (0, omega arith, omega arith)
    | inr other ↦
        let (k, at, last) =
          steps_from-includes rounds (from + step) to step v (rw (fits, other) at e) in
        (suc k, omega arith, last)
  ]
  | inr over ↦ absurd (includes-none v (rw over at e))
]

-- A range with a step from 1 on names exactly the values that are a number of steps from its first
-- one and not past its last.
pub steps-includes :
    (range : Range) (step v : ℕ)
    → 1 ≤ step
    → (includes (steps range step) v ≡ true) ↔ IsStep range.from range.to step v
unfolding steps
steps-includes range step v positive = (
  steps_from-includes (suc range.to) range.from range.to step v,
  includes-steps_from (suc range.to) range.from range.to step v (omega arith) positive,
)
