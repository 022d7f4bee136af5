-- ===== src/Scheduler/Next/Days.antt =====
-- The searches of nextRunAfter (src/scheduler/schedule.ts) find the least candidate.
use open_dilim.Prelude.{
  ℕ, zero, suc, ◌+◌, ◌*◌, ◌≤◌, ◌<◌, ◌≡◌, refl, ap, subst, ◌⊎◌, inl, inr, true, Option, none, some,
  List, [], ◌∷◌, arith, Bool-cases, ltb, ◌==◌, ==_iff, All,
}
use open_dilim.Scheduler.Calendar.{ms_per_minute, ms_per_hour, ms_per_day, utc_day, civil_of_day}
use open_dilim.Scheduler.Calendar.RoundTrip.{utc_day-civil_of_day}
use open_dilim.Scheduler.Cron.{CronSpec}
use open_dilim.Scheduler.Cron.Validity.{Ascending, Within, IsField}
use open_dilim.Scheduler.Next.{
  includes, matches_day, first_minute, or_later, first_hour, start_of_day, search_days,
}

-- The result of a search: the least number with a property, or none as there is no such number.
abbrev pub Least : (ℕ → Type 0) → Option ℕ → Type 0
Least P none = (s : ℕ) → P s → ⊥
Least P (some t) = P t × ((s : ℕ) → P s → t ≤ s)

pub Least-iff :
    (P Q : ℕ → Type 0)
    → ((s : ℕ) → P s → Q s)
    → ((s : ℕ) → Q s → P s)
    → (o : Option ℕ) → Least P o
    → Least Q o
Least-iff P Q to from none h = λ s q. h s (from s q)
Least-iff P Q to from (some t) (p, h) = (to t p, λ s q. h s (from s q))

-- A search followed by another one whose numbers are no less.
or_later-Least :
    (P Q : ℕ → Type 0)
    → ((s t : ℕ) → P s → Q t → s ≤ t)
    → (a b : Option ℕ) → Least P a
    → Least Q b
    → Least (λ s. P s ⊎ Q s) (or_later a b)
or_later-Least P Q before none none h k = λ s e. elim e [ inl p ↦ h s p | inr q ↦ k s q ]
or_later-Least P Q before none (some t) h (q, k) =
    (inr q, λ s e. elim e [ inl p ↦ absurd (h s p) | inr q' ↦ k s q' ])
or_later-Least P Q before (some t) b (p, h) k =
    (inl p, λ s e. elim e [ inl p' ↦ h s p' | inr q ↦ before t s p q ])

pub includes-All :
    (P : ℕ → Type 0) (values : List ℕ) (v : ℕ) → All P values → includes values v ≡ true → P v
unfolding includes
includes-All P [] v h e = cc
includes-All P (x ∷ xs) v (p, h) e = elim (Bool-cases (x == v)) [
  | inl s ↦ subst P ((==_iff x v).0 s) p
  | inr s ↦ includes-All P xs v h (rw s at e)
]

abbrev pub AtMinute : ℕ → ℕ → List ℕ → ℕ → Type 0
AtMinute hour_start from minutes s =
    (m : ℕ) × (includes minutes m ≡ true) × (s ≡ hour_start + m * ms_per_minute) × (from ≤ s)

includes-head : (x : ℕ) (xs : List ℕ) → includes (x ∷ xs) x ≡ true
unfolding includes
includes-head x xs = ground arith

includes-tail : (x v : ℕ) (xs : List ℕ) → includes xs v ≡ true → includes (x ∷ xs) v ≡ true
unfolding includes
includes-tail x v xs h = ground arith

includes-cases :
    (x v : ℕ) (xs : List ℕ) → includes (x ∷ xs) v ≡ true → (v ≡ x) ⊎ (includes xs v ≡ true)
unfolding includes
includes-cases x v xs h = ground arith

pub includes-none : (v : ℕ) → includes [] v ≡ true → ⊥
unfolding includes
includes-none v h = cc

pub first_minute-Least :
    (hour_start from : ℕ) (minutes : List ℕ)
    → Ascending minutes
    → Least (AtMinute hour_start from minutes) (first_minute hour_start from minutes)
unfolding first_minute
first_minute-Least hour_start from [] up = λ s (m, i, _, _). includes-none m i
first_minute-Least hour_start from (x ∷ xs) (lower, up) =
    let rest = first_minute-Least hour_start from xs up in
    elim (Bool-cases (ltb (hour_start + x * ms_per_minute) from)) [
      | inl e ↦ rw e (
          Least-iff (AtMinute hour_start from xs) (AtMinute hour_start from (x ∷ xs))
            (λ s (m, i, at, late). (m, includes-tail x m xs i, at, late))
            (λ s (m, i, at, late). elim (includes-cases x m xs i) [
              | inl same ↦ absurd (ground arith)
              | inr i' ↦ (m, i', at, late)
            ])
            _ rest)
      | inr e ↦ rw e (
        (x, includes-head x xs, refl, ground arith),
        λ s (m, i, at, late). elim (includes-cases x m xs i) [
          | inl same ↦ omega arith
          | inr i' ↦ let before = includes-All (λ y. x < y) xs m lower i' in omega arith
        ],
      )
    ]

abbrev pub AtHour : ℕ → ℕ → List ℕ → List ℕ → ℕ → Type 0
AtHour day_start from hours minutes s =
    (h : ℕ) × (includes hours h ≡ true) × AtMinute (day_start + h * ms_per_hour) from minutes s

pub first_hour-Least :
    (day_start from : ℕ) (hours minutes : List ℕ)
    → Ascending hours
    → IsField 0 59 minutes
    → Least (AtHour day_start from hours minutes) (first_hour day_start from hours minutes)
unfolding first_hour
first_hour-Least day_start from [] minutes up fine = λ s (h, i, _). includes-none h i
first_hour-Least day_start from (x ∷ xs) minutes (lower, up) (ascending, within) =
    Least-iff
      (λ s.
        AtMinute (day_start + x * ms_per_hour) from minutes s ⊎ AtHour day_start from xs minutes s)
      (AtHour day_start from (x ∷ xs) minutes)
      (λ s e. elim e [
        | inl at ↦ (x, includes-head x xs, at)
        | inr (h, i, at) ↦ (h, includes-tail x h xs i, at)
      ])
      (λ s (h, i, at). elim (includes-cases x h xs i) [
        | inl same ↦ inl (rw same at at)
        | inr i' ↦ inr (h, i', at)
      ])
      _
      (or_later-Least (AtMinute (day_start + x * ms_per_hour) from minutes)
        (AtHour day_start from xs minutes)
        (λ s t (m, i, at, _) (h, j, (m', i', at', _)).
          let before = includes-All (λ y. x < y) xs h lower j in
          let small = includes-All (Within 0 59) minutes m within i in omega arith)
        _ _ (first_minute-Least (day_start + x * ms_per_hour) from minutes ascending)
        (first_hour-Least day_start from xs minutes up (ascending, within)))

module _ (spec : CronSpec) (from first_day : ℕ) (hours : IsField 0 23 spec.hour)
    (minutes : IsField 0 59 spec.minute) where
  abbrev AtTime : ℕ → ℕ → Type 0
  AtTime day s = AtHour (day * ms_per_day) from spec.hour spec.minute s

  -- A candidate on one of the days from `ahead` on.
  abbrev pub OnDay : ℕ → ℕ → ℕ → Type 0
  OnDay ahead rounds s =
      (k : ℕ) × (ahead ≤ k)
      × (k < ahead + rounds)
      × (matches_day spec (first_day + k) ≡ true)
      × AtTime (first_day + k) s

  day_ahead :
      (k : ℕ)
      → utc_day
          (civil_of_day first_day).year
          (civil_of_day first_day).month
          ((civil_of_day first_day).date + k)
        ≡ first_day + k
  unfolding utc_day
  day_ahead k = let ((_, one, _), same) = utc_day-civil_of_day first_day in omega arith

  day_start : (day : ℕ) → start_of_day day ≡ day * ms_per_day
  unfolding start_of_day
  day_start day = ap (λ d. d * ms_per_day) (utc_day-civil_of_day day).1

  next_day : (ahead rounds s : ℕ) → OnDay (suc ahead) rounds s → OnDay ahead (suc rounds) s
  next_day ahead rounds s (k, a, b, hit, at) = (k, omega arith, omega arith, hit, at)

  split_first :
      (ahead rounds s : ℕ)
      → OnDay ahead (suc rounds) s
      → ((matches_day spec (first_day + ahead) ≡ true) × AtTime (first_day + ahead) s)
        ⊎ OnDay (suc ahead) rounds s
  split_first ahead rounds s (k, a, b, hit, at) = elim (Bool-cases (k == ahead)) [
    | inl e ↦ let same : k ≡ ahead = (==_iff k ahead).0 e in inl (rw same at hit, rw same at at)
    | inr e ↦ inr (k, ground arith, omega arith, hit, at)
  ]

  earlier_day :
      (ahead rounds s t : ℕ) → AtTime (first_day + ahead) s → OnDay (suc ahead) rounds t → s ≤ t
  earlier_day ahead rounds s t (h, i, (m, j, at, _)) (k, a, b, hit, (h', i', (m', j', at', _))) =
      let hour = includes-All (Within 0 23) spec.hour h hours.1 i in
      let minute = includes-All (Within 0 59) spec.minute m minutes.1 j in omega arith

  pub search_days-Least :
      (ahead rounds : ℕ)
      → Least (OnDay ahead rounds) (search_days spec from (civil_of_day first_day) ahead rounds)
  unfolding search_days
  search_days-Least ahead zero = λ s (k, a, b, _, _). omega arith
  search_days-Least ahead (suc rounds) =
      let rest = search_days-Least (suc ahead) rounds in
      rw (day_ahead ahead, day_start (first_day + ahead))
        elim (Bool-cases (matches_day spec (first_day + ahead))) [
          | inl hit ↦ rw hit (
              Least-iff (λ s. AtTime (first_day + ahead) s ⊎ OnDay (suc ahead) rounds s)
                (OnDay ahead (suc rounds))
                (λ s e. elim e [
                  | inl at ↦ (ahead, omega arith, omega arith, hit, at)
                  | inr on ↦ next_day ahead rounds s on
                ])
                (λ s on. elim (split_first ahead rounds s on) [
                  | inl (_, at) ↦ inl at
                  | inr later ↦ inr later
                ])
                _
                (or_later-Least (AtTime (first_day + ahead)) (OnDay (suc ahead) rounds)
                  (earlier_day ahead rounds) _ _
                  (first_hour-Least ((first_day + ahead) * ms_per_day) from spec.hour spec.minute
                    hours.0 minutes)
                  rest))
          | inr miss ↦ rw miss (
              Least-iff (OnDay (suc ahead) rounds) (OnDay ahead (suc rounds))
                (next_day ahead rounds)
                (λ s on. elim (split_first ahead rounds s on) [
                  | inl (hit, _) ↦ cc
                  | inr later ↦ later
                ])
                _ rest)
        ]
