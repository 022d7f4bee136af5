-- ===== src/Scheduler/Cron/Validity.antt =====
-- What a cron expression that is read yields (parseCron of src/scheduler/schedule.ts).
use open_dilim.Prelude.{
  ℕ, subst, ◌%◌, ltb→lt, ◌||◌, zero, suc, ◌+◌, ◌≤◌, ◌<◌, ◌≡◌, refl, Bool, Option, none, some, List,
  [], ◌∷◌, map, arith, Bool-cases, inl, inr, ltb, leb, ◌==◌, All, is_some,
}
use open_dilim.Prelude.Text.{Text, trim}
use open_dilim.Prelude.Split.{split_on, split_spaces}
use open_dilim.Task.{Result, ok, thrown}
use open_dilim.Scheduler.Number.{integer_of_text}
use open_dilim.Scheduler.Cron.{
  ◌>>=◌, CronSpec, bounded, to_bounded, Range, ordered, range_of_bounds, parse_range, steps_from,
  steps, parse_step, stepped, part_of, parse_part, add_value, add_values, parse_parts, not_empty,
  parse_field, parse_fields, parse_cron,
}

abbrev pub Ascending : List ℕ → Type 0
Ascending [] = Unit
Ascending (x ∷ xs) = All (λ y. x < y) xs × Ascending xs

abbrev pub Within : ℕ → ℕ → ℕ → Type 0
Within least most v = (least ≤ v) × (v ≤ most)

-- The values of a field stand once each, in order, and in its bounds.
abbrev pub IsField : ℕ → ℕ → List ℕ → Type 0
IsField least most values = Ascending values × All (Within least most) values

>>=-ok :
    {A B : Type 0} (m : Result A) (f : A → Result B) (b : B)
    → (m >>= f) ≡ ok b
    → (a : A) × (m ≡ ok a) × (f a ≡ ok b)
>>=-ok (ok a) f b e = (a, refl, e)
>>=-ok (thrown x) f b e = cc

bounded-Within :
    (n : Option ℕ) (text : Text) (least most : ℕ) (src : Text) (v : ℕ)
    → bounded n text least most src ≡ ok v
    → Within least most v
unfolding bounded
bounded-Within none text least most src v e = cc
bounded-Within (some n) text least most src v e = elim (Bool-cases (ltb n least || ltb most n)) [
  | inl out ↦ cc
  | inr within ↦ ground arith
]

to_bounded-Within :
    (text : Text) (least most : ℕ) (src : Text) (v : ℕ)
    → to_bounded text least most src ≡ ok v
    → Within least most v
unfolding to_bounded
to_bounded-Within text least most src v e =
    bounded-Within (integer_of_text text) text least most src v e

abbrev InBounds : ℕ → ℕ → Range → Type 0
InBounds least most range = (least ≤ range.from) × (range.to ≤ most)

ordered-InBounds :
    (text src : Text) (least most from to : ℕ) (range : Range)
    → least ≤ from
    → to ≤ most
    → ordered text src from to ≡ ok range
    → InBounds least most range
unfolding ordered
ordered-InBounds text src least most from to range a b e = ground arith

range_of_bounds-InBounds :
    (bounds : List Text) (text : Text) (least most : ℕ) (src : Text) (has_step : Bool)
    (range : Range)
    → range_of_bounds bounds text least most src has_step ≡ ok range
    → InBounds least most range
unfolding range_of_bounds
range_of_bounds-InBounds [] text least most src has_step range e = cc
range_of_bounds-InBounds (a ∷ []) text least most src has_step range e =
    let (from, read, done) = >>=-ok (to_bounded a least most src) _ range e in
    let within = to_bounded-Within a least most src from read in ground arith
range_of_bounds-InBounds (a ∷ b ∷ []) text least most src has_step range e =
    let (from, read, done) = >>=-ok (to_bounded a least most src) _ range e in
    let (to, read', done') = >>=-ok (to_bounded b least most src) _ range done in
    ordered-InBounds text src least most from to range
      (to_bounded-Within a least most src from read).0
      (to_bounded-Within b least most src to read').1 done'
range_of_bounds-InBounds (a ∷ b ∷ c ∷ rest) text least most src has_step range e = cc

parse_range-InBounds :
    (text : Text) (least most : ℕ) (src : Text) (has_step : Bool) (range : Range)
    → parse_range text least most src has_step ≡ ok range
    → InBounds least most range
unfolding parse_range
parse_range-InBounds text least most src has_step range e =
    ground (arith, range_of_bounds-InBounds (split_on b'-' text) text least most src has_step range)

steps_from-Within :
    (rounds value to step least most : ℕ)
    → least ≤ value
    → to ≤ most
    → All (Within least most) (steps_from rounds value to step)
unfolding steps_from
steps_from-Within zero value to step least most a b = tt
steps_from-Within (suc rounds) value to step least most a b =
    let rest = steps_from-Within rounds (value + step) to step least most (omega arith) b in
    elim (Bool-cases (leb value to)) [ inl e ↦ rw e ((a, ground arith), rest) | inr e ↦ rw e tt ]

ok-injective : {A : Type 0} {a b : A} → ok a ≡ ok b → a ≡ b
ok-injective e = cc

steps-Within :
    (range : Range) (step least most : ℕ)
    → InBounds least most range
    → All (Within least most) (steps range step)
unfolding steps
steps-Within range step least most (a, b) =
    steps_from-Within (suc range.to) range.from range.to step least most a b

stepped-Within :
    (range_text : Text) (step_text : Option Text) (least most : ℕ) (src : Text) (values : List ℕ)
    → stepped range_text step_text least most src ≡ ok values
    → All (Within least most) values
unfolding stepped
stepped-Within range_text step_text least most src values e =
    let (step, _, done) = >>=-ok (parse_step step_text src) _ values e in
    let (range, read, done') =
      >>=-ok (parse_range range_text least most src (is_some step_text)) _ values done in
    subst (All (Within least most)) (ok-injective done') (
      steps-Within range step least most
        (parse_range-InBounds range_text least most src (is_some step_text) range read))

parse_part-Within :
    (part : Text) (least most : ℕ) (src : Text) (values : List ℕ)
    → parse_part part least most src ≡ ok values
    → All (Within least most) values
unfolding parse_part part_of
parse_part-Within part least most src values e = of_parts (split_on b'/' part) e
  where
    of_parts :
        (texts : List Text)
        → part_of texts part least most src ≡ ok values
        → All (Within least most) values
    of_parts [] h = cc
    of_parts (a ∷ []) h = stepped-Within a none least most src values h
    of_parts (a ∷ b ∷ []) h = stepped-Within a (some b) least most src values h
    of_parts (a ∷ b ∷ c ∷ rest) h = cc

add_value-All : (P : ℕ → Type 0) (v : ℕ) (set : List ℕ) → P v → All P set → All P (add_value v set)
unfolding add_value
add_value-All P v [] p h = (p, tt)
add_value-All P v (x ∷ xs) p (q, h) =
    let rest = add_value-All P v xs p h in
    elim (Bool-cases (ltb v x)) [
      | inl e ↦ rw e (p, (q, h))
      | inr e ↦ elim (Bool-cases (v == x)) [
        | inl s ↦ rw (e, s) (q, h)
        | inr s ↦ rw (e, s) (q, rest)
      ]
    ]

above : (x y : ℕ) (ys : List ℕ) → x < y → All (λ z. y < z) ys → All (λ z. x < z) ys
above x y [] h k = tt
above x y (z ∷ zs) h (p, k) = (omega arith, above x y zs h k)

add_value-Ascending : (v : ℕ) (set : List ℕ) → Ascending set → Ascending (add_value v set)
unfolding add_value
add_value-Ascending v [] h = (tt, tt)
add_value-Ascending v (x ∷ xs) (lower, h) =
    let rest = add_value-Ascending v xs h in
    elim (Bool-cases (ltb v x)) [
      | inl e ↦ let before = ltb→lt v x e in rw e ((before, above v x xs before lower), (lower, h))
      | inr e ↦ elim (Bool-cases (v == x)) [
        | inl s ↦ rw (e, s) (lower, h)
        | inr s ↦ rw (e, s) (add_value-All (λ y. x < y) v xs (ground arith) lower, rest)
      ]
    ]

add_values-IsField :
    (least most : ℕ) (values set : List ℕ)
    → All (Within least most) values
    → IsField least most set
    → IsField least most (add_values values set)
unfolding add_values
add_values-IsField least most [] set w h = h
add_values-IsField least most (v ∷ vs) set (p, w) (up, h) =
    add_values-IsField least most vs (add_value v set) w
      (add_value-Ascending v set up, add_value-All (Within least most) v set p h)

parse_parts-IsField :
    (parts : List Text) (set : List ℕ) (least most : ℕ) (src : Text) (values : List ℕ)
    → IsField least most set
    → parse_parts parts set least most src ≡ ok values
    → IsField least most values
unfolding parse_parts
parse_parts-IsField [] set least most src values h e = subst (IsField least most) (ok-injective e) h
parse_parts-IsField (part ∷ parts) set least most src values h e =
    let (vs, read, done) = >>=-ok (parse_part part least most src) _ values e in
    parse_parts-IsField parts (add_values vs set) least most src values
      (add_values-IsField least most vs set (parse_part-Within part least most src vs read) h) done

not_empty-same :
    (raw src : Text) (vs values : List ℕ) → not_empty raw src vs ≡ ok values → vs ≡ values
unfolding not_empty
not_empty-same raw src [] values e = cc
not_empty-same raw src (v ∷ vs) values e = ok-injective e

pub parse_field-IsField :
    (raw : Text) (least most : ℕ) (src : Text) (values : List ℕ)
    → parse_field raw least most src ≡ ok values
    → IsField least most values
unfolding parse_field
parse_field-IsField raw least most src values e =
    let (vs, read, done) = >>=-ok (parse_parts (split_on b',' raw) [] least most src) _ values e in
    subst (IsField least most) (not_empty-same raw src vs values done)
      (parse_parts-IsField (split_on b',' raw) [] least most src vs (tt, tt) read)

-- The fields are in order, each value once and in its bounds.
pub record IsValid (spec : CronSpec) : Type 0 where
  pub minute : IsField 0 59 spec.minute
  pub hour : IsField 0 23 spec.hour
  pub day_of_month : IsField 1 31 spec.day_of_month
  pub month : IsField 1 12 spec.month
  pub day_of_week : All (λ d. d < 7) spec.day_of_week

weekdays : (ds : List ℕ) → All (λ d. d < 7) (map (λ d. d % 7) ds)
weekdays [] = tt
weekdays (d ∷ ds) = (omega arith, weekdays ds)

parse_fields-IsValid :
    (fields : List Text) (expr : Text) (spec : CronSpec)
    → parse_fields fields expr ≡ ok spec
    → IsValid spec
unfolding parse_fields
parse_fields-IsValid (a ∷ b ∷ c ∷ d ∷ f ∷ []) expr spec e =
    let (minutes, read, e1) = >>=-ok (parse_field a 0 59 expr) _ spec e in
    let (hours, read1, e2) = >>=-ok (parse_field b 0 23 expr) _ spec e1 in
    let (days, read2, e3) = >>=-ok (parse_field c 1 31 expr) _ spec e2 in
    let (months, read3, e4) = >>=-ok (parse_field d 1 12 expr) _ spec e3 in
    let (week, read4, e5) = >>=-ok (parse_field f 0 7 expr) _ spec e4 in
    subst IsValid (ok-injective e5) (record {
      minute = parse_field-IsField a 0 59 expr minutes read;
      hour = parse_field-IsField b 0 23 expr hours read1;
      day_of_month = parse_field-IsField c 1 31 expr days read2;
      month = parse_field-IsField d 1 12 expr months read3;
      day_of_week = weekdays week;
    })
parse_fields-IsValid [] expr spec e = cc
parse_fields-IsValid (a ∷ []) expr spec e = cc
parse_fields-IsValid (a ∷ b ∷ []) expr spec e = cc
parse_fields-IsValid (a ∷ b ∷ c ∷ []) expr spec e = cc
parse_fields-IsValid (a ∷ b ∷ c ∷ d ∷ []) expr spec e = cc
parse_fields-IsValid (a ∷ b ∷ c ∷ d ∷ f ∷ g ∷ rest) expr spec e = cc

-- A cron expression that is read has its minutes, hours, days and months once each, in order and in
-- their bounds, and its weekdays from 0 to 6.
pub parse_cron-IsValid : (expr : Text) (spec : CronSpec) → parse_cron expr ≡ ok spec → IsValid spec
unfolding parse_cron
parse_cron-IsValid expr spec e = parse_fields-IsValid (split_spaces (trim expr)) expr spec e
