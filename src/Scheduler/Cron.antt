-- ===== src/Scheduler/Cron.antt =====
-- Reading a cron expression (parseCron, parseField, parsePart, parseRange and toBounded of
-- src/scheduler/schedule.ts). Each `throw new Error(…)` is a thrown failure with its message.
pub mod Validity
pub mod Values
use open_dilim.Prelude.{
  ℕ, zero, suc, ◌+◌, ◌-◌, ◌%◌, Bool, true, false, ◌||◌, Option, none, some, List, [], ◌∷◌, ◌++◌,
  map, ltb, leb, ◌==◌, if◌then◌else◌, is_some,
}
use open_dilim.Prelude.Text.{Text, codes, text_eq, trim}
use open_dilim.Prelude.Split.{split_on, split_spaces}
use open_dilim.Prelude.Decimal.{show}
use open_dilim.Task.{Result, ok, thrown, Failure, error}
use open_dilim.Scheduler.Number.{integer_of_text}

infixl 5 ◌>>=◌
abbrev pub ◌>>=◌ : {A B : Type 0} → Result A → (A → Result B) → Result B
thrown e >>= f = thrown e
ok a >>= f = f a

-- `CronSpec`: the values of each field, and whether a day field is `*`.
pub record CronSpec : Type 0 where
  pub minute : List ℕ
  pub hour : List ℕ
  pub day_of_month : List ℕ
  pub month : List ℕ
  pub day_of_week : List ℕ
  pub dom_unrestricted : Bool
  pub dow_unrestricted : Bool

abbrev quoted : Text → Text
quoted t = b'"' ∷ t ++ b'"' ∷ []

abbrev pub cron_error : Text → Text → Failure
cron_error src detail = error (codes "Cron " ++ quoted src ++ detail)

abbrev star : Text
star = codes "*"

pub outside : Text → ℕ → ℕ → Text → Failure
outside text least most src = cron_error src (
    codes ": giá trị "
    ++ quoted text
    ++ codes " ngoài khoảng "
    ++ show least
    ++ b'-' ∷ show most
    ++ codes ".")

bounded : Option ℕ → Text → ℕ → ℕ → Text → Result ℕ
bounded none text least most src = thrown (outside text least most src)
bounded (some value) text least most src =
    if ltb value least || ltb most value then thrown (outside text least most src) else ok value

to_bounded : Text → ℕ → ℕ → Text → Result ℕ
unfolding integer_of_text bounded
to_bounded text least most src = bounded (integer_of_text text) text least most src

pub record Range : Type 0 where
  pub from : ℕ
  pub to : ℕ

ordered : Text → Text → ℕ → ℕ → Result Range
ordered text src from to =
    if ltb to from
    then thrown (
        cron_error src (codes ": khoảng " ++ quoted text ++ codes " có cận trên nhỏ hơn cận dưới."))
    else ok (record { from = from; to = to })

-- A single value is that value, and with a step all from it on.
range_of_bounds : List Text → Text → ℕ → ℕ → Text → Bool → Result Range
unfolding to_bounded ordered
range_of_bounds (from_text ∷ []) text least most src has_step = do
  from ← to_bounded from_text least most src
  ok (record { from = from; to = if has_step then most else from })
range_of_bounds (from_text ∷ to_text ∷ []) text least most src has_step = do
  from ← to_bounded from_text least most src
  to ← to_bounded to_text least most src
  ordered text src from to
range_of_bounds _ text least most src has_step =
    thrown (cron_error src (codes ": khoảng " ++ quoted text ++ codes " sai cú pháp."))

parse_range : Text → ℕ → ℕ → Text → Bool → Result Range
unfolding range_of_bounds split_on text_eq
parse_range text least most src has_step =
    if text_eq text star
    then ok (record { from = least; to = most })
    else range_of_bounds (split_on b'-' text) text least most src has_step

-- `for (value = from; value <= to; value += step)`; the step is at least 1, so `to + 1` rounds are
-- enough.
steps_from : ℕ → ℕ → ℕ → ℕ → List ℕ
steps_from zero value to step = []
steps_from (suc rounds) value to step =
    let rest = steps_from rounds (value + step) to step in if leb value to then value ∷ rest else []

unfoldable pub steps : Range → ℕ → List ℕ
unfolding steps_from
steps range step = steps_from (suc range.to) range.from range.to step

pub not_positive : Text → Text → Failure
not_positive text src =
    cron_error src (codes ": bước \"/" ++ text ++ codes "\" phải là số nguyên dương.")

positive : Option ℕ → Text → Text → Result ℕ
positive none text src = thrown (not_positive text src)
positive (some step) text src = if step == 0 then thrown (not_positive text src) else ok step

parse_step : Option Text → Text → Result ℕ
unfolding integer_of_text positive
parse_step none src = ok 1
parse_step (some text) src = positive (integer_of_text text) text src

stepped : Text → Option Text → ℕ → ℕ → Text → Result (List ℕ)
unfolding parse_step parse_range steps
stepped range_text step_text least most src = do
  step ← parse_step step_text src
  range ← parse_range range_text least most src (is_some step_text)
  ok (steps range step)

part_of : List Text → Text → ℕ → ℕ → Text → Result (List ℕ)
unfolding stepped
part_of (range_text ∷ []) part least most src = stepped range_text none least most src
part_of (range_text ∷ step_text ∷ []) part least most src =
    stepped range_text (some step_text) least most src
part_of _ part least most src =
    thrown (cron_error src (codes ": phần " ++ quoted part ++ codes " sai cú pháp."))

unfoldable pub parse_part : Text → ℕ → ℕ → Text → Result (List ℕ)
unfolding part_of split_on
parse_part part least most src = part_of (split_on b'/' part) part least most src

-- `values.add`, with the set kept in ascending order, as it is returned.
unfoldable pub add_value : ℕ → List ℕ → List ℕ
add_value value [] = value ∷ []
add_value value (x ∷ xs) =
    let later = add_value value xs in
    if ltb value x then value ∷ x ∷ xs else if value == x then x ∷ xs else x ∷ later

unfoldable pub add_values : List ℕ → List ℕ → List ℕ
unfolding add_value
add_values [] set = set
add_values (value ∷ values) set = add_values values (add_value value set)

parse_parts : List Text → List ℕ → ℕ → ℕ → Text → Result (List ℕ)
unfolding parse_part add_values
parse_parts [] set least most src = ok set
parse_parts (part ∷ parts) set least most src = do
  values ← parse_part part least most src
  parse_parts parts (add_values values set) least most src

not_empty : Text → Text → List ℕ → Result (List ℕ)
not_empty raw src [] = thrown (cron_error src (codes ": trường " ++ quoted raw ++ codes " rỗng."))
not_empty raw src (x ∷ xs) = ok (x ∷ xs)

unfoldable pub parse_field : Text → ℕ → ℕ → Text → Result (List ℕ)
unfolding parse_parts not_empty split_on
parse_field raw least most src = do
  values ← parse_parts (split_on b',' raw) [] least most src
  not_empty raw src values

parse_fields : List Text → Text → Result CronSpec
unfolding parse_field text_eq
parse_fields (minute ∷ hour ∷ day_of_month ∷ month ∷ day_of_week ∷ []) expr = do
  minutes ← parse_field minute 0 59 expr
  hours ← parse_field hour 0 23 expr
  days ← parse_field day_of_month 1 31 expr
  months ← parse_field month 1 12 expr
  weekdays ← parse_field day_of_week 0 7 expr
  ok (record {
    minute = minutes;
    hour = hours;
    day_of_month = days;
    month = months;
    day_of_week = map (λ d. d % 7) weekdays;
    dom_unrestricted = text_eq day_of_month star;
    dow_unrestricted = text_eq day_of_week star;
  })
parse_fields _ expr =
    thrown (cron_error expr (codes " phải có 5 trường (phút giờ ngày tháng thứ)."))

unfoldable pub parse_cron : Text → Result CronSpec
unfolding parse_fields split_spaces trim
parse_cron expr = parse_fields (split_spaces (trim expr)) expr
