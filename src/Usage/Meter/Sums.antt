-- ===== src/Usage/Meter/Sums.antt =====
-- The meter of a turn (src/usage/meter.ts, costPicoUsd of src/usage/pricing.ts).
use open_dilim.Prelude.{ℕ, ◌+◌, ◌≡◌, refl, ap, ◌∙◌, List, [], ◌∷◌, arith, length}
use open_dilim.Usage.Pricing.{LlmUsage, cost_pico_usd}
use open_dilim.Usage.Meter.{
  UsageMeter, new_meter, add, add_usage, total, call_count, reduce_usage, sum_usage,
}

-- A turn reports the usage of each of its calls to the meter.
unfoldable pub add_all : List LlmUsage → UsageMeter → UsageMeter
unfolding add
add_all [] meter = meter
add_all (u ∷ us) meter = add_all us (add u meter)

abbrev pub sum_costs : List LlmUsage → ℕ
sum_costs [] = 0
sum_costs (u ∷ us) = cost_pico_usd u + sum_costs us

total-add_all :
    (us : List LlmUsage) (meter : UsageMeter)
    → total (add_all us meter) ≡ reduce_usage (total meter) us
unfolding add_all total reduce_usage
total-add_all [] meter = refl
total-add_all (u ∷ us) meter = total-add_all us (add u meter)

calls-add_all :
    (us : List LlmUsage) (meter : UsageMeter)
    → call_count (add_all us meter) ≡ call_count meter + length us
unfolding add_all call_count
calls-add_all [] meter = omega arith
calls-add_all (u ∷ us) meter = omega (arith, calls-add_all us (add u meter))

cost-reduce_usage :
    (us : List LlmUsage) (acc : LlmUsage)
    → cost_pico_usd (reduce_usage acc us) ≡ cost_pico_usd acc + sum_costs us
unfolding cost_pico_usd reduce_usage
cost-reduce_usage [] acc = omega arith
cost-reduce_usage (u ∷ us) acc = omega (arith, cost-reduce_usage us (add_usage acc u))

-- The meter of a turn holds the sum of the usages of all its calls and counts them, and the price of
-- the sum is the sum of the prices.
pub total-sum_usage :
    (us : List LlmUsage)
    → (total (add_all us new_meter) ≡ sum_usage us)
      × (call_count (add_all us new_meter) ≡ length us)
      × (cost_pico_usd (total (add_all us new_meter)) ≡ sum_costs us)
unfolding sum_usage
total-sum_usage us = (
  total-add_all us new_meter ∙ (unfold total in refl),
  calls-add_all us new_meter ∙ (unfold call_count in omega arith),
  ap cost_pico_usd (total-add_all us new_meter)
      ∙ cost-reduce_usage us (total new_meter)
      ∙ (unfold cost_pico_usd total in omega arith),
)
