-- ===== src/Usage/Pricing.antt =====
-- Tokens, prices and budgets (src/usage/pricing.ts, dailyBudgetVnd of src/usage/budget.ts, LlmUsage
-- of src/llm/types.ts). Amounts are exact: below 2 ^ 53 so are the doubles, but for the quotient in
-- vndToPicoUsd, which a double rounds. The rate is a positive integer (src/config.ts).
use open_dilim.Prelude.{ℕ, ◌+◌, ◌*◌, ◌/◌, Option, none, some, ◌==◌, if◌then◌else◌}
use open_dilim.Prelude.Text.{Text, codes, text_eq}
use open_dilim.Task.{Result, ok, thrown, Failure, error}

pub record LlmUsage : Type 0 where
  pub input : ℕ
  pub output : ℕ
  pub cache_read : ℕ
  pub cache_write : ℕ

abbrev pub empty_usage : LlmUsage
empty_usage = record { input = 0; output = 0; cache_read = 0; cache_write = 0 }

abbrev pub pico_per_usd : ℕ
pico_per_usd = 1000000000000

abbrev pub pico_per_cache_read : ℕ
pico_per_cache_read = 2800

abbrev pub pico_per_input : ℕ
pico_per_input = 130000

abbrev pub pico_per_output : ℕ
pico_per_output = 240000

abbrev pub pico_per_cache_write : ℕ
pico_per_cache_write = pico_per_input

unfoldable pub cost_pico_usd : LlmUsage → ℕ
cost_pico_usd usage =
    usage.input * pico_per_input
    + usage.output * pico_per_output
    + usage.cache_read * pico_per_cache_read
    + usage.cache_write * pico_per_cache_write

abbrev invalid_rate : Failure
invalid_rate = error (codes "tỉ giá USD/VND không hợp lệ: 0")

unfoldable pub vnd_to_pico_usd : ℕ → ℕ → Result ℕ
vnd_to_pico_usd vnd rate = if rate == 0 then thrown invalid_rate else ok (vnd * pico_per_usd / rate)

-- An amount in VND, a fraction for the logs.
pub record Vnd : Type 0 where
  pub over : ℕ
  pub under : ℕ

unfoldable pub pico_usd_to_vnd : ℕ → ℕ → Vnd
pico_usd_to_vnd pico rate = record { over = pico * rate; under = pico_per_usd }

abbrev pub fallback_budget_vnd : ℕ
fallback_budget_vnd = 10000

-- `DAILY_BUDGET_VND` by the slug of the agent: nothing means that the room is not limited.
unfoldable pub daily_budget_vnd : Text → Option ℕ
daily_budget_vnd agent_type =
    if text_eq agent_type (codes "dealer")
    then some 2000
    else if text_eq agent_type (codes "personal")
    then some 2000
    else if text_eq agent_type (codes "warehouse")
    then none
    else if text_eq agent_type (codes "operations")
    then none
    else if text_eq agent_type (codes "boss")
    then none
    else if text_eq agent_type (codes "xac-nhan-don")
    then some 20000
    else if text_eq agent_type (codes "kiem-kho")
    then none
    else some fallback_budget_vnd
