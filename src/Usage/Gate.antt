-- ===== src/Usage/Gate.antt =====
-- Whether a turn may call the model (checkDailyBudget of src/usage/gate.ts).
pub mod Decisions
use open_dilim.Prelude.{ℕ, Bool, true, false, not, ◌&&◌, Option, none, some, leb}
use open_dilim.Prelude.Text.{Text}
use open_dilim.Task.{Task, Result, ok, thrown, ◌>>=◌, pure, throw}
use open_dilim.Usage.Pricing.{Vnd, pico_usd_to_vnd, vnd_to_pico_usd, daily_budget_vnd}
use open_dilim.Usage.Ledger.{Store, spent_today_pico_usd}

pub record BudgetDecision : Type 0 where
  pub allowed : Bool
  pub spent_vnd : Vnd
  pub limit_vnd : Option ℕ

pub record BudgetCheckInput : Type 0 where
  pub conversation_id : Text
  pub agent_type : Text
  pub usd_vnd_rate : ℕ
  pub enforce : Bool

unfoldable pub decide : BudgetCheckInput → ℕ → ℕ → Result ℕ → Task Store BudgetDecision
unfolding pico_usd_to_vnd
decide input limit_vnd spent_pico (thrown e) = throw e
decide input limit_vnd spent_pico (ok limit_pico) = pure (record {
  allowed = not (leb limit_pico spent_pico && input.enforce);
  spent_vnd = pico_usd_to_vnd spent_pico input.usd_vnd_rate;
  limit_vnd = some limit_vnd;
})

unfoldable pub check_limit : BudgetCheckInput → Option ℕ → Task Store BudgetDecision
unfolding decide
check_limit input none =
    pure (record { allowed = true; spent_vnd = record { over = 0; under = 1 }; limit_vnd = none })
check_limit input (some limit_vnd) = do
  spent_pico ← spent_today_pico_usd input.conversation_id
  decide input limit_vnd spent_pico (vnd_to_pico_usd limit_vnd input.usd_vnd_rate)

unfoldable pub check_daily_budget : BudgetCheckInput → Task Store BudgetDecision
unfolding check_limit daily_budget_vnd
check_daily_budget input = check_limit input (daily_budget_vnd input.agent_type)
