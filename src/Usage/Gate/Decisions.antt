-- ===== src/Usage/Gate/Decisions.antt =====
-- What the gate decides, on every branch (checkDailyBudget of src/usage/gate.ts, with the port of
-- src/usage/store.ts).
use native.Mathlib.Nat.{div-lt_iff_lt-mul, le-div_iff_mul-le}
use open_dilim.Prelude.{
  ℕ, ◌+◌, ◌*◌, ◌/◌, ◌==◌, ◌≤◌, ◌<◌, ◌≡◌, refl, ◌⊎◌, inl, inr, true, false, Option, none, some,
  arith, Bool-cases, leb, leb→le,
}
use open_dilim.Task.{Result, ok, thrown, Failure}
use open_dilim.Usage.Pricing.{vnd_to_pico_usd, daily_budget_vnd}
use open_dilim.Usage.Ledger.{Store, sum_from_ledger, spent_today_pico_usd}
use open_dilim.Usage.Ledger.Agreement.{Agrees, spent_today-Agrees}
use open_dilim.Usage.Gate.{
  BudgetDecision, BudgetCheckInput, decide, check_limit, check_daily_budget,
}

-- What the room spent today by the ledger, in pico-USD.
abbrev pub spent : BudgetCheckInput → Store → ℕ
spent input s = sum_from_ledger input.conversation_id s.day s.ledger

module _ (input : BudgetCheckInput) (s : Store) where
  -- In VND times 10 ^ 12: to refuse, what was spent and one pico-USD more exceeds the limit; to allow
  -- while the limit counts, they do not.
  pub data Decided : Result BudgetDecision → Type 0 where
    unlimited :
        (d : BudgetDecision)
        → daily_budget_vnd input.agent_type ≡ none
        → d.allowed ≡ true
        → d.limit_vnd ≡ none
        → Decided (ok d)
    refused :
        (d : BudgetDecision) (limit : ℕ)
        → daily_budget_vnd input.agent_type ≡ some limit
        → d.limit_vnd ≡ some limit
        → d.allowed ≡ false
        → input.enforce ≡ true
        → limit * 1_000_000_000_000 < (spent input s + 1) * input.usd_vnd_rate
        → Decided (ok d)
    allowed :
        (d : BudgetDecision) (limit : ℕ)
        → daily_budget_vnd input.agent_type ≡ some limit
        → d.limit_vnd ≡ some limit
        → d.allowed ≡ true
        → (input.enforce ≡ false)
          ⊎ ((spent input s + 1) * input.usd_vnd_rate ≤ limit * 1_000_000_000_000)
        → Decided (ok d)
    failed :
        (limit : ℕ)
        → daily_budget_vnd input.agent_type ≡ some limit
        → (s.redis_down ≡ true) ⊎ (input.usd_vnd_rate ≡ 0)
        → (e : Failure) → Decided (thrown e)

  module _ (limit : ℕ) (limited : daily_budget_vnd input.agent_type ≡ some limit)
      (positive : 0 < input.usd_vnd_rate) where
    abbrev limit_pico : ℕ
    limit_pico = limit * 1_000_000_000_000 / input.usd_vnd_rate

    decide-Decided : Decided (decide input limit (spent input s) (ok limit_pico) s).0
    unfolding decide
    decide-Decided = elim (Bool-cases (leb limit_pico (spent input s))) [
      | inl over ↦ elim (Bool-cases input.enforce) [
        | inl on ↦
            rw (over, on)
              (refused _ limit limited refl refl refl
                ((div-lt_iff_lt-mul positive).0 (le_add_one (leb→le _ _ over))))
        | inr off ↦ rw (over, off) (allowed _ limit limited refl refl (inl refl))
      ]
      | inr under ↦ rw under (
          allowed _ limit limited refl refl (inr ((le-div_iff_mul-le positive).0 (not_over under))))
    ]
      where
        le_add_one : limit_pico ≤ spent input s → limit_pico < spent input s + 1
        le_add_one h = omega arith

        not_over : leb limit_pico (spent input s) ≡ false → spent input s + 1 ≤ limit_pico
        not_over h = ground arith

    priced-Decided :
        Decided (decide input limit (spent input s) (vnd_to_pico_usd limit input.usd_vnd_rate) s).0
    unfolding vnd_to_pico_usd
    priced-Decided = rw (not_zero) decide-Decided
      where
        not_zero : (input.usd_vnd_rate == 0) ≡ false
        not_zero = ground arith

  module _ (agrees : Agrees input.conversation_id s) where
    limited-Decided :
        (limit : ℕ)
        → daily_budget_vnd input.agent_type ≡ some limit
        → Decided (check_limit input (some limit) s).0
    unfolding check_limit
    limited-Decided limit limited = elim (Bool-cases s.redis_down) [
      | inl down ↦ unfold spent_today_pico_usd in rw down (failed limit limited (inl refl) _)
      | inr up ↦ rw (spent_today-Agrees input.conversation_id s up agrees) (rated (Bool-cases _))
    ]
      where
        rated :
            ((input.usd_vnd_rate == 0) ≡ true) ⊎ ((input.usd_vnd_rate == 0) ≡ false)
            → Decided
                (decide input limit (spent input s) (vnd_to_pico_usd limit input.usd_vnd_rate) s).0
        rated (inl zero) =
            unfold vnd_to_pico_usd decide in rw zero (failed limit limited (inr (ground arith)) _)
        rated (inr positive) = priced-Decided limit limited (ground arith)

    checked-Decided :
        (budget : Option ℕ)
        → daily_budget_vnd input.agent_type ≡ budget
        → Decided (check_limit input budget s).0
    checked-Decided none e = unfold check_limit in unlimited _ e refl refl
    checked-Decided (some limit) e = limited-Decided limit e

    -- Every decision of the gate, where the counter of the room agrees with the ledger. An agent without
    -- a limit is allowed. With a limit, a turn is refused only while the gate is enforced and what the
    -- ledger says was spent today reaches the limit, at the rate that is given and to one pico-USD;
    -- and it is allowed only while the gate is not enforced or that is below the limit, whatever the
    -- turn will cost. The call throws only if Redis is down or the rate is zero.
    pub check_daily_budget-Decided : Decided (check_daily_budget input s).0
    unfolding check_daily_budget
    check_daily_budget-Decided = checked-Decided (daily_budget_vnd input.agent_type) refl
