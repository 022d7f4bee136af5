-- ===== src/Usage/Tests.antt =====
-- Runs of the usage accounting on small inputs, and the theorems at them (src/usage).
use open_dilim.Prelude.{◌≡◌, refl, true, false, none, some, [], ◌∷◌, arith}
use open_dilim.Prelude.Text.{Text, codes, text_eq}
use open_dilim.Task.{ok}
use open_dilim.Usage.Pricing.{LlmUsage, cost_pico_usd}
use open_dilim.Usage.Ledger.{
  is_recorded, UsageEntry, Store, sum_from_ledger, spent_today_pico_usd, record_usage, ledger_row,
}
use open_dilim.Usage.Ledger.Agreement.{Agrees, record_usage-Agrees, record_usage-forgets}
use open_dilim.Usage.Gate.{BudgetCheckInput, check_daily_budget}
use open_dilim.Usage.Gate.Decisions.{Decided, check_daily_budget-Decided}

abbrev call : LlmUsage
call = record { input = 1000; output = 200; cache_read = 50000; cache_write = 0 }

abbrev room : Text
room = codes "nhóm 1"

abbrev entry : UsageEntry
entry = record {
  conversation_id = room;
  agent_type = codes "dealer";
  msg_id = codes "m1";
  usage = call;
}

abbrev later_entry : UsageEntry
later_entry = record entry { msg_id = codes "m2" }

-- The counter stands at 0 and the ledger is empty.
abbrev fresh : Store
fresh = record {
  clock = 0;
  day = codes "2026-01-02";
  seconds_left = 3600;
  redis_down = false;
  sql_down = false;
  ledger = [];
  counters = λ _. some (record { value = 0; expires = some 3600000 });
}

-- Redis lost its counters after the first message.
abbrev lost : Store
lost = record fresh { ledger = ledger_row (codes "2026-01-02") entry ∷ []; counters = λ _. none }

fresh-Agrees : Agrees room fresh
fresh-Agrees = record {
  counter = record { value = 0; expires = some 3600000 };
  there = refl;
  value = unfold sum_from_ledger in refl;
}

record_usage-Agrees_example : Agrees room (record_usage entry fresh).1
record_usage-Agrees_example = record_usage-Agrees fresh (omega arith) refl room entry fresh-Agrees

record_usage-forgets_example :
    (spent_today_pico_usd room (record_usage later_entry lost).1).0 ≡ ok (cost_pico_usd call)
record_usage-forgets_example =
    record_usage-forgets later_entry lost refl refl (omega arith)
      (unfold is_recorded text_eq in refl) refl

-- The ledger then holds two messages.
ledger_of_two :
    sum_from_ledger room (codes "2026-01-02") (record_usage later_entry lost).1.ledger ≡ 636000000
unfolding sum_from_ledger record_usage is_recorded text_eq cost_pico_usd
ledger_of_two = refl

abbrev gate : BudgetCheckInput
gate = record {
  conversation_id = room;
  agent_type = codes "dealer";
  usd_vnd_rate = 26000;
  enforce = true;
}

check_daily_budget-Decided_example : Decided gate fresh (check_daily_budget gate fresh).0
check_daily_budget-Decided_example = check_daily_budget-Decided gate fresh fresh-Agrees
