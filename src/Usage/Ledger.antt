-- ===== src/Usage/Ledger.antt =====
-- The ledger of the costs in Postgres and the counter of the day on Redis (SqlUsageStore of
-- src/usage/store.ts, with migrations/0001_init.sql). The day of the books and the seconds that it
-- still has are what the calendar of the runtime says (usageDay and secondsUntilNextDay of
-- src/usage/budget.ts): they stand in the state. Each server may be down, and then its calls throw.
pub mod Agreement
use open_dilim.Prelude.{
  ℕ, ◌+◌, ◌*◌, Bool, true, false, ◌&&◌, Option, none, some, List, [], ◌∷◌, ◌++◌, leb, ◌==◌,
  if◌then◌else◌, any,
}
use open_dilim.Prelude.Text.{Text, codes, text_eq}
use open_dilim.Task.{Task, Result, ok, thrown, unavailable}
use open_dilim.Usage.Pricing.{LlmUsage, cost_pico_usd}

pub record UsageEntry : Type 0 where
  pub conversation_id : Text
  pub agent_type : Text
  pub msg_id : Text
  pub usage : LlmUsage

pub record LedgerRow : Type 0 where
  pub conversation_id : Text
  pub agent_type : Text
  pub msg_id : Text
  pub usage_day : Text
  pub usage : LlmUsage
  pub cost : ℕ

-- A value on Redis, and when it expires.
pub record Counter : Type 0 where
  pub value : ℕ
  pub expires : Option ℕ

pub record Store : Type 0 where
  pub clock : ℕ
  pub day : Text
  pub seconds_left : ℕ
  pub redis_down : Bool
  pub sql_down : Bool
  pub ledger : List LedgerRow
  pub counters : Text → Option Counter

unfoldable pub counter_key : Text → Text → Text
counter_key conversation_id day = codes "dilim:cost:" ++ conversation_id ++ b':' ∷ day

abbrev pub is_expired : ℕ → Option ℕ → Bool
is_expired now none = false
is_expired now (some t) = leb t now

abbrev pub live : ℕ → Option Counter → Option Counter
live now none = none
live now (some c) = if is_expired now c.expires then none else some c

abbrev pub read_counter : Store → Text → Option Counter
read_counter s key = live s.clock (s.counters key)

abbrev pub write_counter : Text → Counter → Store → Store
write_counter key counter s = record s {
  counters = λ k. if text_eq k key then some counter else s.counters k;
}

unfoldable pub sum_from_ledger : Text → Text → List LedgerRow → ℕ
sum_from_ledger conversation_id day [] = 0
sum_from_ledger conversation_id day (r ∷ rs) =
    let rest = sum_from_ledger conversation_id day rs in
    if text_eq r.conversation_id conversation_id && text_eq r.usage_day day
    then r.cost + rest
    else rest

abbrev pub midnight : Store → ℕ
midnight s = s.clock + s.seconds_left * 1000

-- `SET key total EX …`.
pub restored : Text → ℕ → Task Store ℕ
restored key total s =
    (ok total, write_counter key (record { value = total; expires = some (midnight s) }) s)

pub cached_or_sum : Text → Text → Option Counter → Task Store ℕ
unfolding restored sum_from_ledger
cached_or_sum conversation_id key (some c) s = (ok c.value, s)
cached_or_sum conversation_id key none s =
    if s.sql_down
    then (thrown unavailable, s)
    else restored key (sum_from_ledger conversation_id s.day s.ledger) s

unfoldable pub spent_today_pico_usd : Text → Task Store ℕ
unfolding cached_or_sum counter_key
spent_today_pico_usd conversation_id s =
    let key = counter_key conversation_id s.day in
    if s.redis_down
    then (thrown unavailable, s)
    else cached_or_sum conversation_id key (read_counter s key) s

abbrev pub ledger_row : Text → UsageEntry → LedgerRow
ledger_row day entry = record {
  conversation_id = entry.conversation_id;
  agent_type = entry.agent_type;
  msg_id = entry.msg_id;
  usage_day = day;
  usage = entry.usage;
  cost = cost_pico_usd entry.usage;
}

unfoldable pub is_recorded : Text → List LedgerRow → Bool
is_recorded msg_id ledger = any (λ r. text_eq r.msg_id msg_id) ledger

-- `INCRBY`: a missing counter starts at 0 and never expires.
unfoldable pub incremented : ℕ → Option Counter → Counter
incremented cost none = record { value = cost; expires = none }
incremented cost (some c) = record { value = c.value + cost; expires = c.expires }

-- A counter that holds no more than what was added is taken to be new, and gets its deadline.
unfoldable pub with_deadline : ℕ → ℕ → Counter → Counter
with_deadline cost deadline c =
    if c.value == cost then record { value = c.value; expires = some deadline } else c

pub count_up : Text → ℕ → Task Store (Unit {0})
unfolding incremented with_deadline
count_up key cost s = if s.redis_down then (thrown unavailable, s) else (
  ok tt,
  write_counter key (with_deadline cost (midnight s) (incremented cost (read_counter s key))) s,
)

-- Nothing is counted for a message that is in the ledger.
unfoldable pub record_usage : UsageEntry → Task Store (Unit {0})
unfolding is_recorded count_up counter_key cost_pico_usd
record_usage entry s =
    if s.sql_down
    then (thrown unavailable, s)
    else if is_recorded entry.msg_id s.ledger
    then (ok tt, s)
    else count_up (counter_key entry.conversation_id s.day) (cost_pico_usd entry.usage)
        (record s { ledger = s.ledger ++ ledger_row s.day entry ∷ [] })
