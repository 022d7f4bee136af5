-- ===== src/Usage/Meter.antt =====
-- The tokens of one turn, added up over its calls of the model (src/usage/meter.ts).
pub mod Sums
use open_dilim.Prelude.{ℕ, ◌+◌, Bool, List, [], ◌∷◌, ◌==◌}
use open_dilim.Usage.Pricing.{LlmUsage, empty_usage}

pub record UsageMeter : Type 0 where
  pub input : ℕ
  pub output : ℕ
  pub cache_read : ℕ
  pub cache_write : ℕ
  pub calls : ℕ

abbrev pub new_meter : UsageMeter
new_meter = record { input = 0; output = 0; cache_read = 0; cache_write = 0; calls = 0 }

unfoldable pub add : LlmUsage → UsageMeter → UsageMeter
add usage meter = record {
  input = meter.input + usage.input;
  output = meter.output + usage.output;
  cache_read = meter.cache_read + usage.cache_read;
  cache_write = meter.cache_write + usage.cache_write;
  calls = meter.calls + 1;
}

unfoldable pub total : UsageMeter → LlmUsage
total meter = record {
  input = meter.input;
  output = meter.output;
  cache_read = meter.cache_read;
  cache_write = meter.cache_write;
}

unfoldable pub call_count : UsageMeter → ℕ
call_count meter = meter.calls

unfoldable pub is_unused : UsageMeter → Bool
is_unused meter = meter.calls == 0

abbrev pub add_usage : LlmUsage → LlmUsage → LlmUsage
add_usage acc u = record {
  input = acc.input + u.input;
  output = acc.output + u.output;
  cache_read = acc.cache_read + u.cache_read;
  cache_write = acc.cache_write + u.cache_write;
}

reduce_usage : LlmUsage → List LlmUsage → LlmUsage
reduce_usage acc [] = acc
reduce_usage acc (u ∷ items) = reduce_usage (add_usage acc u) items

unfoldable pub sum_usage : List LlmUsage → LlmUsage
unfolding reduce_usage
sum_usage items = reduce_usage empty_usage items
