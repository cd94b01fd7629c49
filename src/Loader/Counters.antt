-- ===== src/Loader/Counters.antt =====
-- agent/internal/loader/counters.go: per-CPU counters summed in 64 bits.
pub mod Sums
use qf.Common.{
  ℕ, zero, suc, ◌+◌, ◌%◌, ◌^◌, Bool, true, false, Option, none, some, List, [], ◌∷◌, ltb,
  if◌then◌else◌,
}
use qf.Common.Maybe.{◌>>=◌}
use qf.Loader.{max_rules_cap}

pub record RuleCounters : Type 0 where
  pub packets : ℕ
  pub bytes : ℕ

abbrev pub add64 : ℕ → ℕ → ℕ
add64 a b = (a + b) % 2 ^ 64

-- The loop of ReadCounter over the CPUs.
unfoldable pub sum_cpus : RuleCounters → List RuleCounters → RuleCounters
sum_cpus total [] = total
sum_cpus total (c ∷ cs) =
    sum_cpus (record { packets = add64 total.packets c.packets; bytes = add64 total.bytes c.bytes })
      cs

abbrev pub zero_counters : RuleCounters
zero_counters = record { packets = 0; bytes = 0 }

-- The per-CPU values of each slot; `none` where the lookup fails.
abbrev pub CounterMap : Type 0
CounterMap = ℕ → Option (List RuleCounters)

unfoldable pub read_counter : CounterMap → ℕ → Option RuleCounters
unfolding sum_cpus
read_counter m idx = do per_cpu ← m idx; some (sum_cpus zero_counters per_cpu)

-- The loop of ReadCounters: `n` slots from `i` on.
unfoldable pub read_from : CounterMap → ℕ → ℕ → Option (List RuleCounters)
unfolding read_counter
read_from m i zero = some []
read_from m i (suc n) = do c ← read_counter m i; rest ← read_from m (suc i) n; some (c ∷ rest)

unfoldable pub read_counters : CounterMap → Option ℕ → Option (List RuleCounters)
unfolding read_from
read_counters m rule_count = do
  count ← rule_count
  read_from m 0 (if ltb max_rules_cap count then max_rules_cap else count)

-- ReadSuppressedCount and ResetSuppressedCount over the values of the CPUs.
unfoldable pub suppressed_count : ℕ → List ℕ → ℕ
suppressed_count total [] = total
suppressed_count total (c ∷ cs) = suppressed_count (add64 total c) cs

unfoldable pub reset_suppressed : List ℕ → List ℕ
reset_suppressed [] = []
reset_suppressed (c ∷ cs) = 0 ∷ reset_suppressed cs
