-- ===== src/Loader/Counters/Sums.antt =====
-- What the counter readers return.
use Prim.Native.Nat.{min}
use qf.Common.{
  ◌<◌, ltb→lt, ltb→ge, ℕ, zero, suc, ◌+◌, ◌%◌, ◌^◌, ◌≡◌, some, List, [], ◌∷◌, length, arith, inl,
  inr, Option-cases, ltb, Bool-cases,
}
use qf.Loader.Counters.{
  RuleCounters, CounterMap, sum_cpus, zero_counters, read_counter, read_from, read_counters,
}

abbrev total_packets : List RuleCounters → ℕ
total_packets [] = 0
total_packets (c ∷ cs) = c.packets + total_packets cs

abbrev total_bytes : List RuleCounters → ℕ
total_bytes [] = 0
total_bytes (c ∷ cs) = c.bytes + total_bytes cs

sum_cpus-total :
    (t : RuleCounters) (cs : List RuleCounters)
    → ((sum_cpus t cs).packets % 2 ^ 64 ≡ (t.packets + total_packets cs) % 2 ^ 64)
      × ((sum_cpus t cs).bytes % 2 ^ 64 ≡ (t.bytes + total_bytes cs) % 2 ^ 64)
unfolding sum_cpus
sum_cpus-total t [] = (omega arith, omega arith)
sum_cpus-total t (c ∷ cs) =
    let (p, b) =
      sum_cpus-total
        (record {
          packets = (t.packets + c.packets) % 2 ^ 64;
          bytes = (t.bytes + c.bytes) % 2 ^ 64;
        })
        cs in
    (omega (arith, p), omega (arith, b))

sum_cpus-lt :
    (t : RuleCounters) (cs : List RuleCounters)
    → t.packets < 2 ^ 64
    → t.bytes < 2 ^ 64
    → ((sum_cpus t cs).packets < 2 ^ 64) × ((sum_cpus t cs).bytes < 2 ^ 64)
unfolding sum_cpus
sum_cpus-lt t [] p b = (p, b)
sum_cpus-lt t (c ∷ cs) p b =
    sum_cpus-lt
      (record { packets = (t.packets + c.packets) % 2 ^ 64; bytes = (t.bytes + c.bytes) % 2 ^ 64 })
      cs (omega arith) (omega arith)

-- The counter of a rule is the sum over all CPUs, in 64 bits.
pub read_counter-total :
    (m : CounterMap) (idx : ℕ) (per_cpu : List RuleCounters)
    → m idx ≡ some per_cpu
    → read_counter m idx
      ≡ some (record {
        packets = total_packets per_cpu % 2 ^ 64;
        bytes = total_bytes per_cpu % 2 ^ 64;
      })
unfolding read_counter
read_counter-total m idx cs h =
    let (p, b) = sum_cpus-total zero_counters cs in
    let (lp, lb) = sum_cpus-lt zero_counters cs (omega arith) (omega arith) in
    let packets : (sum_cpus zero_counters cs).packets ≡ total_packets cs % 2 ^ 64 =
      omega (arith, p, lp) in
    let bytes : (sum_cpus zero_counters cs).bytes ≡ total_bytes cs % 2 ^ 64 =
      omega (arith, b, lb) in
    rw h (λ i. some (record { packets = packets i; bytes = bytes i }))

length-read_from :
    (m : CounterMap) (i n : ℕ) {out : List RuleCounters}
    → read_from m i n ≡ some out
    → length out ≡ n
unfolding read_from
length-read_from m i zero h = ground arith
length-read_from m i (suc n) h = elim (Option-cases (read_counter m i)) [
  | inl p ↦ let bad = rw p at h in cc
  | inr (c, p) ↦ elim (Option-cases (read_from m (suc i) n)) [
    | inl q ↦ let bad = rw (p, q) at h in cc
    | inr (rest, q) ↦ let e = rw (p, q) at h in ground (arith, length-read_from m (suc i) n q)
  ]
]

-- ReadCounters returns one counter for each published rule, and at most the capacity of the map.
pub length-read_counters :
    (m : CounterMap) (count : ℕ) (out : List RuleCounters)
    → read_counters m (some count) ≡ some out
    → length out ≡ min count 2048
unfolding read_counters
length-read_counters m count out h = elim (Bool-cases (ltb 2048 count)) [
  | inl p ↦ omega (arith, length-read_from m 0 2048 (rw p at h), ltb→lt _ _ p)
  | inr p ↦ omega (arith, length-read_from m 0 count (rw p at h), ltb→ge _ _ p)
]
