-- ===== src/Loader/Rules/Success.antt =====
-- When PushRules succeeds.
use qf.Common.{
  ℕ, suc, ◌≡◌, ◌≤◌, refl, true, List, [], ◌∷◌, length, All, ok, inl, inr, Bool-cases, arith, ltb,
}
use qf.Common.Sort.{sort_by, All-sort_by}
use qf.Loader.{RuleSpec, RuleEntry, BpfObjects, Kernel}
use qf.Loader.Rules.{by_priority, write_rules, publish_rules, push_rules}
use qf.Loader.Rules.Valid.{IsWellFormed, convert_rules_ok}

module _ (k : Kernel) (puts : (i : ℕ) → k.rule_put_ok i ≡ true)
    (count_put : k.count_put_ok ≡ true) where
  write_rules_ok : (i : ℕ) (es : List RuleEntry) (m : BpfObjects) → (write_rules k i es m).1 ≡ ok tt
  unfolding write_rules
  write_rules_ok i [] m = refl
  write_rules_ok i (e ∷ es) m = rw (puts i) (write_rules_ok (suc i) es _)

  publish_rules_ok : (es : List RuleEntry) (m : BpfObjects) → (publish_rules k es m).1 ≡ ok tt
  unfolding publish_rules
  publish_rules_ok es m = rw (write_rules_ok 0 es m, publish_rules, count_put) refl

  -- PushRules succeeds on every list of well-formed rules that fits the loaded program, where the
  -- kernel takes the writes.
  pub push_rules_ok :
      (m : BpfObjects) (rules : List RuleSpec)
      → length rules ≤ m.max_rules
      → All IsWellFormed rules
      → (push_rules k m rules).1 ≡ ok tt
  unfolding push_rules
  push_rules_ok m rules fits well = elim (Bool-cases (ltb m.max_rules (length rules))) [
    | inl p ↦ absurd (ground (arith, p, fits))
    | inr p ↦
        let (es, c, _) =
          convert_rules_ok 0 (sort_by by_priority rules)
            (All-sort_by by_priority IsWellFormed rules well) in
        rw (p, c) (publish_rules_ok es m)
  ]
