-- ===== src/Loader/Rules/Push.antt =====
-- What PushRules leaves in the maps, on success and on each failure.
use qf.Common.{
  ℕ, zero, suc, ◌+◌, ◌%◌, ◌^◌, ◌<◌, ◌≡◌, refl, sym, ap, ◌∙◌, ◌⊎◌, ◌≢◌, Option, none, some, List, [],
  ◌∷◌, length, get_elem?, ok, err, inl, inr, Bool-cases, Result-cases, arith, ltb,
}
use qf.Common.Sort.{sort_by}
use qf.Loader.{RuleSpec, RuleEntry, BpfObjects, Kernel, LoadError, put}
use qf.Loader.Rules.{write_rules, publish_rules, push_rules, convert_rules, by_priority}

-- The maps that PushRules never touches.
pub record IsOutside (m m' : BpfObjects) : Type 0 where
  pub config : m'.qf_config ≡ m.qf_config
  pub ipsets : m'.qf_ipsets ≡ m.qf_ipsets
  pub capacity : m'.max_rules ≡ m.max_rules

-- A slot that `o` fills, and otherwise the old one.
abbrev pub filled_or : Option RuleEntry → Option RuleEntry → Option RuleEntry
filled_or none old = old
filled_or (some e) old = some e

-- What a successful PushRules has published: the entries in the first slots, their number, and
-- nothing else.
pub record IsPublished (m m' : BpfObjects) (entries : List RuleEntry) : Type 0 where
  pub count : m'.qf_rule_count ≡ length entries % 2 ^ 32
  pub slots : (j : ℕ) → m'.qf_rules j ≡ filled_or (get_elem? entries j) (m.qf_rules j)
  pub outside : IsOutside m m'

unchanged : (m : BpfObjects) → IsOutside m m × (m.qf_rule_count ≡ m.qf_rule_count)
unchanged m = (record { config = refl; ipsets = refl; capacity = refl }, refl)

module _ (k : Kernel) where
  write_rules-IsOutside :
      (i : ℕ) (es : List RuleEntry) (m : BpfObjects)
      → IsOutside m (write_rules k i es m).0
        × ((write_rules k i es m).0.qf_rule_count ≡ m.qf_rule_count)
  unfolding write_rules
  write_rules-IsOutside i [] m = (record { config = refl; ipsets = refl; capacity = refl }, refl)
  write_rules-IsOutside i (e ∷ es) m = elim (Bool-cases (k.rule_put_ok i)) [
    | inl p ↦ rw p (
        let (o, c) =
          write_rules-IsOutside (suc i) es (record m { qf_rules = put m.qf_rules i (some e) }) in
        (record { config = o.config; ipsets = o.ipsets; capacity = o.capacity }, c))
    | inr p ↦ rw p (record { config = refl; ipsets = refl; capacity = refl }, refl)
  ]

  write_rules-before :
      (i : ℕ) (es : List RuleEntry) (m : BpfObjects) (j : ℕ)
      → j < i
      → (write_rules k i es m).0.qf_rules j ≡ m.qf_rules j
  unfolding write_rules
  write_rules-before i [] m j h = refl
  write_rules-before i (e ∷ es) m j h = elim (Bool-cases (k.rule_put_ok i)) [
    | inl p ↦ rw p (
        write_rules-before (suc i) es (record m { qf_rules = put m.qf_rules i (some e) }) j
          (omega arith)
        ∙ ground arith)
    | inr p ↦ rw p
  ]

  write_rules-slots :
      (i : ℕ) (es : List RuleEntry) (m : BpfObjects) (j : ℕ)
      → (write_rules k i es m).1 ≡ ok tt
      → (write_rules k i es m).0.qf_rules (i + j) ≡ filled_or (get_elem? es j) (m.qf_rules (i + j))
  unfolding write_rules
  write_rules-slots i [] m j h = refl
  write_rules-slots i (e ∷ es) m zero h = elim (Bool-cases (k.rule_put_ok i)) [
    | inl p ↦ rw p (
        write_rules-before (suc i) es (record m { qf_rules = put m.qf_rules i (some e) }) (i + 0)
          (omega arith)
        ∙ ground arith)
    | inr p ↦ let bad = rw p at h in cc
  ]
  write_rules-slots i (e ∷ es) m (suc j) h = elim (Bool-cases (k.rule_put_ok i)) [
    | inl p ↦
        let m' : BpfObjects = record m { qf_rules = put m.qf_rules i (some e) } in
        let shift : i + suc j ≡ suc i + j = omega arith in
        let same : put m.qf_rules i (some e) (i + suc j) ≡ m.qf_rules (i + suc j) = ground arith in
        rw p (
          ap (write_rules k (suc i) es m').0.qf_rules shift
          ∙ write_rules-slots (suc i) es m' j (rw p at h)
          ∙ ap (λ n. filled_or (get_elem? es j) (m'.qf_rules n)) (sym shift)
          ∙ ap (filled_or (get_elem? es j)) same)
    | inr p ↦ let bad = rw p at h in cc
  ]

  publish_rules-IsPublished :
      (es : List RuleEntry) (m : BpfObjects)
      → (publish_rules k es m).1 ≡ ok tt
      → IsPublished m (publish_rules k es m).0 es
  unfolding publish_rules
  publish_rules-IsPublished es m h = elim (Result-cases (write_rules k 0 es m).1) [
    | inr (e, p) ↦ let bad = rw (p, publish_rules) at h in cc
    | inl (_, p) ↦ elim (Bool-cases k.count_put_ok) [
      | inr q ↦ let bad = rw (p, publish_rules, q) at h in cc
      | inl q ↦
          rw (p, publish_rules, q)
            (let (o, c) = write_rules-IsOutside 0 es m in
              record {
                count = refl;
                slots = λ j.
                    let e : j ≡ 0 + j = omega arith in
                    ap (write_rules k 0 es m).0.qf_rules e
                    ∙ write_rules-slots 0 es m j p
                    ∙ ap (λ n. filled_or (get_elem? es j) (m.qf_rules n)) (sym e);
                outside = record { config = o.config; ipsets = o.ipsets; capacity = o.capacity };
              })
    ]
  ]

  publish_rules_err :
      (es : List RuleEntry) (m : BpfObjects) {x : LoadError}
      → (publish_rules k es m).1 ≡ err x
      → IsOutside m (publish_rules k es m).0
        × ((publish_rules k es m).0.qf_rule_count ≡ m.qf_rule_count)
  unfolding publish_rules
  publish_rules_err es m h = elim (Result-cases (write_rules k 0 es m).1) [
    | inr (e, p) ↦ rw (p, publish_rules) (write_rules-IsOutside 0 es m)
    | inl (_, p) ↦ elim (Bool-cases k.count_put_ok) [
      | inr q ↦ rw (p, publish_rules, q) (write_rules-IsOutside 0 es m)
      | inl q ↦ let bad = rw (p, publish_rules, q) at h in cc
    ]
  ]

  -- A PushRules that returns no error has published the entries of all its rules, in the order of
  -- their priorities, and has left the other maps and the later slots alone.
  pub push_rules-IsPublished :
      (m : BpfObjects) (rules : List RuleSpec)
      → (push_rules k m rules).1 ≡ ok tt
      → (entries : List RuleEntry) × (convert_rules 0 (sort_by by_priority rules) ≡ ok entries)
        × IsPublished m (push_rules k m rules).0 entries
  unfolding push_rules
  push_rules-IsPublished m rules h = elim (Bool-cases (ltb m.max_rules (length rules))) [
    | inl p ↦ let bad = rw p at h in cc
    | inr p ↦ elim (Result-cases (convert_rules 0 (sort_by by_priority rules))) [
      | inr (e, q) ↦ let bad = rw (p, q) at h in cc
      | inl (es, q) ↦ (es, q, rw (p, q) (publish_rules-IsPublished es m (rw (p, q) at h)))
    ]
  ]

  -- Whatever error PushRules returns, the published number of rules, the configuration and the
  -- IPSets are what they were.
  pub push_rules_err-keeps_count :
      (m : BpfObjects) (rules : List RuleSpec) (x : LoadError)
      → (push_rules k m rules).1 ≡ err x
      → IsOutside m (push_rules k m rules).0
        × ((push_rules k m rules).0.qf_rule_count ≡ m.qf_rule_count)
  unfolding push_rules
  push_rules_err-keeps_count m rules x h = elim (Bool-cases (ltb m.max_rules (length rules))) [
    | inl p ↦ rw p (unchanged m)
    | inr p ↦ elim (Result-cases (convert_rules 0 (sort_by by_priority rules))) [
      | inr (e, q) ↦ rw (p, q) (unchanged m)
      | inl (es, q) ↦ rw (p, q) (publish_rules_err es m (rw (p, q) at h))
    ]
  ]

  -- A rule count beyond the capacity, or one rule that does not convert, aborts PushRules before
  -- it writes anything.
  pub push_rules_rejects :
      (m : BpfObjects) (rules : List RuleSpec) (x : LoadError)
      → (m.max_rules < length rules) ⊎ (convert_rules 0 (sort_by by_priority rules) ≡ err x)
      → ((push_rules k m rules).0 ≡ m) × ((push_rules k m rules).1 ≢ ok tt)
  unfolding push_rules
  push_rules_rejects m rules x (inl h) = ground arith
  push_rules_rejects m rules x (inr h) = elim (Bool-cases (ltb m.max_rules (length rules))) [
    | inl p ↦ rw p (refl, λ e. cc)
    | inr p ↦ rw (p, h) (refl, λ e. cc)
  ]
