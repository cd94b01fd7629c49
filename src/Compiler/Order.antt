-- ===== src/Compiler/Order.antt =====
-- CompileBundle as a whole: every rule comes from the bundle, in the bundle's order.
use mathlib.Core.Path.{subst}
use qf.Common.{
  ℕ, suc, ◌+◌, ◌*◌, ◌<◌, ◌≡◌, ◌∙◌, ap, refl, false, Option, none, some, List, [], ◌∷◌, length,
  get_elem?, All, ok, inl, inr, Result-cases, ok_injective, arith,
}
use qf.Common.Int.{pos}
use qf.Common.Sort.{IsOrdered, sort_by, sort_by_of_IsOrdered}
use qf.Proto.{PolicyBundle, EffectiveRule}
use qf.Loader.{Cidr4, RuleSpec}
use qf.Loader.Rules.{by_priority}
use qf.Compiler.{
  CompileState, CompileResult, Outcome, compiled, skipped_rule, Collected, collect, compile_rule,
  compile_rules, compile_bundle, no_ipsets,
}
use qf.Compiler.Spill.{IsBound, IsNumbered}
use qf.Compiler.Rule.{IsRuleOf, IsRuleOf-mono, IsOutcome, compile_rule-AfterRule}

-- The rule comes from the list `ers`, whose first index is `i`, and its priority is its index.
abbrev pub IsFrom : ℕ → List (Option EffectiveRule) → List (ℕ × List Cidr4) → RuleSpec → Type 0
IsFrom i ers sets spec =
    (n : ℕ) × (er : EffectiveRule) × (get_elem? ers n ≡ some (some er))
    × (spec.priority ≡ pos (i + n))
    × IsRuleOf er sets spec

IsFrom-suc :
    (i : ℕ) (e : Option EffectiveRule) (ers : List (Option EffectiveRule))
    (sets : List (ℕ × List Cidr4)) (spec : RuleSpec)
    → IsFrom (suc i) ers sets spec
    → IsFrom i (e ∷ ers) sets spec
IsFrom-suc i e ers sets spec (n, er, g, p, r) =
    let shift : suc i + n ≡ i + suc n = omega arith in (suc n, er, g, p ∙ ap pos shift, r)

All-map {ℓ κ μ} :
    {A : Type ℓ} {P : A → Type κ} {Q : A → Type μ} (xs : List A)
    → ((x : A) → P x → Q x)
    → All P xs
    → All Q xs
All-map [] f h = tt
All-map (x ∷ xs) f h = (f x h.0, All-map xs f h.1)

-- What the loop has established when it ends: sets are kept, rules come from the list, and their
-- priorities ascend from `i` on.
record IsCollected (i : ℕ) (ers : List (Option EffectiveRule)) (s : CompileState) (c : Collected)
    : Type 0 where
  keeps : (id : ℕ) (out : List Cidr4) → IsBound id out s.ipsets → IsBound id out c.state.ipsets
  sources : All (IsFrom i ers c.state.ipsets) c.rules
  ordered : IsOrdered by_priority c.rules
  counted : length c.rules + length c.warnings ≡ length ers
  numbers : IsNumbered 0 s.ipsets s.next_id → IsNumbered 0 c.state.ipsets c.state.next_id

-- Rules from index `i` on are not before a rule of index `j` below it.
not_before :
    (j i : ℕ) (ers : List (Option EffectiveRule)) (sets : List (ℕ × List Cidr4)) (a : RuleSpec)
    → a.priority ≡ pos j
    → j < i
    → (b : RuleSpec) → IsFrom i ers sets b
    → by_priority b a ≡ false
not_before j i ers sets a p lt b (n, er, g, q, r) = rw (p, q) (ground arith)

collected :
    (i : ℕ) (er : EffectiveRule) (ers : List (Option EffectiveRule)) (s s' : CompileState)
    (outcome : Outcome) (rest : Collected)
    → ((id : ℕ) (o : List Cidr4) → IsBound id o s.ipsets → IsBound id o s'.ipsets)
    → (IsNumbered 0 s.ipsets s.next_id → IsNumbered 0 s'.ipsets s'.next_id)
    → IsOutcome er s'.ipsets i outcome
    → IsCollected (suc i) ers s' rest
    → IsCollected i (some er ∷ ers) s (collect i outcome rest)
collected i er ers s s' (skipped_rule w) rest keeps numbers out c = record {
  keeps = λ id o b. c.keeps id o (keeps id o b);
  sources = All-map rest.rules (IsFrom-suc i (some er) ers rest.state.ipsets) c.sources;
  ordered = c.ordered;
  counted = omega (arith, c.counted);
  numbers = λ h. c.numbers (numbers h);
}
collected i er ers s s' (compiled spec) rest keeps numbers (r, p) c =
    let here : i ≡ i + 0 = omega arith in
    record {
      keeps = λ id o b. c.keeps id o (keeps id o b);
      sources = (
        (0, er, refl, p ∙ ap pos here, IsRuleOf-mono c.keeps r),
        All-map rest.rules (IsFrom-suc i (some er) ers rest.state.ipsets) c.sources,
      );
      ordered = (
        All-map rest.rules (not_before i (suc i) ers rest.state.ipsets spec p (omega arith))
            c.sources,
        c.ordered,
      );
      counted = omega (arith, c.counted);
      numbers = λ h. c.numbers (numbers h);
    }

compile_rules-IsCollected :
    (i : ℕ) (ers : List (Option EffectiveRule)) (s : CompileState) (c : Collected)
    → s.next_id + 2 * length ers < 4294967296
    → compile_rules i ers s ≡ ok c
    → IsCollected i ers s c
unfolding compile_rules
compile_rules-IsCollected i [] s c room h = subst (IsCollected i [] s) (ok_injective h) (record {
  keeps = λ id o b. b;
  sources = tt;
  ordered = tt;
  counted = omega arith;
  numbers = λ n. n;
})
compile_rules-IsCollected i (none ∷ ers) s c room h = cc
compile_rules-IsCollected i (some er ∷ ers) s c room h =
    elim (Result-cases (compile_rule (some er) i s)) [
      | inr (x, p) ↦ let bad = rw p at h in cc
      | inl ((s', outcome), p) ↦
          let (ext, out) = compile_rule-AfterRule er i s (s', outcome) (omega arith) p in
          elim (Result-cases (compile_rules (suc i) ers s')) [
            | inr (x, q) ↦ let bad = rw (p, q) at h in cc
            | inl (rest, q) ↦
                let ih = compile_rules-IsCollected (suc i) ers s' rest (omega (arith, ext.few)) q in
                subst (IsCollected i (some er ∷ ers) s) (ok_injective (rw (p, q) at h)) (
                  collected i er ers s s' outcome rest ext.keeps (ext.numbers (omega (arith, room)))
                    out ih)
          ]
    ]

-- Every rule that CompileBundle emits is a rule of the bundle: its priority is the index of its
-- source, and its fields are those of the source (IsRuleOf). In particular it has the source's port
-- ranges, and of each side the IPv4 prefixes, inline or in an emitted set of more than eight; a side
-- without prefixes and set comes from an empty list of the bundle. There are as many rules and
-- warnings together as the bundle has rules. For bundles of fewer than 2^31 rules.
pub compile_bundle-IsFrom :
    (b : PolicyBundle) (res : CompileResult)
    → 2 * length b.rules < 4294967296
    → compile_bundle (some b) ≡ ok res
    → All (IsFrom 0 b.rules res.ipsets) res.rules
      × (length res.rules + length res.warnings ≡ length b.rules)
unfolding compile_bundle
compile_bundle-IsFrom b res room h = elim (Result-cases (compile_rules 0 b.rules no_ipsets)) [
  | inr (x, p) ↦ let bad = rw p at h in cc
  | inl (c, p) ↦
      let ih = compile_rules-IsCollected 0 b.rules no_ipsets c (omega arith) p in
      subst
        (λ (r : CompileResult).
          All (IsFrom 0 b.rules r.ipsets) r.rules
          × (length r.rules + length r.warnings ≡ length b.rules))
        (ok_injective (rw p at h)) (ih.sources, ih.counted)
]

IsNumbered-length :
    (i n : ℕ) (sets : List (ℕ × List Cidr4)) → IsNumbered i sets n → n ≡ i + length sets
IsNumbered-length i n [] h = omega (arith, h)
IsNumbered-length i n ((id, c) ∷ sets) h = omega (arith, IsNumbered-length (i + 1) n sets h.1)

-- The IPSets of a compiled bundle have the ids 1, 2, 3 and so on: none is 0, which stands for no
-- set, and no two are alike. For bundles of fewer than 2^31 rules.
pub compile_bundle-IsNumbered :
    (b : PolicyBundle) (res : CompileResult)
    → 2 * length b.rules < 4294967296
    → compile_bundle (some b) ≡ ok res
    → IsNumbered 0 res.ipsets (length res.ipsets)
unfolding compile_bundle
compile_bundle-IsNumbered b res room h = elim (Result-cases (compile_rules 0 b.rules no_ipsets)) [
  | inr (x, p) ↦ let bad = rw p at h in cc
  | inl (c, p) ↦
      let ih = compile_rules-IsCollected 0 b.rules no_ipsets c (omega arith) p in
      let n = ih.numbers refl in
      let last : c.state.next_id ≡ length c.state.ipsets =
        omega (arith, IsNumbered-length 0 c.state.next_id c.state.ipsets n) in
      subst (λ (r : CompileResult). IsNumbered 0 r.ipsets (length r.ipsets))
        (ok_injective (rw p at h)) (subst (IsNumbered 0 c.state.ipsets) last n)
]

-- The rules of a compiled bundle are already in the order into which PushRules sorts them, so
-- their order in the datapath is the bundle's. For bundles of fewer than 2^31 rules.
pub sort_by-compile_bundle :
    (b : PolicyBundle) (res : CompileResult)
    → 2 * length b.rules < 4294967296
    → compile_bundle (some b) ≡ ok res
    → sort_by by_priority res.rules ≡ res.rules
unfolding compile_bundle
sort_by-compile_bundle b res room h = elim (Result-cases (compile_rules 0 b.rules no_ipsets)) [
  | inr (x, p) ↦ let bad = rw p at h in cc
  | inl (c, p) ↦
      let ih = compile_rules-IsCollected 0 b.rules no_ipsets c (omega arith) p in
      subst (λ (r : CompileResult). sort_by by_priority r.rules ≡ r.rules)
        (ok_injective (rw p at h)) (sort_by_of_IsOrdered by_priority c.rules ih.ordered)
]
