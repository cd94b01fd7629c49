-- ===== src/Handler/Atomic.antt =====
-- What Apply has done to the datapath when it returns.
use mathlib.Core.Path.{subst}
use qf.Common.{
  ℕ, ◌≡◌, ◌∙◌, ap, refl, sym, ◌*◌, ◌<◌, ◌%◌, ◌^◌, Option, some, List, [], ◌∷◌, length, get_elem?,
  Result, ok, err, inl, inr, Result-cases, ok_injective, arith,
}
use qf.Common.Sort.{sort_by}
use qf.Proto.{PolicyBundle}
use qf.Loader.{Cidr4, RuleEntry, BpfObjects, Kernel, Config}
use qf.Loader.Rules.{push_rules, convert_rules, by_priority}
use qf.Loader.Rules.Push.{
  IsPublished, filled_or, push_rules-IsPublished, push_rules_err-keeps_count,
}
use qf.Loader.Ipset.{push_ipset, clear_ipsets}
use qf.Loader.Ipset.Clear.{clear_ipsets-rest}
use qf.Loader.Ipset.Fill.{push_ipset-rest}
use qf.Loader.Settings.{set_config}
use qf.Compiler.{CompileResult, compile_bundle}
use qf.Compiler.Order.{sort_by-compile_bundle}
use qf.Handler.{ApplyResult, ApplyError, Agent, push_ipsets, install, apply}

-- The rules and their number are what they were.
pub record HasRulesOf (m m' : BpfObjects) : Type 0 where
  pub rules : m'.qf_rules ≡ m.qf_rules
  pub count : m'.qf_rule_count ≡ m.qf_rule_count

module _ (k : Kernel) where
  push_ipsets-HasRulesOf :
      (sets : List (ℕ × List Cidr4)) (m : BpfObjects) → HasRulesOf m (push_ipsets k sets m).0
  unfolding push_ipsets
  push_ipsets-HasRulesOf [] m = record { rules = refl; count = refl }
  push_ipsets-HasRulesOf ((id, cidrs) ∷ sets) m =
      let (r, c, _, _) = push_ipset-rest k id cidrs m in
      elim (Result-cases (push_ipset k id cidrs m).1) [
        | inr (e, p) ↦ rw (p, push_ipsets) (record { rules = r; count = c })
        | inl (_, p) ↦
            let ih = push_ipsets-HasRulesOf sets (push_ipset k id cidrs m).0 in
            rw (p, push_ipsets) (record { rules = ih.rules ∙ r; count = ih.count ∙ c })
      ]

  set_config-HasRulesOf : (c : Config) (m : BpfObjects) → HasRulesOf m (set_config k c m).0
  unfolding set_config
  set_config-HasRulesOf c m = ground arith

  trans : {a b c : BpfObjects} → HasRulesOf a b → HasRulesOf b c → HasRulesOf a c
  trans p q = record { rules = q.rules ∙ p.rules; count = q.count ∙ p.count }

  clear-HasRulesOf : (m : BpfObjects) → HasRulesOf m (clear_ipsets k m).0
  clear-HasRulesOf m = let (r, c, _, _) = clear_ipsets-rest k m in record { rules = r; count = c }

  -- The outcome of the four writes: an error leaves the number of rules; success publishes.
  abbrev Installed : CompileResult → BpfObjects → BpfObjects × Result ApplyError (Unit {0}) → Type 0
  Installed res m (m', err x) = m'.qf_rule_count ≡ m.qf_rule_count
  Installed res m (m', ok _) =
      (before : BpfObjects) × HasRulesOf m before
      × (entries : List RuleEntry) × (convert_rules 0 (sort_by by_priority res.rules) ≡ ok entries)
      × IsPublished before m' entries

  install-Installed : (res : CompileResult) (m : BpfObjects) → Installed res m (install k res m)
  unfolding install
  install-Installed res m =
      let m₁ = (clear_ipsets k m).0 in
      let m₂ = (push_ipsets k res.ipsets m₁).0 in
      let m₃ = (set_config k res.config m₂).0 in
      let h₁ = clear-HasRulesOf m in
      let h₂ = trans h₁ (push_ipsets-HasRulesOf res.ipsets m₁) in
      let h₃ = trans h₂ (set_config-HasRulesOf res.config m₂) in
      elim (Result-cases (clear_ipsets k m).1) [
        | inr (x, p) ↦ rw (p, install) (h₁.count)
        | inl (_, p) ↦ elim (Result-cases (push_ipsets k res.ipsets m₁).1) [
          | inr (x, q) ↦ rw (p, install, q) (h₂.count)
          | inl (_, q) ↦ elim (Result-cases (set_config k res.config m₂).1) [
            | inr (x, r) ↦ rw (p, install, q, r) (h₃.count)
            | inl (_, r) ↦ elim (Result-cases (push_rules k m₃ res.rules).1) [
              | inr (x, s) ↦
                  rw (p, install, q, r, s)
                    ((push_rules_err-keeps_count k m₃ res.rules x s).1 ∙ h₃.count)
              | inl (_, s) ↦
                  let (es, c, published) = push_rules-IsPublished k m₃ res.rules s in
                  rw (p, install, q, r, s) (m₃, h₃, es, c, published)
            ]
          ]
        ]
      ]

  -- When Apply returns an error, the result that is current and the number of rules that the
  -- datapath evaluates are those from before.
  pub apply_err-keeps_current :
      (b : Option PolicyBundle) (h : Agent) (x : ApplyError)
      → (apply k b h).1 ≡ err x
      → ((apply k b h).0.current ≡ h.current)
        × ((apply k b h).0.objs.qf_rule_count ≡ h.objs.qf_rule_count)
  unfolding apply
  apply_err-keeps_current b h x e = elim (Result-cases (compile_bundle b)) [
    | inr (y, p) ↦ rw (p, apply) (refl, refl)
    | inl (res, p) ↦
        let done = install-Installed res h.objs in
        elim (Result-cases (install k res h.objs).1) [
          | inr (y, q) ↦ rw (p, apply, q) (refl, at_error res h.objs (install k res h.objs) q done)
          | inl (_, q) ↦ let bad = rw (p, apply, q) at e in cc
        ]
  ]
    where
      at_error :
          (res : CompileResult) (m : BpfObjects) (r : BpfObjects × Result ApplyError (Unit {0}))
          {y : ApplyError}
          → r.1 ≡ err y
          → Installed res m r
          → r.0.qf_rule_count ≡ m.qf_rule_count
      at_error res m (m', err z) q d = d
      at_error res m (m', ok _) q d = absurd cc

  at_success :
      (res : CompileResult) (m : BpfObjects) (r : BpfObjects × Result ApplyError (Unit {0}))
      → r.1 ≡ ok tt
      → Installed res m r
      → (entries : List RuleEntry) × (convert_rules 0 (sort_by by_priority res.rules) ≡ ok entries)
        × (r.0.qf_rule_count ≡ length entries % 2 ^ 32)
        × ((j : ℕ) → r.0.qf_rules j ≡ filled_or (get_elem? entries j) (m.qf_rules j))
  at_success res m (m', err z) q d = absurd cc
  at_success res m (m', ok _) q (before, same, es, c, p) = (
    es,
    c,
    p.count,
    λ j. p.slots j ∙ ap (λ (f : ℕ → Option RuleEntry). filled_or (get_elem? es j) (f j)) same.rules,
  )

  -- When Apply succeeds, its result is current and carries the bundle's generation, and the
  -- datapath evaluates exactly the entries of the result's rules, in their order. For bundles of
  -- fewer than 2^31 rules.
  pub apply_ok :
      (b : PolicyBundle) (h : Agent) (ar : ApplyResult)
      → 2 * length b.rules < 4294967296
      → (apply k (some b) h).1 ≡ ok ar
      → ((apply k (some b) h).0.current ≡ some ar)
        × (ar.generation ≡ b.generation)
        × (entries : List RuleEntry) × (convert_rules 0 ar.rules ≡ ok entries)
        × ((apply k (some b) h).0.objs.qf_rule_count ≡ length entries % 2 ^ 32)
        × ((j : ℕ)
            → (apply k (some b) h).0.objs.qf_rules j
              ≡ filled_or (get_elem? entries j) (h.objs.qf_rules j))
  unfolding apply
  apply_ok b h ar room e = elim (Result-cases (compile_bundle (some b))) [
    | inr (y, p) ↦ let bad = rw (p, apply) at e in cc
    | inl (res, p) ↦ elim (Result-cases (install k res h.objs).1) [
      | inr (y, q) ↦ let bad = rw (p, apply, q) at e in cc
      | inl (_, q) ↦
          let (es, c, n, slots) =
            at_success res h.objs (install k res h.objs) q (install-Installed res h.objs) in
          let same = ok_injective (rw (p, apply, q) at e) in
          rw (p, apply, q)
            (
              ap some same,
              sym (ap (λ (r : ApplyResult). r.generation) same),
              es,
              subst (λ (r : ApplyResult). convert_rules 0 r.rules ≡ ok es) same
                  (rw (sort_by-compile_bundle b res room p) at c),
              n,
              slots,
            )
    ]
  ]
