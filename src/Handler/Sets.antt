-- ===== src/Handler/Sets.antt =====
-- Which sets the datapath has after Apply.
use qf.Common.{
  ℕ, ◌≡◌, ◌∙◌, ap, refl, Bool, false, ◌||◌, some, List, [], ◌∷◌, ok, inl, inr, Result-cases, arith,
}
use qf.Proto.{PolicyBundle}
use qf.Loader.{Cidr4, BpfObjects, Kernel, Config, IpsetLpmKey}
use qf.Loader.Rules.{push_rules}
use qf.Loader.Rules.Push.{push_rules-IsPublished}
use qf.Loader.Ipset.{push_ipset, clear_ipsets}
use qf.Loader.Ipset.Clear.{clear_ipsets_ok}
use qf.Loader.Ipset.Fill.{has_key, listed, push_ipset-has_key}
use qf.Loader.Settings.{set_config}
use qf.Compiler.{CompileResult, compile_bundle}
use qf.Handler.{ApplyResult, Agent, push_ipsets, install, apply}

-- Whether a prefix of some set has this key.
unfoldable pub listed_in : IpsetLpmKey → List (ℕ × List Cidr4) → Bool
unfolding listed
listed_in key [] = false
listed_in key ((id, cidrs) ∷ sets) = listed_in key sets || listed key id cidrs

module _ (k : Kernel) where
  or_assoc : (a b c : Bool) → a || (b || c) ≡ (a || b) || c
  or_assoc a b c = ground arith

  push_ipsets-has_key :
      (sets : List (ℕ × List Cidr4)) (m : BpfObjects) (key : IpsetLpmKey)
      → (push_ipsets k sets m).1 ≡ ok tt
      → has_key key (push_ipsets k sets m).0.qf_ipsets
        ≡ listed_in key sets || has_key key m.qf_ipsets
  unfolding push_ipsets listed_in
  push_ipsets-has_key [] m key h = refl
  push_ipsets-has_key ((id, cidrs) ∷ sets) m key h =
      elim (Result-cases (push_ipset k id cidrs m).1) [
        | inr (e, p) ↦ let bad = rw (p, push_ipsets) at h in cc
        | inl (_, p) ↦
            let ih =
              push_ipsets-has_key sets (push_ipset k id cidrs m).0 key (rw (p, push_ipsets) at h) in
            let here = (push_ipset-has_key k id cidrs m p).1 key in
            rw (p, push_ipsets)
              (ih
                ∙ ap (◌||◌ (listed_in key sets)) here
                ∙ or_assoc (listed_in key sets) (listed key id cidrs) (has_key key m.qf_ipsets))
      ]

  set_config-ipsets : (c : Config) (m : BpfObjects) → (set_config k c m).0.qf_ipsets ≡ m.qf_ipsets
  unfolding set_config
  set_config-ipsets c m = ground arith

  or_nothing : (a : Bool) → a || false ≡ a
  or_nothing a = ground arith

  install-has_key :
      (res : CompileResult) (m : BpfObjects) (key : IpsetLpmKey)
      → (install k res m).1 ≡ ok tt
      → has_key key (install k res m).0.qf_ipsets ≡ listed_in key res.ipsets
  unfolding install has_key
  install-has_key res m key h =
      let m₁ = (clear_ipsets k m).0 in
      let m₂ = (push_ipsets k res.ipsets m₁).0 in
      let m₃ = (set_config k res.config m₂).0 in
      elim (Result-cases (clear_ipsets k m).1) [
        | inr (x, p) ↦ let bad = rw (p, install) at h in cc
        | inl (_, p) ↦ elim (Result-cases (push_ipsets k res.ipsets m₁).1) [
          | inr (x, q) ↦ let bad = rw (p, install, q) at h in cc
          | inl (_, q) ↦ elim (Result-cases (set_config k res.config m₂).1) [
            | inr (x, r) ↦ let bad = rw (p, install, q, r) at h in cc
            | inl (_, r) ↦ elim (Result-cases (push_rules k m₃ res.rules).1) [
              | inr (x, s) ↦ let bad = rw (p, install, q, r, s) at h in cc
              | inl (_, s) ↦
                  let (es, _, published) = push_rules-IsPublished k m₃ res.rules s in
                  let empty : m₁.qf_ipsets ≡ [] = (clear_ipsets_ok k m p).0 in
                  rw (p, install, q, r, s)
                    (ap (has_key key) (published.outside.ipsets ∙ set_config-ipsets res.config m₂)
                      ∙ push_ipsets-has_key res.ipsets m₁ key q
                      ∙ ap (λ l. listed_in key res.ipsets || has_key key l) empty
                      ∙ or_nothing (listed_in key res.ipsets))
            ]
          ]
        ]
      ]

  -- When Apply succeeds, the trie holds a key exactly if one of the sets of the compiled bundle
  -- lists it: nothing of an earlier bundle is left.
  pub apply-has_key :
      (b : PolicyBundle) (h : Agent) (res : CompileResult) (ar : ApplyResult) (key : IpsetLpmKey)
      → compile_bundle (some b) ≡ ok res
      → (apply k (some b) h).1 ≡ ok ar
      → has_key key (apply k (some b) h).0.objs.qf_ipsets ≡ listed_in key res.ipsets
  unfolding apply
  apply-has_key b h res ar key p e = elim (Result-cases (install k res h.objs).1) [
    | inr (y, q) ↦ let bad = rw (p, apply, q) at e in cc
    | inl (_, q) ↦ rw (p, apply, q) (install-has_key res h.objs key q)
  ]
