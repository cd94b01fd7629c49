-- ===== src/Policy/Bundle/Conntrack.antt =====
-- When a bundle asks for conntrack.
use qf.Common.{
  Text, ◌≡◌, ◌↔◌, refl, ap, Bool, false, ◌||◌, Option, some, none, List, [], ◌∷◌, map, All, arith,
}
use qf.Common.Int.{ℤ}
use qf.Proto.{EffectiveRule}
use qf.Policy.Ruleset.{ResolvedRule, EffectiveRuleset}
use qf.Policy.Bundle.{
  effective_rule, requires_ct, build_proto_bundle, is_stateful, proto_state, nullable_string,
}

-- A rule that matches without a state.
abbrev pub IsStateless : Option EffectiveRule → Type 0
IsStateless none = Unit
IsStateless (some er) = er.state ≡ 1

proto_state_stateless :
    (o : Option Text)
    → is_stateful (proto_state (nullable_string o)) ≡ false
    → proto_state (nullable_string o) ≡ 1
unfolding proto_state
proto_state_stateless o h = ground arith

or_false : (a b : Bool) → a || b ≡ false → (a ≡ false) × (b ≡ false)
or_false a b h = (ground arith, ground arith)

false_or : (a b : Bool) → a ≡ false → b ≡ false → a || b ≡ false
false_or a b p q = ground arith

IsStateless-iff :
    (rrs : List ResolvedRule)
    → (requires_ct rrs ≡ false) ↔ All IsStateless (map (λ rr. some (effective_rule rr)) rrs)
unfolding requires_ct effective_rule
IsStateless-iff [] = (λ _. tt, λ _. refl)
IsStateless-iff (rr ∷ rrs) =
    let state = proto_state (nullable_string rr.rule.state) in
    let (there, back) = IsStateless-iff rrs in
    (
      λ h.
          let (a, b) = or_false (is_stateful state) (requires_ct rrs) h in
          (proto_state_stateless rr.rule.state a, there b),
      λ h. false_or (is_stateful state) (requires_ct rrs) (ap is_stateful h.0) (back h.1),
    )

-- A bundle does without conntrack exactly when every rule in it matches without a state.
pub requires_conntrack_iff :
    (rs : EffectiveRuleset) (generation : ℤ)
    → ((build_proto_bundle rs generation).requires_conntrack ≡ false)
      ↔ All IsStateless (build_proto_bundle rs generation).rules
unfolding build_proto_bundle
requires_conntrack_iff rs generation = IsStateless-iff rs.rules
