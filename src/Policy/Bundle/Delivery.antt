-- ===== src/Policy/Bundle/Delivery.antt =====
-- A bundle of the control plane at the agent: what the one writes, the other accepts.
use mathlib.Core.Path.{subst}
use qf.Common.{
  ℕ, ◌*◌, ◌%◌, ◌<◌, ◌≤◌, ◌≡◌, ◌∙◌, sym, ap, length-map, zero, suc, true, some, List, [], ◌∷◌, map,
  Text, length, get_elem?, All, ok, arith,
}
use qf.Common.Int.{ℤ}
use qf.Proto
use qf.Proto.{EffectiveRule}
use qf.Loader.{RuleSpec, RuleEntry, Cidr4, PortRange}
use qf.Loader.Rules.{is_action, is_protocol, is_direction, convert_rules}
use qf.Loader.Rules.Valid.{IsWellFormed, convert_rules_ok}
use qf.Compiler.{CompileResult, compile_bundle, u8_or}
use qf.Compiler.Rule.{ArePorts, port_range, IsRuleOf}
use qf.Compiler.Order.{IsFrom, compile_bundle-IsFrom}
use qf.Policy.Ruleset.{ResolvedRule, EffectiveRuleset}
use qf.Policy.Bundle.{
  effective_rule, build_proto_bundle, proto_action, proto_direction, proto_protocol,
}

proto_action_known : (s : Text) → is_action (proto_action s % 256) ≡ true
unfolding proto_action
proto_action_known s = ground arith

proto_direction_known : (s : Text) → is_direction (proto_direction s % 256) ≡ true
unfolding proto_direction
proto_direction_known s = ground arith

proto_protocol_known : (s : Text) → is_protocol (u8_or (proto_protocol s) 1) ≡ true
unfolding proto_protocol
proto_protocol_known s = ground arith

-- The rule of the bundle is one that the control plane built.
nth_rule :
    (rrs : List ResolvedRule) (n : ℕ) {er : EffectiveRule}
    → get_elem? (map (λ rr. some (effective_rule rr)) rrs) n ≡ some (some er)
    → (rr : ResolvedRule) × (er ≡ effective_rule rr)
nth_rule [] n h = cc
nth_rule (rr ∷ rrs) zero h = (rr, cc)
nth_rule (rr ∷ rrs) (suc n) h = nth_rule rrs n h

length-ports : {ps : List Proto.PortRange} {out : List PortRange} → ArePorts ps out → length out ≤ 8
length-ports {ps} a =
    subst (λ (o : List PortRange). length o ≤ 8) (sym a.same)
      (omega (arith, length-map port_range ps, a.few))

IsRuleOf-IsWellFormed :
    (rr : ResolvedRule) (sets : List (ℕ × List Cidr4)) (spec : RuleSpec)
    → IsRuleOf (effective_rule rr) sets spec
    → IsWellFormed spec
unfolding effective_rule
IsRuleOf-IsWellFormed rr sets spec r = record {
  action_known = ap is_action r.action.0 ∙ proto_action_known rr.rule.action;
  protocol_known = ap is_protocol r.protocol ∙ proto_protocol_known rr.matching.protocol;
  direction_known = ap is_direction r.direction.0 ∙ proto_direction_known rr.rule.direction;
  src_cidrs_fit = r.src.fits;
  dst_cidrs_fit = r.dst.fits;
  src_ports_fit = length-ports r.src_ports;
  dst_ports_fit = length-ports r.dst_ports;
  src_ports_ordered = r.src_ports.ordered;
  dst_ports_ordered = r.dst_ports.ordered;
  src_cidrs_ipv4 = r.src.ipv4;
  dst_cidrs_ipv4 = r.dst.ipv4;
}

All-IsWellFormed :
    (rrs : List ResolvedRule) (sets : List (ℕ × List Cidr4)) (specs : List RuleSpec)
    → All (IsFrom 0 (map (λ rr. some (effective_rule rr)) rrs) sets) specs
    → All IsWellFormed specs
All-IsWellFormed rrs sets [] h = tt
All-IsWellFormed rrs sets (spec ∷ specs) ((n, er, g, _, r), h) =
    let (rr, e) = nth_rule rrs n g in
    (
      IsRuleOf-IsWellFormed rr sets spec (subst (λ x. IsRuleOf x sets spec) e r),
      All-IsWellFormed rrs sets specs h,
    )

-- Whatever ruleset the control plane sends: if the agent compiles the bundle, then every rule that
-- it got converts to an entry, so PushRules never refuses a rule of it. For fewer than 2^31 rules.
pub delivered_rules_convert :
    (rs : EffectiveRuleset) (generation : ℤ) (res : CompileResult)
    → 2 * length (build_proto_bundle rs generation).rules < 4294967296
    → compile_bundle (some (build_proto_bundle rs generation)) ≡ ok res
    → All IsWellFormed res.rules
      × ((entries : List RuleEntry) × (convert_rules 0 res.rules ≡ ok entries)
          × (length entries ≡ length res.rules))
unfolding build_proto_bundle
delivered_rules_convert rs generation res room h =
    let from = compile_bundle-IsFrom (build_proto_bundle rs generation) res room h in
    let well = All-IsWellFormed rs.rules res.ipsets res.rules from.0 in
    (well, convert_rules_ok 0 res.rules well)
