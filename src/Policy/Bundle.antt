-- ===== src/Policy/Bundle.antt =====
-- cp/internal/policy/bundle.go and the enum mappings of ruleset.go: the bundle of a host.
pub mod Conntrack
pub mod Delivery
use qf.Common.{
  ℕ, ◌+◌, Bool, true, false, not, ◌&&◌, ◌||◌, Option, none, some, List, [], ◌∷◌, Text, codes,
  text_eq, map, Result, ok, err, ◌>>=◌, ◌==◌, if◌then◌else◌, ltb, leb,
}
use qf.Common.Int.{ℤ, inc}
use qf.Uuid.{pg_uuid_to_str}
use qf.Proto.{EffectiveRule, PolicyBundle}
use qf.Policy.{Codec, Queries, PolicyError, or_err, invalid_tenant_id, invalid_host_id, get_host}
use qf.Policy.Ruleset.{ResolvedRule, EffectiveRuleset, compile}

-- strings.ToLower on ASCII.
abbrev lower : Text → Text
lower [] = []
lower (c ∷ cs) = (if leb b'A' c && leb c b'Z' then c + 32 else c) ∷ lower cs

unfoldable pub proto_protocol : Text → ℕ
proto_protocol s =
    if text_eq (lower s) (codes "tcp")
    then 2
    else if text_eq (lower s) (codes "udp")
    then 3
    else if text_eq (lower s) (codes "icmp")
    then 4
    else if text_eq (lower s) (codes "icmpv6")
    then 5
    else 1

unfoldable pub proto_action : Text → ℕ
proto_action s =
    if text_eq s (codes "allow")
    then 1
    else if text_eq s (codes "deny")
    then 2
    else if text_eq s (codes "log")
    then 3
    else 2

unfoldable pub proto_direction : Text → ℕ
proto_direction s = if text_eq s (codes "egress") then 2 else 1

unfoldable pub proto_state : Text → ℕ
proto_state s =
    if text_eq s (codes "new")
    then 2
    else if text_eq s (codes "established")
    then 3
    else if text_eq s (codes "related")
    then 4
    else if text_eq s (codes "invalid")
    then 5
    else 1

abbrev pub nullable_string : Option Text → Text
nullable_string none = []
nullable_string (some s) = s

-- A state predicate that needs conntrack: neither none nor unspecified.
abbrev pub is_stateful : ℕ → Bool
is_stateful state = not (state == 1) && not (state == 0)

-- A denied packet is logged unless the rule is silent; a LOG rule always logs.
abbrev pub log_enabled_of : ℕ → Bool → Bool → Bool
log_enabled_of action log silent = (action == 3 || (action == 2 && not silent)) || log

unfoldable pub effective_rule : ResolvedRule → EffectiveRule
unfolding proto_protocol proto_action proto_direction proto_state pg_uuid_to_str
effective_rule rr = record {
  rule_id = pg_uuid_to_str rr.rule.id;
  policy_id = pg_uuid_to_str rr.policy.id;
  rule_name = rr.rule.name;
  policy_name = rr.policy.name;
  policy_priority = rr.policy.priority;
  rule_priority = rr.rule.priority;
  direction = proto_direction rr.rule.direction;
  matching = record {
    protocol = proto_protocol rr.matching.protocol;
    src_cidrs = rr.src_cidrs;
    dst_cidrs = rr.dst_cidrs;
    src_ports = rr.src_ports;
    dst_ports = rr.dst_ports;
    tcp_flags_match = rr.matching.tcp_flags_match;
    tcp_flags_mask = rr.matching.tcp_flags_mask;
  };
  state = proto_state (nullable_string rr.rule.state);
  action = proto_action rr.rule.action;
  log_enabled = log_enabled_of (proto_action rr.rule.action) rr.rule.log rr.rule.silent;
  log_rate_limit_per_sec = 0;
}

-- requiresCT over the loop.
unfoldable pub requires_ct : List ResolvedRule → Bool
unfolding proto_state
requires_ct [] = false
requires_ct (rr ∷ rrs) =
    is_stateful (proto_state (nullable_string rr.rule.state)) || requires_ct rrs

unfoldable pub build_proto_bundle : EffectiveRuleset → ℤ → PolicyBundle
unfolding effective_rule requires_ct proto_action
build_proto_bundle rs generation = record {
  generation = generation;
  rules = map (λ rr. some (effective_rule rr)) rs.rules;
  default_ingress_action = proto_action rs.default_ingress;
  default_egress_action = proto_action rs.default_egress;
  requires_conntrack = requires_ct rs.rules;
}

-- Build, without the signature.
unfoldable pub build : Codec → Queries → Text → Text → ℤ → Result PolicyError PolicyBundle
unfolding compile build_proto_bundle
build codec q tenant_id host_id generation = do
  rs ← compile codec q tenant_id host_id
  ok (build_proto_bundle rs generation)

-- GetBundle: the generation after the one that the host has reported.
unfoldable pub get_bundle : Codec → Queries → Text → Text → Result PolicyError PolicyBundle
unfolding build
get_bundle codec q tenant_id host_id = do
  tenant ← or_err invalid_tenant_id (codec.scan_uuid tenant_id)
  id ← or_err invalid_host_id (codec.scan_uuid host_id)
  h ← or_err get_host (q.get_host id tenant)
  build codec q tenant_id host_id (inc h.current_generation)
