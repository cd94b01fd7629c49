-- ===== src/Policy/Ruleset.antt =====
-- cp/internal/policy/ruleset.go: the effective ruleset of a host.
pub mod Sorted
pub mod Selected
use qf.Common.{
  ℕ, Bool, true, false, ◌&&◌, Option, none, some, List, [], ◌∷◌, ◌++◌, Text, text_lt, Result, ok,
  err, ◌>>=◌, ◌>>◌, ◌==◌, if◌then◌else◌, length, not,
}
use qf.Common.Int.{ℤ, ltb_ℤ}
use qf.Common.Sort.{sort_by, then_by}
use qf.Uuid.{pg_uuid_to_str}
use qf.Proto.{Cidr, PortRange}
use qf.Policy.{
  Raw, Uuid, Labels, Selector, Rule, PolicyRow, RuleMatchSpec, Codec, Queries, PolicyError, or_err,
  invalid_tenant_id, invalid_host_id, get_default_policy, list_policies, get_host, list_rules,
  bad_match,
}
use qf.Policy.Matching.{matches_labels, parse_selector, parse_labels}
use qf.Policy.Resolver.{ResolvedGroup, parse_port_list, parse_cidr_list, resolve}

pub record ResolvedRule : Type 0 where
  pub rule : Rule
  pub policy : PolicyRow
  pub matching : RuleMatchSpec
  pub src_cidrs : List Cidr
  pub dst_cidrs : List Cidr
  pub src_ports : List PortRange
  pub dst_ports : List PortRange

pub record EffectiveRuleset : Type 0 where
  pub rules : List ResolvedRule
  pub default_ingress : Text
  pub default_egress : Text

-- `x, _ = f()`: an error leaves nil.
abbrev pub or_nil {ℓ} : {A : Type ℓ} → Result PolicyError (List A) → List A
or_nil (ok xs) = xs
or_nil (err e) = []

abbrev pub empty_match : RuleMatchSpec
empty_match = record {
  protocol = [];
  src_ip_set_id = [];
  dst_ip_set_id = [];
  src_port_set_id = [];
  dst_port_set_id = [];
  src_host_set_id = [];
  dst_host_set_id = [];
  src_cidrs = [];
  dst_cidrs = [];
  src_ports = [];
  dst_ports = [];
  tcp_flags_mask = 0;
  tcp_flags_match = 0;
}

-- The order of the rules: policy priority, rule priority, rule id.
abbrev pub by_policy_priority : ResolvedRule → ResolvedRule → Bool
by_policy_priority a b = ltb_ℤ a.policy.priority b.policy.priority

abbrev pub by_rule_priority : ResolvedRule → ResolvedRule → Bool
by_rule_priority a b = ltb_ℤ a.rule.priority b.rule.priority

abbrev pub by_rule_id : ResolvedRule → ResolvedRule → Bool
by_rule_id a b = text_lt (pg_uuid_to_str a.rule.id) (pg_uuid_to_str b.rule.id)

unfoldable pub rule_before : ResolvedRule → ResolvedRule → Bool
rule_before = then_by by_policy_priority (then_by by_rule_priority by_rule_id)

-- `labels, _ = parseLabels`: an error leaves what was decoded.
abbrev pub labels_or_partial : Codec → Raw → Option Labels → Labels
labels_or_partial codec raw none = codec.partial_labels raw
labels_or_partial codec raw (some labels) = labels

module _ (codec : Codec) (q : Queries) where
  -- One side's addresses: the IP set, else the host set, else the inline list.
  unfoldable pub resolve_cidrs : Text → Text → Text → List Text → Result PolicyError (List Cidr)
  unfolding resolve parse_cidr_list
  resolve_cidrs tenant_id ip_set_id host_set_id inline =
      if not (length ip_set_id == 0)
      then (do g ← resolve codec q tenant_id ip_set_id; ok g.cidrs)
      else if not (length host_set_id == 0)
      then (do g ← resolve codec q tenant_id host_set_id; ok g.cidrs)
      else ok (or_nil (parse_cidr_list codec inline))

  unfoldable pub resolve_ports : Text → Text → List Text → Result PolicyError (List PortRange)
  unfolding resolve parse_port_list
  resolve_ports tenant_id port_set_id inline =
      if not (length port_set_id == 0)
      then (do g ← resolve codec q tenant_id port_set_id; ok g.ports)
      else ok (or_nil (parse_port_list inline))

  abbrev pub match_spec_of : Raw → Result PolicyError RuleMatchSpec
  match_spec_of [] = ok empty_match
  match_spec_of (b ∷ bs) = or_err bad_match (codec.match_spec (b ∷ bs))

  unfoldable pub resolve_rule : Text → PolicyRow → Rule → Result PolicyError ResolvedRule
  unfolding resolve_cidrs resolve_ports
  resolve_rule tenant_id p r = do
    ms ← match_spec_of r.matching
    src_cidrs ← resolve_cidrs tenant_id ms.src_ip_set_id ms.src_host_set_id ms.src_cidrs
    dst_cidrs ← resolve_cidrs tenant_id ms.dst_ip_set_id ms.dst_host_set_id ms.dst_cidrs
    src_ports ← resolve_ports tenant_id ms.src_port_set_id ms.src_ports
    dst_ports ← resolve_ports tenant_id ms.dst_port_set_id ms.dst_ports
    ok (record {
      rule = r;
      policy = p;
      matching = ms;
      src_cidrs = src_cidrs;
      dst_cidrs = dst_cidrs;
      src_ports = src_ports;
      dst_ports = dst_ports;
    })

  -- The loop over the rules of one policy.
  unfoldable pub resolve_rules :
      Text → PolicyRow → List Rule → Result PolicyError (List ResolvedRule)
  unfolding resolve_rule
  resolve_rules tenant_id p [] = ok []
  resolve_rules tenant_id p (r ∷ rs) = do
    rr ← resolve_rule tenant_id p r
    rest ← resolve_rules tenant_id p rs
    ok (rr ∷ rest)

  unfoldable pub resolve_rules_for_policy :
      Text → PolicyRow → Result PolicyError (List ResolvedRule)
  unfolding resolve_rules
  resolve_rules_for_policy tenant_id p = do
    policy_id ← or_err bad_match (codec.scan_uuid (pg_uuid_to_str p.id))
    rules ← or_err list_rules (q.rules_by_policy policy_id)
    resolve_rules tenant_id p rules

  -- A selector that does not decode matches no host.
  abbrev pub selects : Option Selector → Labels → Bool
  selects none labels = false
  selects (some sel) labels = matches_labels sel labels

  -- The loop over the policies, `rules_of` giving the rules of one.
  unfoldable pub rules_of_policies :
      (PolicyRow → Result PolicyError (List ResolvedRule))
      → Labels
      → List PolicyRow
      → Result PolicyError (List ResolvedRule)
  unfolding parse_selector matches_labels
  rules_of_policies rules_of labels [] = ok []
  rules_of_policies rules_of labels (p ∷ ps) =
      let rest = rules_of_policies rules_of labels ps in
      if selects (parse_selector codec p.selector) labels
      then (do rules ← rules_of p; more ← rest; ok (rules ++ more))
      else rest

  unfoldable pub compile : Text → Text → Result PolicyError EffectiveRuleset
  unfolding rules_of_policies resolve_rules_for_policy sort_by rule_before parse_labels
  compile tenant_id host_id = do
    tenant ← or_err invalid_tenant_id (codec.scan_uuid tenant_id)
    dp ← or_err get_default_policy (q.default_policy tenant)
    policies ← or_err list_policies (q.list_policies tenant)
    id ← or_err invalid_host_id (codec.scan_uuid host_id)
    h ← or_err get_host (q.get_host id tenant)
    resolved ←
        rules_of_policies (resolve_rules_for_policy tenant_id)
          (labels_or_partial codec h.labels (parse_labels codec h.labels)) policies
    ok (record {
      rules = sort_by rule_before resolved;
      default_ingress = dp.default_ingress_action;
      default_egress = dp.default_egress_action;
    })
