-- ===== src/Examples/Server.antt =====
-- The theorems on the control plane (cp/internal) at concrete inputs.
use mathlib.Core.List.{Perm}
use qf.Common.{
  ℕ, ◌+◌, ◌*◌, ◌≤◌, ◌<◌, ◌≡◌, ◌↔◌, refl, true, false, none, some, List, [], ◌∷◌, length, ok, arith,
  All, codes, Text, text_eq,
}
use qf.Common.Int.{pos}
use qf.Loader.{RuleEntry, RuleSpec}
use qf.Loader.Rules.{convert_rules}
use qf.Loader.Rules.Valid.{IsWellFormed}
use qf.Compiler.{CompileResult, compile_bundle}
use qf.Policy.{Uuid, Host, PolicyRow, Rule, Codec, Queries, Labels, Selector}
use qf.Policy.Matching.{empty_selector, matches_labels}
use qf.Policy.Matching.Meaning.{HasLabel, Satisfies, matches_labels_iff}
use qf.Policy.Resolver.{parse_port_range}
use qf.Policy.Ruleset.{ResolvedRule, EffectiveRuleset, empty_match, compile}
use qf.Policy.Ruleset.Sorted.{IsResolved, IsSorted, compile-IsOrdered}
use qf.Policy.Bundle.{build_proto_bundle}
use qf.Policy.Bundle.Conntrack.{IsStateless, requires_conntrack_iff}
use qf.Policy.Bundle.Delivery.{delivered_rules_convert}
use qf.Server.Registry.{StreamRegistry, register, deregister, dispatch}
use qf.Server.Registry.Sessions.{stale_deregister_drops}
use qf.Server.Registry
use qf.Server.RateLimit.{LoginWindow, Windows, window_of}
use qf.Server.RateLimit.Windows.{allowed_to, allowed_to-le}

ports_parse : parse_port_range (codes "8000-8080") ≡ ok (record { start = 8000; end = 8080 })
unfolding parse_port_range
ports_parse = refl

abbrev pub id_of : ℕ → Uuid
id_of n =
    n ∷ 17 ∷ 34 ∷ 51 ∷ 68 ∷ 85 ∷ 102 ∷ 119 ∷ 136 ∷ 153 ∷ 170 ∷ 187 ∷ 204 ∷ 221 ∷ 238 ∷ 255 ∷ []

-- A codec that reads every column as its empty value, and every text as one id.
abbrev pub codec : Codec
codec = record {
  scan_uuid = λ s. some (id_of 0);
  selector = λ s. some empty_selector;
  partial_selector = λ s. empty_selector;
  labels = λ s. some [];
  partial_labels = λ s. [];
  match_spec = λ s. some empty_match;
  ipset_spec = λ s. some [];
  portset_spec = λ s. some [];
  hostset_spec = λ s. some empty_selector;
  parse_cidr = λ s. none;
  parse_ip = λ s. none;
}

abbrev pub host : Host
host = record {
  id = id_of 0;
  hostname = codes "web1";
  labels = [];
  status = codes "active";
  current_generation = pos 0;
  desired_generation = pos 1;
}

abbrev pub policy : PolicyRow
policy = record { id = id_of 1; name = codes "base"; priority = pos 5; selector = [] }

abbrev pub deny : Rule
deny = record {
  id = id_of 2;
  policy_id = id_of 1;
  name = codes "deny";
  priority = pos 20;
  direction = codes "ingress";
  matching = [];
  state = some (codes "none");
  action = codes "deny";
  log = false;
  silent = false;
}

abbrev pub allow_first : Rule
allow_first = record deny { id = id_of 3; priority = pos 10; action = codes "allow" }

abbrev pub queries : Queries
queries = record {
  list_hosts = λ t. some (host ∷ []);
  get_host = λ h t. some host;
  default_policy = λ t.
      some
        (record { default_ingress_action = codes "deny"; default_egress_action = codes "allow" });
  list_policies = λ t. some (policy ∷ []);
  rules_by_policy = λ p. some (deny ∷ allow_first ∷ []);
  object_group = λ g t. none;
  get_policy = λ p t. some policy;
  rule_ids_by_object_group = λ g. some (id_of 2 ∷ []);
  get_rule = λ r. some deny;
}

abbrev pub resolved : Rule → ResolvedRule
resolved r = record {
  rule = r;
  policy = policy;
  matching = empty_match;
  src_cidrs = [];
  dst_cidrs = [];
  src_ports = [];
  dst_ports = [];
}

abbrev pub host_rules : EffectiveRuleset
host_rules = record {
  rules = resolved allow_first ∷ resolved deny ∷ [];
  default_ingress = codes "deny";
  default_egress = codes "allow";
}

ruleset_compiles : compile codec queries [] [] ≡ ok host_rules
unfolding compile
ruleset_compiles = refl

compile-IsOrdered_example :
    IsSorted host_rules.rules
    × ((rules : List ResolvedRule) × IsResolved codec queries [] [] rules
        × Perm host_rules.rules rules)
compile-IsOrdered_example = compile-IsOrdered codec queries [] [] host_rules ruleset_compiles

requires_conntrack_iff_example :
    ((build_proto_bundle host_rules (pos 1)).requires_conntrack ≡ false)
    ↔ All IsStateless (build_proto_bundle host_rules (pos 1)).rules
requires_conntrack_iff_example = requires_conntrack_iff host_rules (pos 1)

abbrev allow_spec : RuleSpec
allow_spec = record {
  id = id_of 3;
  priority = pos 0;
  action = 1;
  log_enabled = false;
  log_rate_limit = 0;
  matching = record {
    protocol = 1;
    direction = 1;
    state = 1;
    src_cidrs = [];
    dst_cidrs = [];
    src_ports = [];
    dst_ports = [];
    src_ipset_id = 0;
    dst_ipset_id = 0;
  };
}

abbrev delivered : CompileResult
delivered = record {
  rules =
      allow_spec
      ∷ record allow_spec { id = id_of 2; priority = pos 1; action = 2; log_enabled = true }
      ∷ [];
  config = record {
    conntrack_enabled = false;
    flow_events_enabled = false;
    default_ingress = 2;
    default_egress = 1;
  };
  ipsets = [];
  warnings = [];
}

ruleset_delivered : compile_bundle (some (build_proto_bundle host_rules (pos 1))) ≡ ok delivered
unfolding compile_bundle build_proto_bundle text_eq
ruleset_delivered = refl

few_rules : 2 * length (build_proto_bundle host_rules (pos 1)).rules < 4294967296
unfolding build_proto_bundle
few_rules = omega arith

delivered_rules_convert_example :
    All IsWellFormed delivered.rules
    × ((entries : List RuleEntry) × (convert_rules 0 delivered.rules ≡ ok entries)
        × (length entries ≡ 2))
delivered_rules_convert_example =
    delivered_rules_convert host_rules (pos 1) delivered few_rules ruleset_delivered

abbrev pub web1 : Text
web1 = codes "web1"

abbrev nobody : StreamRegistry ℕ
nobody = record { streams = []; active_streams = pos 0 }

abbrev after : StreamRegistry ℕ
after = deregister web1 (register web1 2 (register web1 1 nobody))

stale_deregister_drops_example :
    (Registry.lookup web1 after.streams ≡ none) × (dispatch web1 8 true after ≡ after)
stale_deregister_drops_example = stale_deregister_drops web1 1 2 8 true nobody

abbrev one_login : LoginWindow
one_login = record { count = 1; start = 0 }

abbrev windows : Windows
windows = (web1, one_login) ∷ []

window_found : window_of web1 windows ≡ some one_login
unfolding window_of text_eq
window_found = refl

allowed_to-le_example : 1 + allowed_to web1 ((web1, 5) ∷ (web1, 6) ∷ []) windows ≤ 5
allowed_to-le_example =
    allowed_to-le web1 ((web1, 5) ∷ (web1, 6) ∷ []) windows one_login window_found (omega arith)
      (refl, (refl, tt))

abbrev prod_web : Selector
prod_web = record {
  match_labels = (codes "env", codes "prod") ∷ [];
  match_expressions =
      record { key = codes "tier"; operator = codes "NotIn"; values = codes "db" ∷ [] } ∷ [];
}

abbrev prod_labels : Labels
prod_labels = (codes "env", codes "prod") ∷ (codes "tier", codes "web") ∷ []

matches_labels_iff_example : (matches_labels prod_web prod_labels ≡ true) ↔ (
    All (HasLabel prod_labels) prod_web.match_labels
    × All (Satisfies prod_labels) prod_web.match_expressions)
matches_labels_iff_example = matches_labels_iff prod_web prod_labels
