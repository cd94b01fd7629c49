-- ===== src/Examples/Agent.antt =====
-- The theorems on bundles and on telemetry (agent/internal) at concrete inputs.
use qf.Common.{
  ℕ, zero, suc, ◌+◌, ◌%◌, ◌^◌, ◌≡◌, refl, Bool, true, false, none, some, List, [], ◌∷◌, length,
  get_elem?, ok, err, arith, All, codes, ◌==◌,
}
use qf.Common.Int.{pos}
use qf.Proto.{Cidr, EffectiveRule, PolicyBundle}
use qf.Loader.{BpfObjects, Kernel, RuleEntry, RuleSpec, LoadError, Cidr4, IpsetLpmKey}
use qf.Loader.Rules.{convert_rules}
use qf.Loader.Rules.Push.{filled_or}
use qf.Compiler.{CompileResult, compile_bundle, compile_cidrs, matched, no_ipsets, src_all_ipv6}
use qf.Compiler.Spill.{IsNumbered}
use qf.Compiler.Order.{IsFrom, compile_bundle-IsFrom, compile_bundle-IsNumbered}
use qf.Handler.{Agent, ApplyResult, ApplyError, apply}
use qf.Loader.Ipset.Fill.{has_key}
use qf.Handler.Sets.{listed_in, apply-has_key}
use qf.Handler.Atomic.{apply_err-keeps_current, apply_ok}
use qf.Telemetry.DiskBuffer.{File, ReplayEnv, replay}
use qf.Telemetry.DiskBuffer.Replay.{IsReplay, replay-IsReplay}
use qf.Telemetry.Batcher.{EventBatcher, Wake, new_event_batcher, step}
use qf.Telemetry.Batcher.Conservation.{IsConserving, step-IsConserving}

abbrev some_id : List ℕ
some_id =
    0 ∷ 17 ∷ 34 ∷ 51 ∷ 68 ∷ 85 ∷ 102 ∷ 119 ∷ 136 ∷ 153 ∷ 170 ∷ 187 ∷ 204 ∷ 221 ∷ 238 ∷ 255 ∷ []

abbrev kernel : Kernel
kernel = record {
  rule_put_ok = λ i. true;
  count_put_ok = true;
  config_put_ok = λ i. true;
  config_lookup_ok = λ i. true;
  ipset_update_ok = λ key. true;
  ipset_iterate_ok = true;
  ipset_delete_ok = λ key. true;
}

abbrev web : EffectiveRule
web = record {
  rule_id = codes "00112233-4455-6677-8899-aabbccddeeff";
  policy_id = [];
  rule_name = codes "web";
  policy_name = [];
  policy_priority = pos 10;
  rule_priority = pos 1;
  direction = 1;
  matching = record {
    protocol = 2;
    src_cidrs = record { ip = 10 ∷ 1 ∷ 0 ∷ 0 ∷ []; prefix_len = 16 } ∷ [];
    dst_cidrs = [];
    src_ports = [];
    dst_ports = record { start = 443; end = 443 } ∷ [];
    tcp_flags_match = 0;
    tcp_flags_mask = 0;
  };
  state = 1;
  action = 1;
  log_enabled = false;
  log_rate_limit_per_sec = 0;
}

abbrev bundle : PolicyBundle
bundle = record {
  generation = pos 4;
  rules = some web ∷ some (record web { action = 2 }) ∷ [];
  default_ingress_action = 2;
  default_egress_action = 0;
  requires_conntrack = false;
}

abbrev maps : BpfObjects
maps = record {
  qf_rules = λ i. none;
  qf_rule_count = 0;
  qf_config = λ i. 0;
  qf_ipsets = [];
  max_rules = 2048;
}

abbrev agent : Agent
agent = record { objs = maps; current = none }

abbrev web_spec : RuleSpec
web_spec = record {
  id = some_id;
  priority = pos 0;
  action = 1;
  log_enabled = false;
  log_rate_limit = 0;
  matching = record {
    protocol = 2;
    direction = 1;
    state = 1;
    src_cidrs = record { ip = 10 ∷ 1 ∷ 0 ∷ 0 ∷ []; ones = 16 } ∷ [];
    dst_cidrs = [];
    src_ports = [];
    dst_ports = record { start = 443; end = 443 } ∷ [];
    src_ipset_id = 0;
    dst_ipset_id = 0;
  };
}

abbrev specs : List RuleSpec
specs = web_spec ∷ record web_spec { priority = pos 1; action = 2 } ∷ []

abbrev result : CompileResult
result = record {
  rules = specs;
  config = record {
    conntrack_enabled = false;
    flow_events_enabled = false;
    default_ingress = 2;
    default_egress = 1;
  };
  ipsets = [];
  warnings = [];
}

bundle_compiles : compile_bundle (some bundle) ≡ ok result
unfolding compile_bundle
bundle_compiles = refl

compile_bundle-IsFrom_example :
    All (IsFrom 0 bundle.rules []) specs × (length specs + 0 ≡ length bundle.rules)
compile_bundle-IsFrom_example = compile_bundle-IsFrom bundle result (omega arith) bundle_compiles

-- Nine prefixes, more than fit inline.
abbrev nine : ℕ → ℕ → List Cidr
nine zero b = []
nine (suc n) b = record { ip = 10 ∷ b ∷ 0 ∷ 0 ∷ []; prefix_len = 16 } ∷ nine n (b + 1)

abbrev nine4 : ℕ → ℕ → List Cidr4
nine4 zero b = []
nine4 (suc n) b = record { ip = 10 ∷ b ∷ 0 ∷ 0 ∷ []; ones = 16 } ∷ nine4 n (b + 1)

abbrev set_bundle : PolicyBundle
set_bundle = record bundle {
  rules = some (record web { matching = record web.matching { src_cidrs = nine 9 1 } }) ∷ [];
}

abbrev set_result : CompileResult
set_result = record result {
  rules =
      record web_spec { matching = record web_spec.matching { src_cidrs = []; src_ipset_id = 1 } }
      ∷ [];
  ipsets = (1, nine4 9 1) ∷ [];
}

set_bundle_compiles : compile_bundle (some set_bundle) ≡ ok set_result
unfolding compile_bundle
set_bundle_compiles = refl

compile_bundle-IsNumbered_example : IsNumbered 0 set_result.ipsets (length set_result.ipsets)
compile_bundle-IsNumbered_example =
    compile_bundle-IsNumbered set_bundle set_result (omega arith) set_bundle_compiles

abbrev applied : ApplyResult
applied = record { generation = pos 4; warnings = []; rules = specs }

apply_installs : (apply kernel (some bundle) agent).1 ≡ ok applied
unfolding apply
apply_installs = refl

apply_ok_example :
    ((apply kernel (some bundle) agent).0.current ≡ some applied)
    × (applied.generation ≡ pos 4)
    × (entries : List RuleEntry) × (convert_rules 0 specs ≡ ok entries)
    × ((apply kernel (some bundle) agent).0.objs.qf_rule_count ≡ length entries % 2 ^ 32)
    × ((j : ℕ)
        → (apply kernel (some bundle) agent).0.objs.qf_rules j
          ≡ filled_or (get_elem? entries j) (agent.objs.qf_rules j))
apply_ok_example = apply_ok kernel bundle agent applied (omega arith) apply_installs

-- A kernel that does not take the new rule count.
abbrev full_kernel : Kernel
full_kernel = record kernel { count_put_ok = false }

apply_stops :
    (apply full_kernel (some bundle) agent).1
    ≡ err (ApplyError.push_rules_failed LoadError.write_rule_count)
unfolding apply
apply_stops = refl

apply_err-keeps_current_example :
    ((apply full_kernel (some bundle) agent).0.current ≡ none)
    × ((apply full_kernel (some bundle) agent).0.objs.qf_rule_count ≡ 0)
apply_err-keeps_current_example =
    apply_err-keeps_current full_kernel (some bundle) agent
      (ApplyError.push_rules_failed LoadError.write_rule_count) apply_stops

side_matched :
    (compile_cidrs src_all_ipv6 web.matching.src_cidrs no_ipsets).1
    ≡ matched web_spec.matching.src_cidrs 0
unfolding compile_cidrs
side_matched = refl

abbrev big_file : File ℕ
big_file = record { ns = 2; size = 60000000; msg = some 2 }

abbrev directory : List (File ℕ)
directory = big_file ∷ record big_file { ns = 1; msg = some 1 } ∷ []

abbrev sends_first : ℕ → Bool
sends_first m = m == 1

abbrev replay_env : ReplayEnv ℕ
replay_env = record { ended = λ f. false; readable = λ f. true; removable = λ f. true }

replay-IsReplay_example :
    IsReplay replay_env sends_first directory
      (replay replay_env sends_first directory).0
      (replay replay_env sends_first directory).1
      (replay replay_env sends_first directory).2
replay-IsReplay_example = replay-IsReplay replay_env sends_first directory

abbrev batcher : EventBatcher ℕ
batcher = record (new_event_batcher 2 0 true) { batch = 1 ∷ [] }

step-IsConserving_example :
    IsConserving false true 1 batcher (step (Wake.event 7) false true batcher).0
step-IsConserving_example = step-IsConserving (Wake.event 7) false true batcher

-- The trie holds a key of an earlier bundle.
abbrev old_agent : Agent
old_agent = record {
  objs = record maps { qf_ipsets = record { prefixlen = 40; ipset_id = 7; addr = 10 } ∷ [] };
  current = none;
}

abbrev set_applied : ApplyResult
set_applied = record { generation = pos 4; warnings = []; rules = set_result.rules }

set_apply_installs : (apply kernel (some set_bundle) old_agent).1 ≡ ok set_applied
unfolding apply
set_apply_installs = refl

abbrev new_key : IpsetLpmKey
new_key = record { prefixlen = 48; ipset_id = 1; addr = 266 }

apply-has_key_example :
    has_key new_key (apply kernel (some set_bundle) old_agent).0.objs.qf_ipsets
    ≡ listed_in new_key set_result.ipsets
apply-has_key_example =
    apply-has_key kernel set_bundle old_agent set_result set_applied new_key set_bundle_compiles
      set_apply_installs
