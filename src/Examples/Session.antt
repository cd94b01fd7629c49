-- ===== src/Examples/Session.antt =====
-- The theorems on sessions, cascades and dry runs at concrete inputs.
use qf.Common.{
  ℕ, ◌≡◌, refl, true, false, some, none, List, [], ◌∷◌, length, ok, arith, codes, if◌then◌else◌,
  inl, ◌||◌, ◌%◌, ◌^◌, Text, text_eq, map, All,
}
use qf.Common.Int.{pos}
use qf.Proto.{PolicyBundle}
use qf.Loader.{BpfObjects, Kernel}
use qf.Handler.{Agent, ApplyResult, apply}
use qf.Session.{SignedBundle}
use qf.Session.Signature.{Crypto, IsKeyPair, sign_bundle, verify_bundle}
use qf.Session.Client.{handshake, handle_bundle}
use qf.Session.Service.{PeerIdentity, HostRow, Desk, opening, parse_uuids}
use qf.Session.Opening.{settled, handshake-opening}
use qf.Session.Applied.{reports_success, handle_bundle_success}
use qf.Session.Agent.{generation_of}
use qf.Session.CatchUp.{reconnect, reconnect_behind}
use qf.Loader.{RuleEntry}
use qf.Loader.Rules.{convert_rules}
use qf.Policy.Matching.{empty_selector, parse_selector}
use qf.Policy.DryRun.{DryRunRuleSpec, diff_rulesets, dry_run_preview}
use qf.Policy.DryRun.Diff.{IsDiff, diff_rulesets-IsDiff}
use qf.Policy.DryRun.Same.{spec_of, IsStored, IsOwn, dry_run_preview_same}
use qf.Policy.Cascade.{Propagation, on_policy_changed_with_old_selector}
use qf.Policy.Cascade.Reach
use qf.Policy.Cascade.Reach.{matched, lookup-on_policy_changed}
use qf.Server.Registry
use qf.Server.Registry.{StreamRegistry, register}
use qf.Policy.{Uuid, PolicyRow, Codec}
use qf.Uuid.{parse_uuid, pg_uuid_to_str}
use mathlib.Core.Path.{subst}
use qf.Examples.Server.{
  codec, queries, host, policy, deny, allow_first, resolved, host_rules, id_of, web1,
}

abbrev pub kernel : Kernel
kernel = record {
  rule_put_ok = λ i. true;
  count_put_ok = true;
  config_put_ok = λ i. true;
  config_lookup_ok = λ i. true;
  ipset_update_ok = λ key. true;
  ipset_iterate_ok = true;
  ipset_delete_ok = λ key. true;
}

abbrev maps : BpfObjects
maps = record {
  qf_rules = λ i. none;
  qf_rule_count = 0;
  qf_config = λ i. 0;
  qf_ipsets = [];
  max_rules = 2048;
}

abbrev pub agent : Agent
agent = record { objs = maps; current = none }

abbrev pub crypto : Crypto
crypto = record {
  marshal = λ b. some (1 ∷ []);
  sign = λ priv_key msg. 7 ∷ [];
  verify = λ pub_key msg sig. true;
}

abbrev pub pub_key : List ℕ
pub_key =
    0 ∷ 1 ∷ 2 ∷ 3 ∷ 4 ∷ 5 ∷ 6 ∷ 7 ∷ 8 ∷ 9 ∷ 10 ∷ 11 ∷ 12 ∷ 13 ∷ 14 ∷ 15 ∷ 16 ∷ 17 ∷ 18 ∷ 19 ∷ 20
    ∷ 21 ∷ 22 ∷ 23 ∷ 24 ∷ 25 ∷ 26 ∷ 27 ∷ 28 ∷ 29 ∷ 30 ∷ 31 ∷ []

pub keys : IsKeyPair crypto (7 ∷ []) pub_key
keys = record { size = refl; nonempty = λ msg. refl; verifies = λ msg. refl }

abbrev deny_all : PolicyBundle
deny_all = record {
  generation = pos 1;
  rules = [];
  default_ingress_action = 2;
  default_egress_action = 1;
  requires_conntrack = false;
}

abbrev pub unsigned : SignedBundle
unsigned = record { bundle = deny_all; signed_at = none; signature = [] }

abbrev pub signed : SignedBundle
signed = record { bundle = deny_all; signed_at = some 5; signature = 7 ∷ [] }

pub bundle_is_signed : sign_bundle crypto (7 ∷ []) 5 unsigned ≡ ok signed
unfolding sign_bundle
bundle_is_signed = refl

abbrev row : HostRow
row = record {
  current_generation = pos 0;
  desired_generation = pos 1;
  flow_events_enabled = false;
  connected = false;
}

handshake-opening_example :
    handshake (pos 0) (opening (pos 0) row (some signed)) ≡ settled (pos 0) row (some signed)
handshake-opening_example = handshake-opening (pos 0) row (some signed)

abbrev applied : ApplyResult
applied = record { generation = pos 1; warnings = []; rules = [] }

bundle_applies : (apply kernel (some deny_all) agent).1 ≡ ok applied
unfolding apply
bundle_applies = refl

reported : reports_success (handle_bundle crypto kernel signed pub_key true true agent).1 ≡ true
unfolding handle_bundle
reported = refl

abbrev id : PeerIdentity
id = record { host_id = web1; tenant_id = web1 }

ids_parse : parse_uuids codec id ≡ some (id_of 0, id_of 0)
unfolding parse_uuids
ids_parse = refl

abbrev desk : Desk
desk = record { row = row; ingested = [] }

reconnect_behind_example :
    (generation_of (reconnect codec id crypto kernel pub_key (some signed) agent desk).0.current
      ≡ pos 1)
    × ((reconnect codec id crypto kernel pub_key (some signed) agent desk).1.row.current_generation
        ≡ pos 1)
reconnect_behind_example =
    reconnect_behind codec id crypto kernel (7 ∷ []) pub_key 5 0 unsigned signed agent desk
      (id_of 0, id_of 0) applied ids_parse keys bundle_is_signed refl refl (omega arith)
      (omega arith) refl bundle_applies

handle_bundle_success_example :
    (verify_bundle crypto signed pub_key ≡ ok tt)
    × (ar : ApplyResult) × ((handle_bundle crypto kernel signed pub_key true true agent).0.current
        ≡ some ar)
    × (ar.generation ≡ pos 1)
    × (entries : List RuleEntry) × (convert_rules 0 ar.rules ≡ ok entries)
    × ((handle_bundle crypto kernel signed pub_key true true agent).0.objs.qf_rule_count
        ≡ length entries % 2 ^ 32)
handle_bundle_success_example =
    handle_bundle_success crypto kernel signed pub_key true true agent (omega arith) reported

diff_rulesets-IsDiff_example :
    IsDiff
      (resolved deny ∷ [])
      host_rules.rules
      (diff_rulesets (record host_rules { rules = resolved deny ∷ [] }) host_rules)
diff_rulesets-IsDiff_example =
    diff_rulesets-IsDiff (record host_rules { rules = resolved deny ∷ [] }) host_rules

abbrev streams : StreamRegistry PolicyBundle
streams =
    register (codes "00112233-4455-6677-8899-aabbccddeeff") 1
      (record { streams = []; active_streams = pos 0 })

abbrev before_cascade : Propagation
before_cascade = record { streams = streams; bumped = [] }

abbrev host_text : Text
host_text = codes "00112233-4455-6677-8899-aabbccddeeff"

everything : parse_selector codec [] ≡ some empty_selector
unfolding parse_selector
everything = refl

lookup-on_policy_changed_example :
    Registry.lookup host_text
      (on_policy_changed_with_old_selector codec queries true
        (λ h. true)
        []
        []
        []
        before_cascade).0.streams.streams
    ≡ (if matched codec empty_selector (host ∷ []) host_text
          || matched codec empty_selector (host ∷ []) host_text
        then Reach.delivered codec queries
            (λ h. true)
            []
            host_text
            (Registry.lookup host_text streams.streams)
        else Registry.lookup host_text streams.streams)
lookup-on_policy_changed_example =
    lookup-on_policy_changed codec queries (λ h. true) [] [] [] (id_of 0) (id_of 0) policy
      (host ∷ []) empty_selector empty_selector before_cascade host_text refl refl refl refl
      everything (inl everything)

-- A codec that reads ids as they are printed.
abbrev uuid_codec : Codec
uuid_codec = record codec { scan_uuid = parse_uuid }

abbrev own_specs : List DryRunRuleSpec
own_specs = map spec_of (deny ∷ allow_first ∷ [])

deny-IsStored : IsStored uuid_codec queries policy deny
unfolding parse_uuid pg_uuid_to_str
deny-IsStored = record { policy = refl; id = refl; direction = refl; action = refl }

allow-IsStored : IsStored uuid_codec queries policy allow_first
unfolding parse_uuid pg_uuid_to_str
allow-IsStored = record { policy = refl; id = refl; direction = refl; action = refl }

policy-IsOwn : IsOwn uuid_codec queries own_specs policy
unfolding parse_uuid pg_uuid_to_str
policy-IsOwn = record {
  id = id_of 1;
  rules = deny ∷ allow_first ∷ [];
  scanned = refl;
  listed = refl;
  same = refl;
  stored = (deny-IsStored, (allow-IsStored, tt));
}

policies-IsOwn :
    (t : Uuid) (ps : List PolicyRow)
    → queries.list_policies t ≡ some ps
    → All
        (λ (p : PolicyRow).
          text_eq (pg_uuid_to_str p.id) (pg_uuid_to_str policy.id) ≡ true
          → IsOwn uuid_codec queries own_specs p)
        ps
policies-IsOwn t ps e =
    subst
      (λ (qs : List PolicyRow).
        All
          (λ (p : PolicyRow).
            text_eq (pg_uuid_to_str p.id) (pg_uuid_to_str policy.id) ≡ true
            → IsOwn uuid_codec queries own_specs p)
          qs)
      (same e) ((λ h. policy-IsOwn), tt)
  where
    same : {ps : List PolicyRow} → some (policy ∷ []) ≡ some ps → policy ∷ [] ≡ ps
    same e = cc

tenant_scans : parse_uuid host_text ≡ some (id_of 0)
unfolding parse_uuid
tenant_scans = refl

dry_run_preview_same_example :
    dry_run_preview uuid_codec queries host_text (pg_uuid_to_str policy.id) own_specs
    ≡ ok (record { affected_count = 0; hosts = [] })
dry_run_preview_same_example =
    dry_run_preview_same uuid_codec queries host_text (pg_uuid_to_str policy.id) own_specs (id_of 0)
      (host ∷ []) tenant_scans refl policies-IsOwn
