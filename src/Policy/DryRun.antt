-- ===== src/Policy/DryRun.antt =====
-- cp/internal/policy/dryrun.go: what a policy with other rules would change on every host.
pub mod Diff
pub mod Same
use qf.Common.{
  ℕ, Bool, true, false, ◌&&◌, not, Option, none, some, List, [], ◌∷◌, Text, codes, text_eq, text_lt,
  Result, ok, err, ◌>>=◌, ◌==◌, if◌then◌else◌, length, fill,
}
use qf.Common.Int.{ℤ}
use qf.Common.Sort.{sort_by}
use qf.Uuid.{pg_uuid_to_str}
use qf.Policy.{
  Raw, Uuid, PolicyRow, Rule, Host, Codec, Queries, PolicyError, or_err, invalid_tenant_id,
  invalid_host_id, get_default_policy, list_policies, get_host, list_hosts,
}
use qf.Policy.Matching.{parse_labels}
use qf.Policy.Ruleset.{
  ResolvedRule, EffectiveRuleset, rule_before, labels_or_partial, resolve_rule,
  resolve_rules_for_policy, rules_of_policies, compile,
}

pub record DryRunRuleSpec : Type 0 where
  pub id : Text
  pub name : Text
  pub priority : ℤ
  pub direction : Text
  pub matching : Raw
  pub state : Option Text
  pub action : Text
  pub log : Bool
  pub silent : Bool

pub record HostDiff : Type 0 where
  pub id : Text
  pub hostname : Text
  pub added : List Text
  pub removed : List Text
  pub changed : List Text

pub record PreviewResult : Type 0 where
  pub affected_count : ℕ
  pub hosts : List HostDiff

-- A pgtype.UUID that nothing was scanned into.
abbrev pub zero_uuid : Uuid
zero_uuid = fill 16 0 []

abbrev or_default : Text → Text → Text
or_default s d = if length s == 0 then d else s

abbrev or_zero : Option Uuid → Uuid
or_zero none = zero_uuid
or_zero (some u) = u

-- What diffRulesets compares of a rule, besides its id.
pub record RuleKey : Type 0 where
  pub action : Text
  pub dir : Text

abbrev pub KeyMap : Type 0
KeyMap = List (Text × RuleKey)

abbrev pub key_eq : RuleKey → RuleKey → Bool
key_eq a b = text_eq a.action b.action && text_eq a.dir b.dir

unfoldable pub find_key : Text → KeyMap → Option RuleKey
find_key id [] = none
find_key id ((j, k) ∷ m) = let rest = find_key id m in if text_eq j id then some k else rest

-- `m[id] = key`.
unfoldable pub put_key : Text → RuleKey → KeyMap → KeyMap
put_key id k [] = (id, k) ∷ []
put_key id k ((j, l) ∷ m) =
    let rest = put_key id k m in if text_eq j id then (j, k) ∷ m else (j, l) ∷ rest

abbrev pub rule_key : ResolvedRule → RuleKey
rule_key r = record { action = r.rule.action; dir = r.rule.direction }

abbrev pub id_of : ResolvedRule → Text
id_of r = pg_uuid_to_str r.rule.id

-- The loops that fill beforeMap and afterMap.
unfoldable pub put_rules : List ResolvedRule → KeyMap → KeyMap
unfolding put_key
put_rules [] m = m
put_rules (r ∷ rs) m = put_rules rs (put_key (id_of r) (rule_key r) m)

abbrev pub is_missing : Option RuleKey → Bool
is_missing none = true
is_missing (some k) = false

abbrev pub is_other : RuleKey → Option RuleKey → Bool
is_other k none = false
is_other k (some l) = not (key_eq k l)

-- The keys of one map that the other does not have, and those with another value there.
unfoldable pub missing_from : KeyMap → KeyMap → List Text
unfolding find_key
missing_from other [] = []
missing_from other ((id, k) ∷ m) =
    let rest = missing_from other m in if is_missing (find_key id other) then id ∷ rest else rest

unfoldable pub changed_from : KeyMap → KeyMap → List Text
unfolding find_key
changed_from other [] = []
changed_from other ((id, k) ∷ m) =
    let rest = changed_from other m in if is_other k (find_key id other) then id ∷ rest else rest

unfoldable pub diff_rulesets : EffectiveRuleset → EffectiveRuleset → HostDiff
unfolding put_rules missing_from changed_from sort_by text_lt
diff_rulesets before after =
    let before_map = put_rules before.rules [] in
    let after_map = put_rules after.rules [] in
    record {
      id = [];
      hostname = [];
      added = sort_by text_lt (missing_from before_map after_map);
      removed = sort_by text_lt (missing_from after_map before_map);
      changed = sort_by text_lt (changed_from before_map after_map);
    }

abbrev pub is_unchanged : HostDiff → Bool
is_unchanged d = length d.added == 0 && (length d.removed == 0 && length d.changed == 0)

-- One host of the loop of DryRunPreview: an error skips it.
abbrev pub diff_of :
    Result PolicyError EffectiveRuleset → Result PolicyError EffectiveRuleset → Option HostDiff
diff_of (err e) after = none
diff_of (ok b) (err e) = none
diff_of (ok b) (ok a) = if is_unchanged (diff_rulesets b a) then none else some (diff_rulesets b a)

abbrev with_host : Host → Option HostDiff → List HostDiff → List HostDiff
with_host h none ds = ds
with_host h (some d) ds = record d { id = pg_uuid_to_str h.id; hostname = h.hostname } ∷ ds

module _ (codec : Codec) (q : Queries) where
  -- The rule that stands for a spec; an id that does not scan is left zero.
  unfoldable pub synthetic_rule : PolicyRow → DryRunRuleSpec → Rule
  synthetic_rule p spec = record {
    id = if length spec.id == 0 then zero_uuid else or_zero (codec.scan_uuid spec.id);
    policy_id = p.id;
    name = spec.name;
    priority = spec.priority;
    direction = or_default spec.direction (codes "ingress");
    matching = spec.matching;
    state = spec.state;
    action = or_default spec.action (codes "deny");
    log = spec.log;
    silent = spec.silent;
  }

  unfoldable pub resolve_override_rules :
      Text → PolicyRow → List DryRunRuleSpec → Result PolicyError (List ResolvedRule)
  unfolding synthetic_rule resolve_rule
  resolve_override_rules tenant_id p [] = ok []
  resolve_override_rules tenant_id p (spec ∷ specs) = do
    rr ← resolve_rule codec q tenant_id p (synthetic_rule p spec)
    rest ← resolve_override_rules tenant_id p specs
    ok (rr ∷ rest)

  -- The rules of one policy, the overridden one's from memory.
  unfoldable pub override_rules_of :
      Text → Text → List DryRunRuleSpec → PolicyRow → Result PolicyError (List ResolvedRule)
  unfolding resolve_override_rules resolve_rules_for_policy pg_uuid_to_str
  override_rules_of tenant_id policy_id specs p =
      if text_eq (pg_uuid_to_str p.id) policy_id
      then resolve_override_rules tenant_id p specs
      else resolve_rules_for_policy codec q tenant_id p

  unfoldable pub compile_with_override :
      Text → Text → Text → List DryRunRuleSpec → Result PolicyError EffectiveRuleset
  unfolding rules_of_policies override_rules_of sort_by rule_before parse_labels
  compile_with_override tenant_id host_id policy_id specs = do
    tenant ← or_err invalid_tenant_id (codec.scan_uuid tenant_id)
    dp ← or_err get_default_policy (q.default_policy tenant)
    policies ← or_err list_policies (q.list_policies tenant)
    id ← or_err invalid_host_id (codec.scan_uuid host_id)
    h ← or_err get_host (q.get_host id tenant)
    resolved ←
        rules_of_policies codec q (override_rules_of tenant_id policy_id specs)
          (labels_or_partial codec h.labels (parse_labels codec h.labels)) policies
    ok (record {
      rules = sort_by rule_before resolved;
      default_ingress = dp.default_ingress_action;
      default_egress = dp.default_egress_action;
    })

  unfoldable pub preview_hosts : Text → Text → List DryRunRuleSpec → List Host → List HostDiff
  unfolding compile compile_with_override diff_rulesets pg_uuid_to_str
  preview_hosts tenant_id policy_id specs [] = []
  preview_hosts tenant_id policy_id specs (h ∷ hs) =
      let host_id = pg_uuid_to_str h.id in
      with_host h
        (diff_of (compile codec q tenant_id host_id)
          (compile_with_override tenant_id host_id policy_id specs))
        (preview_hosts tenant_id policy_id specs hs)

  unfoldable pub dry_run_preview :
      Text → Text → List DryRunRuleSpec → Result PolicyError PreviewResult
  unfolding preview_hosts
  dry_run_preview tenant_id policy_id specs = do
    tenant ← or_err invalid_tenant_id (codec.scan_uuid tenant_id)
    hosts ← or_err list_hosts (q.list_hosts tenant)
    let diffs = preview_hosts tenant_id policy_id specs hosts
    ok (record { affected_count = length diffs; hosts = diffs })
