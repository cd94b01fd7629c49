-- ===== src/Store/Reads.antt =====
-- The queries of the policy compiler, as the rows of the tables answer them: the parameter Queries
-- of Policy.
use qf.Common.{Option, none, some, map}
use qf.Common.Tables.{find_row, rows_where}
use qf.Common.Sort.{sort_by}
use qf.Policy.{Queries}
use qf.Store.{Tables, PolicyRecord, RuleRecord, HostRecord, GroupRecord, DefaultPolicyRecord}
use qf.Store.Groups.{is_group, has_tenant}
use qf.Store.Policies.{is_policy, policies_of}
use qf.Store.Hosts.{is_host, hosts_of}
use qf.Store.Rules.{is_rule, rules_of, refs_of}

abbrev pub map_some : {A B : Type 0} → (A → B) → Option A → Option B
map_some f none = none
map_some f (some a) = some (f a)

unfoldable pub queries_of : Tables → Queries
unfolding find_row rows_where sort_by
queries_of t = record {
  list_hosts = λ tenant. some (map (λ (h : HostRecord). h.host) (hosts_of tenant t));
  get_host =
      λ id tenant. map_some (λ (h : HostRecord). h.host) (find_row (is_host id tenant) t.hosts);
  default_policy = λ tenant.
      map_some (λ (d : DefaultPolicyRecord). d.policy)
        (find_row (has_tenant tenant) t.default_policies);
  list_policies = λ tenant. some (map (λ (p : PolicyRecord). p.policy) (policies_of tenant t));
  rules_by_policy = λ id. some (map (λ (r : RuleRecord). r.rule) (rules_of id t));
  object_group = λ id tenant.
      map_some (λ (g : GroupRecord). g.group) (find_row (is_group id tenant) t.object_groups);
  get_policy = λ id tenant.
      map_some (λ (p : PolicyRecord). p.policy) (find_row (is_policy id tenant) t.policies);
  rule_ids_by_object_group = λ id. some (refs_of id t);
  get_rule = λ id. map_some (λ (r : RuleRecord). r.rule) (find_row (is_rule id) t.rules);
}
