-- ===== src/Api/References.antt =====
-- The table rule_objectgroup_refs, which OnObjectGroupChanged reads and no handler writes.
use qf.Common.{◌≡◌, refl, Bool, some, List, [], ◌∷◌, All, Text, ok}
use qf.Policy.{Uuid, Codec}
use qf.Policy.Cascade.{
  Propagation, on_object_group_changed, affected_hosts, policies_of_rules, hosts_of_policies,
  recompile_and_dispatch, recompile_hosts,
}
use qf.Store.{Database, Tables, RuleObjectgroupRef}
use qf.Store.Rules.{refs_of, distinct}
use qf.Store.Reads.{queries_of}
use qf.Store.WellFormed.{IsWellFormed}
use qf.Common.Tables.{rows_where}
use qf.Api.{Server}
use qf.Api.Versions.{Formats}
use qf.Api.Routes.{Call, serve}
use qf.Api.Keys.{serve-IsWellFormed}

no_refs : (fs : List RuleObjectgroupRef) → All (λ r. ⊥) fs → fs ≡ []
no_refs [] h = refl
no_refs (f ∷ fs) h = absurd h.0

refs_of_empty : (og : Uuid) (t : Tables) → t.refs ≡ [] → refs_of og t ≡ []
unfolding refs_of rows_where distinct
refs_of_empty og t h = rw h refl

-- Where the table rule_objectgroup_refs is empty it stays empty through any sequence of requests on
-- policies, rules and versions, and then a change of any object group, when both ids are read, finds
-- no hosts, whatever rules refer to the group: no stream is sent anything.
pub on_object_group_changed-serve :
    (codec : Codec) (db : Database) (f : Formats) (cascade dispatcher : Bool)
    (process_tenant : Uuid) (send_ok : Text → Bool) (calls : List Call) (s : Server)
    (tenant_id og_id : Text) (tenant og : Uuid) (st : Propagation)
    → IsWellFormed (λ (r : RuleObjectgroupRef). ⊥) s.store.tables
    → codec.scan_uuid og_id ≡ some og
    → codec.scan_uuid tenant_id ≡ some tenant
    → on_object_group_changed codec
        (queries_of (serve codec db f cascade process_tenant calls s).store.tables)
        dispatcher
        send_ok
        tenant_id
        og_id
        st
      ≡ (st, ok tt)
unfolding on_object_group_changed affected_hosts policies_of_rules hosts_of_policies queries_of
    recompile_and_dispatch recompile_hosts
on_object_group_changed-serve codec db f cascade dispatcher process_tenant send_ok calls s tenant_id
      og_id tenant og st w p q =
    let last = serve codec db f cascade process_tenant calls s in
    let kept = serve-IsWellFormed codec db f cascade process_tenant calls s w in
    rw (p, q, refs_of_empty og last.store.tables (no_refs last.store.tables.refs kept.refs)) refl
