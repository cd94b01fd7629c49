-- ===== src/Api/Versions.antt =====
-- cp/internal/api/policies.go: the snapshots of a policy, their list, the return to one of them, and
-- the preview.
use qf.Common.{zero, suc, Option, none, some, List, [], ◌∷◌, map, Text, codes, Result, ok, err}
use qf.Common.Int.{ℤ, pos, negsuc}
use qf.Common.Exec.{Exec, pure, lift, or_value, ◌>>=◌, ◌>>◌}
use qf.Uuid.{pg_uuid_to_str}
use qf.Session.Service.{to_int32}
use qf.Policy.{Raw, Uuid, Codec, PolicyError}
use qf.Policy.DryRun.{DryRunRuleSpec, PreviewResult, dry_run_preview}
use qf.Store.{Database, Store, PolicyRecord, RuleRecord, ConfigVersion}
use qf.Store.Policies.{PolicyParams, get_policy, update_policy}
use qf.Store.Rules.{RuleParams, list_rules_by_policy, create_rule, delete_rule}
use qf.Store.Versions.{insert_config_version, get_config_version, list_config_versions}
use qf.Store.Reads.{queries_of}
use qf.Api.{
  Request, Response, Server, Handler, VersionResponse, one_policy, many_versions, preview_result,
  write_json, api_error, on_store, or_fail, or_response, tenant_from_request, uuid_param,
  decode_json, raw_json_or_empty, json_or_null,
}
use qf.Api.Policies.{to_policy_response, policy_params, actor}

-- policySnapshot, the JSON of config_versions.content.
pub record Snapshot : Type 0 where
  pub policy : PolicyParams
  pub rules : List RuleParams

-- strconv.Atoi, and encoding/json on snapshots.
pub record Formats : Type 0 where
  pub atoi : Text → Option ℤ
  pub encode : Snapshot → Option Raw
  pub decode : Raw → Option Snapshot

abbrev pub rule_snapshot : RuleRecord → RuleParams
rule_snapshot r = record {
  name = r.rule.name;
  priority = r.rule.priority;
  direction = r.rule.direction;
  matching = json_or_null r.rule.matching;
  state = r.rule.state;
  action = r.rule.action;
  log = r.rule.log;
  silent = r.rule.silent;
}

abbrev pub snapshot_of : PolicyRecord → List RuleRecord → Snapshot
snapshot_of p rules = record {
  policy = record {
    name = p.policy.name;
    description = p.description;
    priority = p.policy.priority;
    selector = json_or_null p.policy.selector;
  };
  rules = map rule_snapshot rules;
}

abbrev pub to_version_response : ConfigVersion → VersionResponse
to_version_response v = record {
  id = pg_uuid_to_str v.id;
  version = v.version;
  content = v.content;
  created_by = v.created_by;
  created_at = v.created_at;
}

abbrev pub snapshot_rule_params : RuleParams → RuleParams
snapshot_rule_params a = record a { matching = raw_json_or_empty a.matching }

-- The loops of revertVersion, which look at no error.
module _ (db : Database) where
  unfoldable pub delete_all : List RuleRecord → Exec Store Response (Unit {0})
  delete_all [] = pure tt
  delete_all (r ∷ rs) = do or_value tt (delete_rule db r.rule.id); delete_all rs

  unfoldable pub create_all : Uuid → List RuleParams → Exec Store Response (Unit {0})
  create_all id [] = pure tt
  create_all id (a ∷ as') = do
    or_value tt (do r ← create_rule db id (snapshot_rule_params a); pure tt)
    create_all id as'

module _ (codec : Codec) (db : Database) (f : Formats) where
  abbrev answered : Result PolicyError PreviewResult → Result Response PreviewResult
  answered (ok r) = ok r
  answered (err e) = err (api_error 500 (codes "preview"))

  unfoldable pub dry_run : Uuid → Uuid → List DryRunRuleSpec → Exec Server Response PreviewResult
  dry_run tenant id specs s = (
    s,
    answered (
        dry_run_preview codec (queries_of s.store.tables) (pg_uuid_to_str tenant)
          (pg_uuid_to_str id) specs),
  )

  unfoldable pub preview : Request (List DryRunRuleSpec) → Handler
  preview req = do
    tenant ← lift (tenant_from_request codec req)
    id ← lift (uuid_param codec (codes "id") req.id)
    p ← on_store (or_fail (api_error 404 (codes "policy not found")) (get_policy db id tenant))
    specs ← lift (decode_json req)
    r ← dry_run tenant id specs
    pure (write_json 200 (preview_result r))

  unfoldable pub list_versions : Request (Unit {0}) → Handler
  list_versions req = do
    tenant ← lift (tenant_from_request codec req)
    id ← lift (uuid_param codec (codes "id") req.id)
    p ← on_store (or_fail (api_error 404 (codes "policy not found")) (get_policy db id tenant))
    versions ← on_store (
        or_fail (api_error 500 (codes "list versions"))
          (list_config_versions db tenant (codes "policy") id))
    pure (write_json 200 (many_versions (map to_version_response versions)))

  -- `n` is at least one, and int32(n) keeps its low bits.
  abbrev at_least_one : Option ℤ → Result Response ℤ
  at_least_one none = err (api_error 400 (codes "invalid version"))
  at_least_one (some (pos zero)) = err (api_error 400 (codes "invalid version"))
  at_least_one (some (pos (suc n))) = ok (pos (suc n))
  at_least_one (some (negsuc n)) = err (api_error 400 (codes "invalid version"))

  unfoldable pub version_number : Request (Unit {0}) → Result Response ℤ
  version_number req = at_least_one (f.atoi req.version)

  -- The writes of revertVersion, which stand in no transaction.
  unfoldable pub restore : Uuid → Uuid → Raw → Snapshot → Text → Exec Store Response PolicyRecord
  restore id tenant content snapshot email = do
    p ←
        or_fail (api_error 500 (codes "revert policy"))
          (update_policy db id tenant (policy_params snapshot.policy))
    existing ← or_value [] (list_rules_by_policy db id)
    delete_all db existing
    create_all db id snapshot.rules
    or_value tt (insert_config_version db tenant (codes "policy") id content email)
    pure p

  unfoldable pub revert_version : Request (Unit {0}) → Handler
  revert_version req = do
    tenant ← lift (tenant_from_request codec req)
    id ← lift (uuid_param codec (codes "id") req.id)
    n ← lift (version_number req)
    snap ← on_store (
        or_fail (api_error 404 (codes "version not found"))
          (get_config_version db tenant (codes "policy") id (to_int32 n)))
    snapshot ← lift (or_response (api_error 500 (codes "corrupt snapshot")) (f.decode snap.content))
    p ← on_store (restore id tenant snap.content snapshot (actor req.claims))
    pure (write_json 200 (one_policy (to_policy_response p)))
