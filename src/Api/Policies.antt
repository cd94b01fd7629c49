-- ===== src/Api/Policies.antt =====
-- cp/internal/api/policies.go: the handlers of /policies.
pub mod Replace
pub mod Update
pub mod Save
use qf.Common.{
  ℕ, Bool, true, false, Option, none, some, List, [], ◌∷◌, map, Text, codes, length, ◌==◌, Result,
  ok, err, if◌then◌else◌,
}
use qf.Common.Exec.{Exec, pure, raise_if, lift, or_value, ◌>>=◌, ◌>>◌}
use qf.Uuid.{pg_uuid_to_str}
use qf.Policy.{Raw, Uuid, Codec, Queries, PolicyError}
use qf.Policy.DryRun.{DryRunRuleSpec, PreviewResult, dry_run_preview}
use qf.Store.{Database, Store, StoreError, PolicyRecord, RuleRecord, transaction}
use qf.Store.Policies.{
  PolicyParams, create_policy, get_policy, list_policies, update_policy, delete_policy,
}
use qf.Store.Rules.{RuleParams, list_rules_by_policy, create_rule, delete_rule}
use qf.Store.Reads.{queries_of}
use qf.Api.{
  Claims, Request, PolicyResponse, RuleResponse, Response, Server, Handler, Task, policy_changed,
  policy_changed_with_old_selector, save_version, one_policy, many_policies, policy_detail,
  preview_result, no_body, write_json, api_error, on_store, or_fail, start, set_audit_before,
  tenant_from_request, uuid_param, decode_json, raw_json_or_empty, json_or_null,
}

-- createPolicyRequest, createRuleRequest and updateRuleRequest have the fields of the parameters of
-- their statements.
pub record UpdatePolicyRequest : Type 0 where
  pub policy : PolicyParams
  pub rules : List RuleParams

abbrev pub to_policy_response : PolicyRecord → PolicyResponse
to_policy_response p = record {
  id = pg_uuid_to_str p.policy.id;
  tenant_id = pg_uuid_to_str p.tenant_id;
  name = p.policy.name;
  description = p.description;
  priority = p.policy.priority;
  selector = json_or_null p.policy.selector;
  current_version = p.current_version;
  created_at = p.created_at;
  updated_at = p.updated_at;
}

abbrev pub to_rule_response : RuleRecord → RuleResponse
to_rule_response r = record {
  id = pg_uuid_to_str r.rule.id;
  policy_id = pg_uuid_to_str r.rule.policy_id;
  name = r.rule.name;
  priority = r.rule.priority;
  direction = r.rule.direction;
  matching = json_or_null r.rule.matching;
  state = r.rule.state;
  action = r.rule.action;
  log = r.rule.log;
  silent = r.rule.silent;
  created_at = r.created_at;
  updated_at = r.updated_at;
}

abbrev pub policy_params : PolicyParams → PolicyParams
policy_params a = record a { selector = raw_json_or_empty a.selector }

abbrev or_default : Text → Text → Text
or_default s d = if length s == 0 then d else s

-- A rule of a request, with the defaults for what it leaves empty.
abbrev pub rule_params : RuleParams → RuleParams
rule_params a = record a {
  direction = or_default a.direction (codes "ingress");
  action = or_default a.action (codes "deny");
  matching = raw_json_or_empty a.matching;
}

abbrev pub actor : Option Claims → Text
actor none = []
actor (some c) = c.email

module _ (db : Database) where
  -- The loops of update over the rules, in the transaction.
  unfoldable pub delete_rules : List RuleRecord → Exec Store Response (Unit {0})
  delete_rules [] = pure tt
  delete_rules (r ∷ rs) = do
    or_fail (api_error 500 (codes "delete rule")) (delete_rule db r.rule.id)
    delete_rules rs

  unfoldable pub create_rules : Uuid → List RuleParams → Exec Store Response (Unit {0})
  create_rules id [] = pure tt
  create_rules id (a ∷ as') = do
    or_fail (api_error 500 (codes "create rule")) (create_rule db id (rule_params a))
    create_rules id as'

  unfoldable pub replace_rules :
      Uuid → List RuleParams → PolicyRecord → List RuleRecord → Exec Store Response PolicyRecord
  replace_rules id rules p existing = do delete_rules existing; create_rules id rules; pure p

  unfoldable pub replace_policy :
      Uuid → Uuid → UpdatePolicyRequest → Exec Store Response PolicyRecord
  replace_policy id tenant body = do
    p ←
        or_fail (api_error 500 (codes "update policy"))
          (update_policy db id tenant (policy_params body.policy))
    existing ← or_value [] (list_rules_by_policy db id)
    replace_rules id body.rules p existing

  -- The state before, for the audit log, and the selector for the cascade.
  unfoldable pub note_before : Uuid → Uuid → Exec Server StoreError Raw
  note_before id tenant = do
    p ← on_store (get_policy db id tenant)
    rules ← on_store (or_value [] (list_rules_by_policy db id))
    set_audit_before (policy_detail (to_policy_response p) (map to_rule_response rules))
    pure p.policy.selector

  unfoldable pub capture : Uuid → Uuid → Exec Server Response Raw
  capture id tenant = or_value [] (note_before id tenant)

module _ (cascade : Bool) (process_tenant : Uuid) where
  -- The cascade is for the tenant of the process, whatever the request's.
  abbrev pub dispatch_cascade : Uuid → Exec Server Response (Unit {0})
  dispatch_cascade id =
      if cascade
      then start (policy_changed (pg_uuid_to_str process_tenant) (pg_uuid_to_str id))
      else pure tt

  abbrev pub dispatch_cascade_with_old_selector : Uuid → Raw → Exec Server Response (Unit {0})
  dispatch_cascade_with_old_selector id old =
      if cascade
      then start
          (policy_changed_with_old_selector (pg_uuid_to_str process_tenant) (pg_uuid_to_str id) old)
      else pure tt

module _ (db : Database) (cascade : Bool) (process_tenant : Uuid) where
  -- The rest of update, after the request is decoded and checked.
  unfoldable pub save : Uuid → Uuid → UpdatePolicyRequest → Text → Handler
  save id tenant body email = do
    old_selector ← capture db id tenant
    p ← on_store (
        transaction db (api_error 500 (codes "begin tx")) (api_error 500 (codes "commit tx"))
          (replace_policy db id tenant body))
    saved ← on_store (or_value [] (list_rules_by_policy db id))
    start (save_version tenant id p saved email)
    dispatch_cascade_with_old_selector cascade process_tenant id old_selector
    pure (write_json 200 (policy_detail (to_policy_response p) (map to_rule_response saved)))

module _ (codec : Codec) (db : Database) where
  unfoldable pub list : Request (Unit {0}) → Handler
  list req = do
    tenant ← lift (tenant_from_request codec req)
    policies ← on_store (or_fail (api_error 500 (codes "list policies")) (list_policies db tenant))
    pure (write_json 200 (many_policies (map to_policy_response policies)))

  unfoldable pub create : Request PolicyParams → Handler
  create req = do
    tenant ← lift (tenant_from_request codec req)
    body ← lift (decode_json req)
    raise_if (length body.name == 0) (api_error 400 (codes "name required"))
    p ← on_store (
        or_fail (api_error 500 (codes "create policy"))
          (create_policy db tenant (policy_params body)))
    pure (write_json 201 (one_policy (to_policy_response p)))

  unfoldable pub get : Request (Unit {0}) → Handler
  get req = do
    tenant ← lift (tenant_from_request codec req)
    id ← lift (uuid_param codec (codes "id") req.id)
    p ← on_store (or_fail (api_error 404 (codes "policy not found")) (get_policy db id tenant))
    rules ← on_store (or_value [] (list_rules_by_policy db id))
    pure (write_json 200 (policy_detail (to_policy_response p) (map to_rule_response rules)))

  module _ (cascade : Bool) (process_tenant : Uuid) where
    unfoldable pub update : Request UpdatePolicyRequest → Handler
    update req = do
      tenant ← lift (tenant_from_request codec req)
      id ← lift (uuid_param codec (codes "id") req.id)
      body ← lift (decode_json req)
      raise_if (length body.policy.name == 0) (api_error 400 (codes "name required"))
      save db cascade process_tenant id tenant body (actor req.claims)

    unfoldable pub delete : Request (Unit {0}) → Handler
    delete req = do
      tenant ← lift (tenant_from_request codec req)
      id ← lift (uuid_param codec (codes "id") req.id)
      on_store (or_fail (api_error 500 (codes "delete policy")) (delete_policy db id tenant))
      dispatch_cascade cascade process_tenant id
      pure (write_json 204 no_body)
