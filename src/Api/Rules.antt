-- ===== src/Api/Rules.antt =====
-- cp/internal/api/policies.go: the handlers of /policies/{id}/rules.
use qf.Common.{Bool, false, not, Option, none, some, map, Text, text_eq, codes, length, ◌==◌}
use qf.Common.Exec.{Exec, pure, raise_if, lift, ◌>>=◌, ◌>>◌}
use qf.Policy.{Uuid, Codec}
use qf.Store.{Database, RuleRecord}
use qf.Store.Policies.{get_policy}
use qf.Store.Rules.{
  RuleParams, list_rules_by_policy, create_rule, get_rule, update_rule, delete_rule,
}
use qf.Api.{
  Request, Response, Server, Handler, one_rule, many_rules, no_body, write_json, api_error,
  on_store, or_fail, tenant_from_request, uuid_param, decode_json, raw_json_or_empty,
}
use qf.Api.Policies.{to_rule_response, rule_params, dispatch_cascade}

abbrev is_related : Option Text → Bool
is_related none = false
is_related (some s) = text_eq s (codes "related")

-- What createRule and updateRule ask of a body.
unfoldable pub check_rule : RuleParams → Exec Server Response (Unit {0})
check_rule a = do
  raise_if (length a.name == 0) (api_error 400 (codes "name required"))
  raise_if (is_related a.state) (
      api_error 422 (
        codes
          "state=related is not implemented in the BPF datapath; rules with this state will never match"))

-- updateRule fills in no defaults.
abbrev pub update_params : RuleParams → RuleParams
update_params a = record a { matching = raw_json_or_empty a.matching }

abbrev rule_missing : Response
rule_missing = api_error 404 (codes "rule not found")

module _ (codec : Codec) (db : Database) where
  -- The policy of the path, if the tenant owns it.
  unfoldable pub resolve_policy : {B : Type 0} → Request B → Exec Server Response Uuid
  resolve_policy req = do
    tenant ← lift (tenant_from_request codec req)
    id ← lift (uuid_param codec (codes "id") req.id)
    p ← on_store (or_fail (api_error 404 (codes "policy not found")) (get_policy db id tenant))
    pure id

  -- The rule of the path, if it is one of the policy.
  unfoldable pub resolve_rule : {B : Type 0} → Uuid → Request B → Exec Server Response RuleRecord
  resolve_rule id req = do
    rule_id ← lift (uuid_param codec (codes "ruleID") req.rule_id)
    r ← on_store (or_fail rule_missing (get_rule db rule_id))
    raise_if (not (text_eq r.rule.policy_id id)) rule_missing
    pure r

  unfoldable pub list_rules : Request (Unit {0}) → Handler
  list_rules req = do
    id ← resolve_policy req
    rules ← on_store (or_fail (api_error 500 (codes "list rules")) (list_rules_by_policy db id))
    pure (write_json 200 (many_rules (map to_rule_response rules)))

  unfoldable pub get_one : Request (Unit {0}) → Handler
  get_one req = do
    id ← resolve_policy req
    r ← resolve_rule id req
    pure (write_json 200 (one_rule (to_rule_response r)))

  module _ (cascade : Bool) (process_tenant : Uuid) where
    unfoldable pub create_one : Request RuleParams → Handler
    create_one req = do
      id ← resolve_policy req
      body ← lift (decode_json req)
      check_rule body
      r ←
          on_store
            (or_fail (api_error 500 (codes "create rule")) (create_rule db id (rule_params body)))
      dispatch_cascade cascade process_tenant id
      pure (write_json 201 (one_rule (to_rule_response r)))

    unfoldable pub update_one : Request RuleParams → Handler
    update_one req = do
      id ← resolve_policy req
      old ← resolve_rule id req
      body ← lift (decode_json req)
      check_rule body
      r ← on_store (
          or_fail (api_error 500 (codes "update rule"))
            (update_rule db old.rule.id (update_params body)))
      dispatch_cascade cascade process_tenant id
      pure (write_json 200 (one_rule (to_rule_response r)))

    unfoldable pub delete_one : Request (Unit {0}) → Handler
    delete_one req = do
      id ← resolve_policy req
      old ← resolve_rule id req
      on_store (or_fail (api_error 500 (codes "delete rule")) (delete_rule db old.rule.id))
      dispatch_cascade cascade process_tenant id
      pure (write_json 204 no_body)
