-- ===== src/Api/Routes.antt =====
-- cp/internal/api/policies.go: registerPolicies, and a run of the server.
use qf.Common.{Bool, List, [], ◌∷◌}
use qf.Common.Exec.{Exec}
use qf.Policy.{Uuid, Codec}
use qf.Policy.DryRun.{DryRunRuleSpec}
use qf.Store.{Database}
use qf.Store.Rules.{RuleParams}
use qf.Store.Policies.{PolicyParams}
use qf.Api.{Request, Response, Server}
use qf.Api.Policies.{UpdatePolicyRequest, list, create, get, update, delete}
use qf.Api.Rules.{list_rules, get_one, create_one, update_one, delete_one}
use qf.Api.Versions.{Formats, preview, list_versions, revert_version}

-- The routes of /policies, with the request that each handler takes.
pub data Call : Type 0 where
  call_list call_get call_delete call_list_rules call_get_rule call_delete_rule :
      Request (Unit {0}) → Call
  call_list_versions call_revert : Request (Unit {0}) → Call
  call_create : Request PolicyParams → Call
  call_update : Request UpdatePolicyRequest → Call
  call_create_rule call_update_rule : Request RuleParams → Call
  call_preview : Request (List DryRunRuleSpec) → Call

module _ (codec : Codec) (db : Database) (f : Formats) (cascade : Bool)
    (process_tenant : Uuid) where
  -- registerPolicies.
  unfoldable pub handle : Call → Exec Server Response Response
  handle (call_list req) = list codec db req
  handle (call_get req) = get codec db req
  handle (call_delete req) = delete codec db cascade process_tenant req
  handle (call_list_rules req) = list_rules codec db req
  handle (call_get_rule req) = get_one codec db req
  handle (call_delete_rule req) = delete_one codec db cascade process_tenant req
  handle (call_list_versions req) = list_versions codec db f req
  handle (call_revert req) = revert_version codec db f req
  handle (call_create req) = create codec db req
  handle (call_update req) = update codec db cascade process_tenant req
  handle (call_create_rule req) = create_one codec db cascade process_tenant req
  handle (call_update_rule req) = update_one codec db cascade process_tenant req
  handle (call_preview req) = preview codec db f req

  -- The server after any requests, whatever they answer.
  unfoldable pub serve : List Call → Server → Server
  serve [] s = s
  serve (c ∷ cs) s = serve cs (handle c s).0
