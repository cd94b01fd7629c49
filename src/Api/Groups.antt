-- ===== src/Api/Groups.antt =====
-- cp/internal/api/objectgroups.go and defaultpolicy.go: the handlers of /objectgroups and
-- /defaultpolicy.
pub mod Defaults
use qf.Common.{
  ℕ, Bool, true, false, not, Option, none, some, List, [], ◌∷◌, map, Text, codes, length, ◌==◌,
  Result, ok, err, if◌then◌else◌,
}
use qf.Common.Exec.{Exec, pure, raise_if, lift, ◌>>=◌, ◌>>◌}
use qf.Uuid.{pg_uuid_to_str}
use qf.Policy.{Raw, Uuid, DefaultPolicy, Codec}
use qf.Store.{Database, Store, StoreError, GroupRecord, DefaultPolicyRecord}
use qf.Store.Groups.{
  takes_type, create_object_group, get_object_group, list_object_groups, list_object_groups_by_type,
  update_object_group, delete_object_group, get_default_policy, upsert_default_policy,
}
use qf.Api.{
  Request, Response, Server, Handler, ObjectGroupResponse, DefaultPolicyResponse, one_group,
  many_groups, one_default_policy, no_body, object_group_changed, default_policy_changed,
  write_json, api_error, on_store, or_fail, start, tenant_from_request, uuid_param, decode_json,
  raw_json_or_empty, json_or_null,
}

pub record CreateObjectGroupRequest : Type 0 where
  pub type : Text
  pub name : Text
  pub spec : Raw

abbrev to_group_response : GroupRecord → ObjectGroupResponse
to_group_response g = record {
  id = pg_uuid_to_str g.group.id;
  tenant_id = pg_uuid_to_str g.tenant_id;
  type = g.group.type;
  name = g.name;
  spec = json_or_null g.group.spec;
  resolved_at = g.resolved_at;
  created_at = g.created_at;
  updated_at = g.updated_at;
}

abbrev pub to_default_response : DefaultPolicyRecord → DefaultPolicyResponse
to_default_response d = record {
  id = pg_uuid_to_str d.id;
  tenant_id = pg_uuid_to_str d.tenant_id;
  default_ingress_action = d.policy.default_ingress_action;
  default_egress_action = d.policy.default_egress_action;
  updated_at = d.updated_at;
}

abbrev or_deny : Text → Text
or_deny s = if length s == 0 then codes "deny" else s

-- putDefaultPolicyRequest has the fields of DefaultPolicy.
abbrev pub or_denied : DefaultPolicy → DefaultPolicy
or_denied a = record {
  default_ingress_action = or_deny a.default_ingress_action;
  default_egress_action = or_deny a.default_egress_action;
}

module _ (codec : Codec) (db : Database) where
  -- The query parameter `type`, empty where it is absent.
  unfoldable pub list : Text → Request (Unit {0}) → Handler
  list type req = do
    tenant ← lift (tenant_from_request codec req)
    groups ← on_store (
        or_fail (api_error 500 (codes "list objectgroups")) (
          if length type == 0
          then list_object_groups db tenant
          else list_object_groups_by_type db tenant type))
    pure (write_json 200 (many_groups (map to_group_response groups)))

  unfoldable pub create : Request CreateObjectGroupRequest → Handler
  create req = do
    tenant ← lift (tenant_from_request codec req)
    body ← lift (decode_json req)
    raise_if (length body.name == 0) (api_error 400 (codes "name required"))
    raise_if (not (takes_type body.type))
        (api_error 400 (codes "type must be ipset, portset, or hostset"))
    g ← on_store (
        or_fail (api_error 500 (codes "create objectgroup"))
          (create_object_group db tenant body.type body.name (raw_json_or_empty body.spec)))
    pure (write_json 201 (one_group (to_group_response g)))

  unfoldable pub get : Request (Unit {0}) → Handler
  get req = do
    tenant ← lift (tenant_from_request codec req)
    id ← lift (uuid_param codec (codes "id") req.id)
    g ←
        on_store
          (or_fail (api_error 404 (codes "objectgroup not found")) (get_object_group db id tenant))
    pure (write_json 200 (one_group (to_group_response g)))

  abbrev changed : Bool → Uuid → Uuid → Exec Server Response (Unit {0})
  changed cascade tenant id =
      if cascade
      then start (object_group_changed (pg_uuid_to_str tenant) (pg_uuid_to_str id))
      else pure tt

  -- The body is the new spec.
  unfoldable pub update : Bool → Request Raw → Handler
  update cascade req = do
    tenant ← lift (tenant_from_request codec req)
    id ← lift (uuid_param codec (codes "id") req.id)
    spec ← lift (decode_json req)
    g ← on_store (
        or_fail (api_error 500 (codes "update objectgroup"))
          (update_object_group db id tenant (raw_json_or_empty spec)))
    changed cascade tenant id
    pure (write_json 200 (one_group (to_group_response g)))

  unfoldable pub delete : Bool → Request (Unit {0}) → Handler
  delete cascade req = do
    tenant ← lift (tenant_from_request codec req)
    id ← lift (uuid_param codec (codes "id") req.id)
    on_store
        (or_fail (api_error 500 (codes "delete objectgroup")) (delete_object_group db id tenant))
    changed cascade tenant id
    pure (write_json 204 no_body)

  unfoldable pub get_default : Request (Unit {0}) → Handler
  get_default req = do
    tenant ← lift (tenant_from_request codec req)
    d ←
        on_store (
          or_fail (api_error 404 (codes "default policy not found")) (get_default_policy db tenant))
    pure (write_json 200 (one_default_policy (to_default_response d)))

  unfoldable pub put_default : Bool → Request DefaultPolicy → Handler
  put_default cascade req = do
    tenant ← lift (tenant_from_request codec req)
    body ← lift (decode_json req)
    d ← on_store (
        or_fail (api_error 500 (codes "upsert default policy"))
          (upsert_default_policy db tenant (or_denied body)))
    if cascade then start (default_policy_changed (pg_uuid_to_str tenant)) else pure tt
    pure (write_json 200 (one_default_policy (to_default_response d)))
