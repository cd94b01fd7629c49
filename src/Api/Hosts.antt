-- ===== src/Api/Hosts.antt =====
-- cp/internal/api/hosts.go: the handlers of /hosts.
pub mod Valid
use qf.Common.{
  ℕ, zero, suc, ◌+◌, ◌/◌, ◌%◌, Bool, true, false, not, ◌&&◌, Option, none, some, List, [], ◌∷◌,
  ◌++◌, map, Text, codes, length, ltb, ◌==◌, Result, ok, err, if◌then◌else◌,
}
use qf.Common.Exec.{Exec, pure, raise, raise_if, lift, or_value, ◌>>=◌, ◌>>◌}
use qf.Uuid.{pg_uuid_to_str}
use qf.Proto.{Cidr, PortRange}
use qf.Policy.{Raw, Uuid, Labels, Codec, PolicyError}
use qf.Policy.Ruleset.{ResolvedRule, EffectiveRuleset, compile}
use qf.Store.{Database, Store, StoreError, HostRecord}
use qf.Store.Hosts.{
  HostParams, create_host, get_host, list_hosts, update_host_labels, update_host_status,
  update_host_flow_enabled, delete_host,
}
use qf.Store.Reads.{queries_of}
use qf.Api.{
  Request, Response, Server, Handler, HostResponse, RulesetRuleItem, RulesetResponse, one_host,
  many_hosts, host_ruleset, no_body, host_labels_changed, disconnect_host, write_json, api_error,
  on_store, or_fail, or_response, start, set_audit_before, tenant_from_request, uuid_param,
  decode_json,
}

-- A label map of a request is none where it is absent.
pub record CreateHostRequest : Type 0 where
  pub hostname : Text
  pub labels : Option Labels
  pub status : Text

pub record PatchHostRequest : Type 0 where
  pub labels : Option (Option Labels)
  pub status : Option Text
  pub flow_events_enabled : Option Bool

-- encoding/json on labels, where `labels_of` is what the map holds after decoding, also where that
-- fails, and net.IP.String.
pub record HostFormats : Type 0 where
  pub marshal : Labels → Option Raw
  pub labels_of : Raw → Labels
  pub ip_string : List ℕ → Text

abbrev labels_or_empty : Option Labels → Labels
labels_or_empty none = []
labels_or_empty (some m) = m

-- "%d" of a number below 10^f.
unfoldable pub print_digits : ℕ → ℕ → Text
print_digits zero n = []
print_digits (suc f) n =
    let rest = print_digits f (n / 10) in
    if ltb n 10 then (b'0' + n) ∷ [] else rest ++ (b'0' + n % 10) ∷ []

-- "%d" of a uint32.
unfoldable pub print_uint : ℕ → Text
print_uint n = print_digits 10 n

unfoldable pub port_range_to_str : PortRange → Text
port_range_to_str p =
    if p.start == p.end then print_uint p.start else print_uint p.start ++ b'-' ∷ print_uint p.end

module _ (f : HostFormats) where
  abbrev pub cidr_to_str : Cidr → Text
  cidr_to_str c = f.ip_string c.ip ++ b'/' ∷ print_uint c.prefix_len

  abbrev pub to_host_response : HostRecord → HostResponse
  to_host_response h = record {
    id = pg_uuid_to_str h.host.id;
    tenant_id = pg_uuid_to_str h.tenant_id;
    hostname = h.host.hostname;
    labels = if length h.host.labels == 0 then [] else f.labels_of h.host.labels;
    status = h.host.status;
    current_generation = h.host.current_generation;
    desired_generation = h.host.desired_generation;
    last_heartbeat_at = h.last_heartbeat_at;
    agent_version = h.agent_version;
    kernel_version = h.kernel_version;
    flow_events_enabled = h.flow_events_enabled;
    created_at = h.created_at;
    updated_at = h.updated_at;
  }

  abbrev pub ruleset_item : ResolvedRule → RulesetRuleItem
  ruleset_item r = record {
    rule_id = pg_uuid_to_str r.rule.id;
    rule_name = r.rule.name;
    policy_id = pg_uuid_to_str r.policy.id;
    policy_name = r.policy.name;
    priority = r.rule.priority;
    direction = r.rule.direction;
    action = r.rule.action;
    protocol = r.matching.protocol;
    src_cidrs = map cidr_to_str r.src_cidrs;
    dst_cidrs = map cidr_to_str r.dst_cidrs;
    src_ports = map port_range_to_str r.src_ports;
    dst_ports = map port_range_to_str r.dst_ports;
  }

  abbrev ruleset_response : Text → Result PolicyError EffectiveRuleset → Result Response Response
  ruleset_response id (err e) = err (api_error 500 [])
  ruleset_response id (ok rs) = ok (
      write_json 200 (
        host_ruleset (record {
          host_id = id;
          default_ingress = rs.default_ingress;
          default_egress = rs.default_egress;
          rules = map ruleset_item rs.rules;
        })))

module _ (codec : Codec) (db : Database) (f : HostFormats) where
  unfoldable pub list : Request (Unit {0}) → Handler
  list req = do
    tenant ← lift (tenant_from_request codec req)
    hosts ← on_store (or_fail (api_error 500 (codes "list hosts")) (list_hosts db tenant))
    pure (write_json 200 (many_hosts (map (to_host_response f) hosts)))

  abbrev or_enrolling : Text → Text
  or_enrolling s = if length s == 0 then codes "enrolling" else s

  unfoldable pub create : Request CreateHostRequest → Handler
  create req = do
    tenant ← lift (tenant_from_request codec req)
    body ← lift (decode_json req)
    raise_if (length body.hostname == 0) (api_error 400 (codes "hostname required"))
    labels ← lift (
        or_response (api_error 400 (codes "invalid labels"))
          (f.marshal (labels_or_empty body.labels)))
    h ← on_store (
        or_fail (api_error 500 (codes "create host")) (
          create_host db tenant (record {
            hostname = body.hostname;
            labels = labels;
            status = or_enrolling body.status;
          })))
    pure (write_json 201 (one_host (to_host_response f h)))

  unfoldable pub get : Request (Unit {0}) → Handler
  get req = do
    tenant ← lift (tenant_from_request codec req)
    id ← lift (uuid_param codec (codes "id") req.id)
    h ← on_store (or_fail (api_error 404 (codes "host not found")) (get_host db id tenant))
    pure (write_json 200 (one_host (to_host_response f h)))

  unfoldable pub delete : Request (Unit {0}) → Handler
  delete req = do
    tenant ← lift (tenant_from_request codec req)
    id ← lift (uuid_param codec (codes "id") req.id)
    on_store (or_fail (api_error 500 (codes "delete host")) (delete_host db id tenant))
    pure (write_json 204 no_body)

  -- Compile's queries see one state of the tables.
  unfoldable pub compiled_ruleset : Uuid → Text → Handler
  compiled_ruleset tenant id s = (
    s,
    ruleset_response f id (compile codec (queries_of s.store.tables) (pg_uuid_to_str tenant) id),
  )

  unfoldable pub get_ruleset : Request (Unit {0}) → Handler
  get_ruleset req = do
    tenant ← lift (tenant_from_request codec req)
    id ← lift (uuid_param codec (codes "id") req.id)
    compiled_ruleset tenant (pg_uuid_to_str id)

  module _ (cascade disconnector : Bool) (id tenant : Uuid) where
    -- The three parts of a patch; each gives the host that it has read last.
    unfoldable pub patch_labels :
        Option (Option Labels) → Option HostRecord → Exec Server Response (Option HostRecord)
    patch_labels none h = pure h
    patch_labels (some m) h = do
      labels ←
          lift
            (or_response (api_error 400 (codes "invalid labels")) (f.marshal (labels_or_empty m)))
      new ←
          on_store (
            or_fail (api_error 500 (codes "update labels"))
              (update_host_labels db id tenant labels))
      if cascade
          then start (host_labels_changed (pg_uuid_to_str tenant) (pg_uuid_to_str id))
          else pure tt
      pure (some new)

    unfoldable pub patch_status :
        Option Text → Option HostRecord → Exec Server Response (Option HostRecord)
    patch_status none h = pure h
    patch_status (some status) h = do
      new ←
          on_store (
            or_fail (api_error 500 (codes "update status"))
              (update_host_status db id tenant status))
      pure (some new)

    unfoldable pub patch_flow_enabled :
        Option Bool → Option HostRecord → Exec Server Response (Option HostRecord)
    patch_flow_enabled none h = pure h
    patch_flow_enabled (some on) h = do
      on_store (
          or_fail (api_error 500 (codes "update flow_events_enabled"))
            (update_host_flow_enabled db id tenant on))
      if disconnector
          then start (disconnect_host (pg_uuid_to_str id) (codes "config-updated") 1000)
          else pure tt
      new ← on_store (or_fail (api_error 500 (codes "get host")) (get_host db id tenant))
      pure (some new)

    -- Nothing to update.
    unfoldable pub or_current : Option HostRecord → Exec Server Response HostRecord
    or_current (some h) = pure h
    or_current none =
        on_store (or_fail (api_error 404 (codes "host not found")) (get_host db id tenant))

    unfoldable pub note_host : Exec Server StoreError (Unit {0})
    note_host = do
      h ← on_store (get_host db id tenant)
      set_audit_before (one_host (to_host_response f h))

    unfoldable pub patch_host : PatchHostRequest → Handler
    patch_host body = do
      or_value tt note_host
      h₁ ← patch_labels body.labels none
      h₂ ← patch_status body.status h₁
      h₃ ← patch_flow_enabled body.flow_events_enabled h₂
      h ← or_current h₃
      pure (write_json 200 (one_host (to_host_response f h)))

  unfoldable pub patch : Bool → Bool → Request PatchHostRequest → Handler
  patch cascade disconnector req = do
    tenant ← lift (tenant_from_request codec req)
    id ← lift (uuid_param codec (codes "id") req.id)
    body ← lift (decode_json req)
    patch_host cascade disconnector id tenant body
