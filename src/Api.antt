-- ===== src/Api.antt =====
-- The control plane's HTTP API, cp/internal/api: what its handlers share, from hosts.go. A handler
-- gets the decoded request and either answers early or at its end; the goroutines that it starts
-- are left in a queue.
pub mod Policies
pub mod Rules
pub mod Versions
pub mod Routes
pub mod Keys
pub mod References
pub mod Hosts
pub mod Ports
pub mod Groups
pub mod Revert
pub mod Tasks
pub mod Tokens
use qf.Common.{
  ℕ, ◌+◌, Bool, true, false, not, ◌&&◌, Option, none, some, List, [], ◌∷◌, ◌++◌, Text, codes,
  length, ◌==◌, Result, ok, err, if◌then◌else◌,
}
use qf.Common.Int.{ℤ}
use qf.Common.Exec.{Exec}
use qf.Policy.{Raw, Uuid, Labels, Codec}
use qf.Policy.DryRun.{PreviewResult}
use qf.Store.{Store, StoreError, PolicyRecord, RuleRecord}

-- Of auth.Claims, what the handlers read.
pub record Claims : Type 0 where
  pub tenant_id : Text
  pub email : Text

-- `id`, `rule_id` and `version` are the path's parameters, and `body` is none where decoding fails.
pub record Request (Body : Type 0) : Type 0 where
  pub claims : Option Claims
  pub tenant_header : Text
  pub id : Text
  pub rule_id : Text
  pub version : Text
  pub body : Option Body

pub record PolicyResponse : Type 0 where
  pub id : Text
  pub tenant_id : Text
  pub name : Text
  pub description : Text
  pub priority : ℤ
  pub selector : Raw
  pub current_version : ℤ
  pub created_at : ℕ
  pub updated_at : ℕ

pub record RuleResponse : Type 0 where
  pub id : Text
  pub policy_id : Text
  pub name : Text
  pub priority : ℤ
  pub direction : Text
  pub matching : Raw
  pub state : Option Text
  pub action : Text
  pub log : Bool
  pub silent : Bool
  pub created_at : ℕ
  pub updated_at : ℕ

pub record VersionResponse : Type 0 where
  pub id : Text
  pub version : ℤ
  pub content : Raw
  pub created_by : Text
  pub created_at : ℕ

pub record HostResponse : Type 0 where
  pub id : Text
  pub tenant_id : Text
  pub hostname : Text
  pub labels : Labels
  pub status : Text
  pub current_generation : ℤ
  pub desired_generation : ℤ
  pub last_heartbeat_at : Option ℕ
  pub agent_version : Option Text
  pub kernel_version : Option Text
  pub flow_events_enabled : Bool
  pub created_at : ℕ
  pub updated_at : ℕ

pub record ObjectGroupResponse : Type 0 where
  pub id : Text
  pub tenant_id : Text
  pub type : Text
  pub name : Text
  pub spec : Raw
  pub resolved_at : Option ℕ
  pub created_at : ℕ
  pub updated_at : ℕ

pub record DefaultPolicyResponse : Type 0 where
  pub id : Text
  pub tenant_id : Text
  pub default_ingress_action : Text
  pub default_egress_action : Text
  pub updated_at : ℕ

pub record RulesetRuleItem : Type 0 where
  pub rule_id : Text
  pub rule_name : Text
  pub policy_id : Text
  pub policy_name : Text
  pub priority : ℤ
  pub direction : Text
  pub action : Text
  pub protocol : Text
  pub src_cidrs : List Text
  pub dst_cidrs : List Text
  pub src_ports : List Text
  pub dst_ports : List Text

pub record RulesetResponse : Type 0 where
  pub host_id : Text
  pub default_ingress : Text
  pub default_egress : Text
  pub rules : List RulesetRuleItem

pub record TokenResponse : Type 0 where
  pub id : Text
  pub tenant_id : Text
  pub type : Text
  pub target_host_id : Option Text
  pub label_template : Labels
  pub max_uses : ℤ
  pub uses_count : ℤ
  pub expires_at : ℕ
  pub token : Text

-- What is written as JSON; of an error, the part of its text that does not depend on the cause.
pub data Body : Type 0 where
  one_policy : PolicyResponse → Body
  many_policies : List PolicyResponse → Body
  policy_detail : PolicyResponse → List RuleResponse → Body
  one_rule : RuleResponse → Body
  many_rules : List RuleResponse → Body
  many_versions : List VersionResponse → Body
  preview_result : PreviewResult → Body
  one_host : HostResponse → Body
  many_hosts : List HostResponse → Body
  host_ruleset : RulesetResponse → Body
  one_group : ObjectGroupResponse → Body
  many_groups : List ObjectGroupResponse → Body
  one_default_policy : DefaultPolicyResponse → Body
  one_token : TokenResponse → Body
  many_tokens : List TokenResponse → Body
  plain_token : Text → Body
  error_message : Text → Body
  no_body : Body

pub record Response : Type 0 where
  pub status : ℕ
  pub body : Body

-- A goroutine that a handler starts.
pub data Task : Type 0 where
  policy_changed : Text → Text → Task
  policy_changed_with_old_selector : Text → Text → Raw → Task
  host_labels_changed : Text → Text → Task
  object_group_changed : Text → Text → Task
  default_policy_changed : Text → Task
  disconnect_host : Text → Text → ℕ → Task
  save_version : Uuid → Uuid → PolicyRecord → List RuleRecord → Text → Task

pub record Server : Type 0 where
  pub store : Store
  pub pending : List Task
  -- what SetAuditBefore has noted of the request
  pub audit_before : Option Body

abbrev pub Handler : Type 0
Handler = Exec Server Response Response

abbrev pub write_json : ℕ → Body → Response
write_json code v = record { status = code; body = v }

abbrev pub api_error : ℕ → Text → Response
api_error code msg = write_json code (error_message msg)

-- What the client gets.
abbrev pub answer : Server × Result Response Response → Response
answer (s, ok r) = r
answer (s, err r) = r

module _ {E A : Type 0} where
  abbrev with_store : Server → Store × Result E A → Server × Result E A
  with_store s (st, r) = (record s { store = st }, r)

  unfoldable pub on_store : Exec Store E A → Exec Server E A
  on_store m s = with_store s (m s.store)

module _ {S A : Type 0} where
  abbrev as_response : Response → S × Result StoreError A → S × Result Response A
  as_response e (s, ok a) = (s, ok a)
  as_response e (s, err x) = (s, err e)

  -- A statement whose error ends the request with the response.
  unfoldable pub or_fail : Response → Exec S StoreError A → Exec S Response A
  or_fail e m s = as_response e (m s)

unfoldable pub start : Task → Exec Server Response (Unit {0})
start t s = (record s { pending = s.pending ++ t ∷ [] }, ok tt)

unfoldable pub set_audit_before : {E : Type 0} → Body → Exec Server E (Unit {0})
set_audit_before b s = (record s { audit_before = some b }, ok tt)

abbrev pub or_response : {A : Type 0} → Response → Option A → Result Response A
or_response e none = err e
or_response e (some a) = ok a

module _ (codec : Codec) where
  abbrev claimed_tenant : Option Claims → Option Uuid
  claimed_tenant none = none
  claimed_tenant (some c) = if length c.tenant_id == 0 then none else codec.scan_uuid c.tenant_id

  abbrev header_tenant : Text → Result Response Uuid
  header_tenant raw =
      if length raw == 0
      then err (api_error 400 (codes "X-Tenant-ID header required"))
      else or_response (api_error 400 (codes "invalid X-Tenant-ID")) (codec.scan_uuid raw)

  abbrev tenant_or_header : Text → Option Uuid → Result Response Uuid
  tenant_or_header raw none = header_tenant raw
  tenant_or_header raw (some u) = ok u

  unfoldable pub tenant_from_request : {B : Type 0} → Request B → Result Response Uuid
  tenant_from_request req = tenant_or_header req.tenant_header (claimed_tenant req.claims)

  unfoldable pub uuid_param : Text → Text → Result Response Uuid
  uuid_param name raw = or_response (api_error 400 (codes "invalid " ++ name)) (codec.scan_uuid raw)

unfoldable pub decode_json : {B : Type 0} → Request B → Result Response B
decode_json req = or_response (api_error 400 (codes "invalid JSON")) req.body

abbrev pub raw_json_or_empty : Raw → Raw
raw_json_or_empty raw = if length raw == 0 then codes "{}" else raw

abbrev pub json_or_null : Raw → Raw
json_or_null b = if length b == 0 then codes "null" else b
