-- ===== src/Examples/Api.antt =====
-- The theorems on the HTTP API (cp/internal/api) at concrete inputs.
use qf.Common.{
  ◌+◌, ◌≡◌, refl, true, false, none, some, List, [], ◌∷◌, ok, err, arith, codes, Text, text_eq,
  Result, ◌==◌, not, if◌then◌else◌,
}
use qf.Common.Int.{ℤ, pos}
use qf.Common.Exec.{◌>>=◌, pure, lift, raise_if, or_value}
use qf.Common.Tables.{find_row, rows_where, delete_where, update_where}
use qf.Common.Sort.{sort_by, sort_insert}
use qf.Proto.{PortRange}
use qf.Uuid.{pg_uuid_to_str}
use qf.Policy.{Uuid, DefaultPolicy}
use qf.Policy.Resolver.{parse_port_range}
use qf.Policy.Cascade.{Propagation, on_object_group_changed}
use qf.Store.{
  Database, Tables, Store, StoreError, PolicyRecord, RuleRecord, HostRecord, ConfigVersion,
  RuleObjectgroupRef, statement, transaction,
}
use qf.Store.Rules.{
  RuleParams, list_rules_by_policy, rules_of, delete_rule, drop_rules, create_rule, takes_rule,
  rule_checks,
}
use qf.Store.Rules.Keys.{IsKeyed}
use qf.Store.Policies.{is_policy, get_policy, update_policy, delete_policy, drop_policy}
use qf.Store.Versions.{insert_config_version, is_version, takes_version, max_version}
use qf.Store.Versions.Numbers.{get-insert_config_version}
use qf.Store.Hosts.{takes_status}
use qf.Store.Hosts.Valid.{IsValid}
use qf.Store.Groups.{upsert_default_policy, takes_default, takes_action}
use qf.Store.Reads.{queries_of}
use qf.Store.WellFormed.{IsWellFormed}
use qf.Api.{
  Request, Response, Server, answer, tenant_from_request, uuid_param, decode_json, on_store,
  or_fail, start, set_audit_before, policy_changed, write_json, one_token, default_policy_changed,
}
use qf.Api.Policies.{
  UpdatePolicyRequest, update, save, capture, note_before, replace_policy, replace_rules,
  delete_rules, create_rules, delete,
}
use qf.Api.Policies.Save.{IsKept}
use qf.Api.Policies.Update.{IsUpdated, update-IsUpdated, update-IsKept}
use qf.Api.Versions.{Formats, revert_version}
use qf.Api.Routes.{Call, call_update, call_create_rule, call_delete, serve}
use qf.Api.Keys.{serve-IsWellFormed}
use qf.Api.Tasks.{run_task, run_task-delete}
use qf.Api.Revert.{pending-revert_version}
use qf.Api.References.{on_object_group_changed-serve}
use qf.Api.Hosts.{HostFormats, port_range_to_str}
use qf.Api.Hosts.Valid.{Event, host_patch, host_enrolled, sweep, run, run-IsValid}
use qf.Api.Ports.{parse-port_range_to_str}
use qf.Api.Groups.{put_default}
use qf.Api.Groups.Defaults.{IsSaved, defaults-put_default}
use qf.Pki.Tokens.{
  TokenRow, Encoding, create_bulk_token, insert_token, find_token, list_tokens, live_tokens,
  token_of,
}
use qf.Api.Tokens
use qf.Api.Tokens.{CreateTokenRequest, TokenDatabase, tenant_from_req, to_token_response}
use qf.Examples.Server.{codec, host, policy, deny, id_of}

abbrev db : Database
db = record { up = λ n. true; now = λ n. n; new_id = λ n. id_of (100 + n); jsonb = λ r. r }

abbrev base : PolicyRecord
base = record {
  policy = record policy { id = id_of 0 };
  tenant_id = id_of 0;
  description = [];
  current_version = pos 0;
  created_at = 0;
  updated_at = 0;
}

abbrev old_rule : RuleRecord
old_rule = record { rule = record deny { policy_id = id_of 0 }; created_at = 0; updated_at = 0 }

abbrev web : HostRecord
web = record {
  host = host;
  tenant_id = id_of 0;
  last_heartbeat_at = none;
  agent_version = none;
  kernel_version = none;
  flow_events_enabled = false;
  created_at = 0;
  updated_at = 0;
}

abbrev tables : Tables
tables = record {
  policies = base ∷ [];
  rules = old_rule ∷ [];
  versions = [];
  hosts = web ∷ [];
  refs = [];
  object_groups = [];
  default_policies = [];
}

abbrev store : Store
store = record { tables = tables; statements = 0; in_transaction = false; aborted = false }

abbrev server : Server
server = record { store = store; pending = []; audit_before = none }

abbrev request : {B : Type 0} → B → Request B
request b = record {
  claims = none;
  tenant_header = codes "t";
  id = codes "p";
  rule_id = [];
  version = codes "1";
  body = some b;
}

abbrev allow_web : RuleParams
allow_web = record {
  name = codes "web";
  priority = pos 3;
  direction = [];
  matching = [];
  state = none;
  action = codes "allow";
  log = false;
  silent = false;
}

abbrev new_body : UpdatePolicyRequest
new_body = record {
  policy = record { name = codes "base"; description = []; priority = pos 5; selector = [] };
  rules = allow_web ∷ [];
}

one-IsKeyed : IsKeyed tables.rules
one-IsKeyed = (tt, tt)

abbrev updated : Server × Result Response Response
updated = update codec db true (id_of 0) (request new_body) server

update_ok : updated.1 ≡ ok (answer updated)
unfolding update save capture note_before transaction replace_policy replace_rules delete_rules
    create_rules update_policy get_policy list_rules_by_policy rules_of sort_by sort_insert
    delete_rule drop_rules create_rule takes_rule rule_checks ◌>>=◌ pure lift raise_if or_value
    on_store or_fail start set_audit_before statement find_row rows_where delete_where update_where
    text_eq tenant_from_request uuid_param decode_json
update_ok = refl

update-IsUpdated_example :
    (tenant id : Uuid) × (body : UpdatePolicyRequest) × (tenant_from_request codec
        (request new_body)
      ≡ ok tenant)
    × (uuid_param codec (codes "id") (codes "p") ≡ ok id)
    × (some new_body ≡ some body)
    × IsUpdated codec db true
        (id_of 0)
        (request new_body)
        server
        id
        tenant
        body
        tables
        updated.0.store.tables
update-IsUpdated_example =
    update-IsUpdated codec db true (id_of 0) (request new_body) server (answer updated) one-IsKeyed
      update_ok

-- The INSERT of the rule fails.
abbrev failing : Database
failing = record db { up = λ n. not (n == 6) }

abbrev not_updated : Server × Result Response Response
not_updated = update codec failing true (id_of 0) (request new_body) server

update_fails : not_updated.1 ≡ err (answer not_updated)
unfolding update save capture note_before transaction replace_policy replace_rules delete_rules
    create_rules update_policy get_policy list_rules_by_policy rules_of sort_by sort_insert
    delete_rule drop_rules create_rule takes_rule rule_checks ◌>>=◌ pure lift raise_if or_value
    on_store or_fail start set_audit_before statement find_row rows_where delete_where update_where
    text_eq tenant_from_request uuid_param decode_json
update_fails = refl

update-IsKept_example : IsKept server not_updated.0
update-IsKept_example =
    update-IsKept codec failing true (id_of 0) (request new_body) server (answer not_updated)
      one-IsKeyed update_fails

abbrev formats : Formats
formats = record { atoi = λ s. some (pos 1); encode = λ s. some []; decode = λ r. none }

abbrev NoRef : RuleObjectgroupRef → Type 0
NoRef r = ⊥

tables-IsWellFormed : IsWellFormed NoRef tables
unfolding find_row text_eq
tables-IsWellFormed = record {
  policies = (refl, tt);
  rules = (refl, tt);
  owners = (refl, tt);
  refs = tt;
}

abbrev calls : List Call
calls =
    call_update (request new_body)
    ∷ call_create_rule (request allow_web)
    ∷ call_delete (request tt)
    ∷ []

serve-IsWellFormed_example :
    IsWellFormed NoRef (serve codec db formats true (id_of 0) calls server).store.tables
serve-IsWellFormed_example =
    serve-IsWellFormed codec db formats true (id_of 0) calls server tables-IsWellFormed

abbrev deleted : Server × Result Response Response
deleted = delete codec db true (id_of 0) (request tt) server

tenant_is : tenant_from_request codec (request tt) ≡ ok (id_of 0)
unfolding tenant_from_request
tenant_is = refl

ids_read :
    (u : Uuid)
    → uuid_param codec (codes "id") (codes "p") ≡ ok u
    → codec.scan_uuid (pg_uuid_to_str u) ≡ some u
unfolding uuid_param
ids_read u h = cc

delete_ok : deleted.1 ≡ ok (answer deleted)
unfolding delete delete_policy drop_policy drop_rules ◌>>=◌ pure lift raise_if or_value on_store
    or_fail start set_audit_before statement find_row rows_where delete_where update_where text_eq
    tenant_from_request uuid_param decode_json
delete_ok = refl

run_task-delete_example :
    (id : Uuid) × (uuid_param codec (codes "id") (codes "p") ≡ ok id)
    × (find_row (is_policy id (id_of 0)) deleted.0.store.tables.policies ≡ none)
    × (deleted.0.pending ≡ policy_changed (pg_uuid_to_str (id_of 0)) (pg_uuid_to_str id) ∷ [])
    × ((t : Store) (st : Propagation)
        → find_row (is_policy id (id_of 0)) t.tables.policies ≡ none
        → run_task codec db formats true
            (λ h. true)
            (policy_changed (pg_uuid_to_str (id_of 0)) (pg_uuid_to_str id))
            (t, st)
          ≡ (t, st))
run_task-delete_example =
    run_task-delete codec db formats true (λ h. true) (id_of 0) (request tt) server (answer deleted)
      tenant_is refl ids_read delete_ok

pending-revert_version_example :
    (revert_version codec db formats (request tt) server).0.pending ≡ []
pending-revert_version_example = pending-revert_version codec db formats (request tt) server

abbrev nobody : Propagation
nobody = record { streams = record { streams = []; active_streams = pos 0 }; bumped = [] }

on_object_group_changed-serve_example :
    on_object_group_changed codec
      (queries_of (serve codec db formats true (id_of 0) calls server).store.tables)
      true
      (λ h. true)
      (codes "t")
      (codes "g")
      nobody
    ≡ (nobody, ok tt)
on_object_group_changed-serve_example =
    on_object_group_changed-serve codec db formats true true (id_of 0) (λ h. true) calls server
      (codes "t") (codes "g") (id_of 0) (id_of 0) nobody tables-IsWellFormed refl refl

abbrev inserted : Store × Result StoreError (Unit {0})
inserted =
    insert_config_version db (id_of 0) (codes "policy") (id_of 0) (codes "{}") (codes "a") store

insert_ok : inserted ≡ (inserted.0, ok tt)
unfolding insert_config_version statement takes_version max_version text_eq
insert_ok = refl

get-insert_config_version_example :
    (n : ℤ) × (row : ConfigVersion) × (find_row
        (is_version (id_of 0) (codes "policy") (id_of 0) n)
        []
      ≡ none)
    × (find_row (is_version (id_of 0) (codes "policy") (id_of 0) n) inserted.0.tables.versions
        ≡ some row)
    × (row.content ≡ codes "{}")
    × (row.created_by ≡ codes "a")
    × ((u j : Uuid) (k : Text) (m : ℤ) (old : ConfigVersion)
        → find_row (is_version u k j m) [] ≡ some old
        → find_row (is_version u k j m) inserted.0.tables.versions ≡ some old)
get-insert_config_version_example =
    get-insert_config_version db (id_of 0) (id_of 0) (codes "policy") (codes "{}") (codes "a") store
      inserted.0 insert_ok

abbrev host_formats : HostFormats
host_formats = record { marshal = λ m. some []; labels_of = λ r. []; ip_string = λ ip. [] }

hosts-IsValid : IsValid tables
unfolding find_row takes_status text_eq
hosts-IsValid = record { keys = (refl, tt); statuses = (refl, tt) }

abbrev events : List Event
events =
    host_patch (
      request
        (record { labels = none; status = some (codes "revoked"); flow_events_enabled = none }))
    ∷ host_enrolled (id_of 0)
        (record { hostname = codes "web1"; labels = []; status = codes "enrolling" })
    ∷ sweep
    ∷ []

run-IsValid_example : IsValid (run codec db host_formats true true events server).store.tables
run-IsValid_example = run-IsValid codec db host_formats true true events server hosts-IsValid

abbrev web_ports : PortRange
web_ports = record { start = 80; end = 443 }

parse-port_range_to_str_example : parse_port_range (port_range_to_str web_ports) ≡ ok web_ports
parse-port_range_to_str_example = parse-port_range_to_str web_ports (omega arith) (omega arith)

abbrev defaults : DefaultPolicy
defaults = record { default_ingress_action = []; default_egress_action = codes "allow" }

abbrev defaulted : Server × Result Response Response
defaulted = put_default codec db true (request defaults) server

put_ok : defaulted.1 ≡ ok (answer defaulted)
unfolding put_default upsert_default_policy takes_default takes_action ◌>>=◌ pure lift raise_if
    or_value on_store or_fail start set_audit_before statement find_row rows_where delete_where
    update_where text_eq tenant_from_request uuid_param decode_json
put_ok = refl

defaults-put_default_example :
    (tenant : Uuid) × (body saved : DefaultPolicy) × (tenant_from_request codec (request defaults)
      ≡ ok tenant)
    × (some defaults ≡ some body)
    × IsSaved body saved
    × ((u : Uuid)
        → (queries_of defaulted.0.store.tables).default_policy u
          ≡ (if text_eq tenant u then some saved else (queries_of tables).default_policy u))
    × (defaulted.0.pending ≡ default_policy_changed (pg_uuid_to_str tenant) ∷ [])
defaults-put_default_example =
    defaults-put_default codec db true (request defaults) server (answer defaulted) put_ok

abbrev token_encoding : Encoding
token_encoding = record {
  encode = λ b. b;
  hash_token = λ t. t;
  marshal = λ m. some [];
  unmarshal = λ t. [];
}

abbrev old_token : TokenRow
old_token = record {
  id = codes "1";
  tenant_id = codes "t";
  kind = codes "bulk";
  token_hash = codes "x";
  target_host_id = none;
  label_template = none;
  max_uses = pos 1;
  uses_count = pos 0;
  expires_at = 9;
  created_at = 1;
}

abbrev token_db : TokenDatabase
token_db = record {
  random = some (codes "y");
  insertion = record { new_id = codes "2"; now = 5; accepted = true };
  up = true;
  now = 6;
}

abbrev new_token : CreateTokenRequest
new_token = record {
  type = codes "bulk";
  target_host_id = [];
  label_template = [];
  ttl_seconds = pos 0;
  max_uses = pos 3;
}

-- The new token is shown with the id and the uses of the old one.
old_token_shown :
    (Tokens.create token_encoding token_db (request new_token) (old_token ∷ [])).1
    ≡ ok (
        write_json 201
          (one_token (to_token_response (codes "y") (token_of token_encoding old_token))))
unfolding Tokens.create ◌>>=◌ lift tenant_from_req decode_json create_bulk_token insert_token
    find_token list_tokens live_tokens sort_by sort_insert text_eq
old_token_shown = refl
