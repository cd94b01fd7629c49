-- ===== src/Ingest/Convert.antt =====
-- cp/internal/ingest/convert.go and the conversions of ingester.go: messages become the rows of the
-- database, or the events of a forwarder. An address is its bytes.
use qf.Common.{
  ℕ, ◌-◌, ◌%◌, ◌^◌, Option, none, some, List, [], ◌∷◌, ◌++◌, length, Text, codes, ltb, ◌==◌,
  if◌then◌else◌,
}
use qf.Common.Int.{ℤ, pos, negsuc}
use qf.Uuid.{pg_uuid_to_str}
use qf.Policy.{Uuid, Codec}
use qf.Session.Service.{to_int32}
use qf.Telemetry.Convert.{LogEvent}
use qf.Telemetry.Flows.{FlowEvent}
use qf.Telemetry.Senders.{RuleCounter}

pub record SystemEvent : Type 0 where
  pub kind : Text
  pub severity : ℕ
  pub detail : Text
  pub attributes : List (Text × Text)

-- An id is none where the column is NULL.
pub record LogRow : Type 0 where
  pub tenant_id : Option Uuid
  pub host_id : Option Uuid
  pub rule_id : Option Uuid
  pub policy_id : Option Uuid
  pub direction : Text
  pub action : Text
  pub protocol : ℤ
  pub src_ip : Option (List ℕ)
  pub dst_ip : Option (List ℕ)
  pub src_port : Option ℤ
  pub dst_port : Option ℤ
  pub packet_size : Option ℤ
  pub tcp_flags : Option ℤ
  pub ct_state : Option Text
  pub created_at : ℕ

pub record FlowRow : Type 0 where
  pub tenant_id : Option Uuid
  pub host_id : Option Uuid
  pub protocol : ℤ
  pub src_ip : Option (List ℕ)
  pub dst_ip : Option (List ℕ)
  pub src_port : Option ℤ
  pub dst_port : Option ℤ
  pub bytes_orig : ℤ
  pub bytes_reply : ℤ
  pub packets_orig : ℤ
  pub packets_reply : ℤ
  pub final_state : Option Text
  pub started_at : Option ℕ
  pub ended_at : Option ℕ
  pub created_at : ℕ

pub record CounterRow : Type 0 where
  pub tenant_id : Option Uuid
  pub host_id : Option Uuid
  pub rule_id : Option Uuid
  pub policy_id : Option Uuid
  pub packets : ℤ
  pub bytes : ℤ
  pub ts : ℕ

pub record SystemRow : Type 0 where
  pub tenant_id : Option Uuid
  pub host_id : Option Uuid
  pub kind : Text
  pub severity : Text
  pub detail : Text
  pub attributes : Text

pub record ForwarderEvent : Type 0 where
  pub tenant_id : Text
  pub host_id : Text
  pub rule_id : Text
  pub policy_id : Text
  pub direction : Text
  pub action : Text
  pub protocol : ℤ
  pub src_ip : Option (List ℕ)
  pub dst_ip : Option (List ℕ)
  pub src_port : ℤ
  pub dst_port : ℤ
  pub ct_state : Text
  pub ts : ℕ

-- `int64(x)` of an unsigned and `int16(x)` of an enum's value.
abbrev pub signed : ℕ → ℕ → ℤ
signed w n = let m = n % 2 ^ w in if ltb m (2 ^ (w - 1)) then pos m else negsuc (2 ^ w - 1 - m)

abbrev pub or_now : ℕ → Option ℕ → ℕ
or_now now none = now
or_now now (some ts) = ts

-- The columns that stay NULL where the field is zero or empty.
abbrev pub positive : ℕ → Option ℤ
positive n = if ltb 0 n then some (to_int32 (pos n)) else none

abbrev pub nonempty : Text → Option Text
nonempty s = if length s == 0 then none else some s

unfoldable pub bytes_to_addr : List ℕ → Option (List ℕ)
bytes_to_addr b = if length b == 4 then some b else if length b == 16 then some b else none

unfoldable pub uuid_to_string : Option Uuid → Text
unfolding pg_uuid_to_str
uuid_to_string none = []
uuid_to_string (some u) = pg_uuid_to_str u

-- uuidBytesToStr; a NULL id has the bytes zero.
unfoldable pub uuid_bytes_to_str : Option Uuid → Text
unfolding pg_uuid_to_str
uuid_bytes_to_str none =
    pg_uuid_to_str (0 ∷ 0 ∷ 0 ∷ 0 ∷ 0 ∷ 0 ∷ 0 ∷ 0 ∷ 0 ∷ 0 ∷ 0 ∷ 0 ∷ 0 ∷ 0 ∷ 0 ∷ 0 ∷ [])
uuid_bytes_to_str (some u) = pg_uuid_to_str u

unfoldable pub proto_direction_str : ℕ → Text
proto_direction_str d = if d == 2 then codes "egress" else codes "ingress"

unfoldable pub proto_action_str : ℕ → Text
proto_action_str a = if a == 2 then codes "deny" else if a == 3 then codes "log" else codes "allow"

unfoldable pub proto_conntrack_state_str : ℕ → Text
proto_conntrack_state_str s =
    if s == 2
    then codes "new"
    else if s == 3
    then codes "established"
    else if s == 4
    then codes "related"
    else if s == 5
    then codes "invalid"
    else []

unfoldable pub proto_severity_str : ℕ → Text
proto_severity_str s =
    if s == 2 then codes "warning" else if s == 3 then codes "error" else codes "info"

-- strings.ReplaceAll of one character.
unfoldable pub replace_all : ℕ → Text → Text → Text
replace_all old new [] = []
replace_all old new (c ∷ cs) =
    let rest = replace_all old new cs in if c == old then new ++ rest else c ∷ rest

-- The characters are the backslash (92), the quotation mark (34), and the line feed (10), carriage
-- return (13) and tab (9).
unfoldable pub json_escape_simple : Text → Text
unfolding replace_all
json_escape_simple s =
    let s₁ = replace_all 92 (92 ∷ 92 ∷ []) s in
    let s₂ = replace_all 34 (92 ∷ 34 ∷ []) s₁ in
    let s₃ = replace_all 10 (92 ∷ 110 ∷ []) s₂ in
    let s₄ = replace_all 13 (92 ∷ 114 ∷ []) s₃ in replace_all 9 (92 ∷ 116 ∷ []) s₄

abbrev member : Text × Text → Text
member (k, v) = 34 ∷ json_escape_simple k ++ (34 ∷ 58 ∷ 34 ∷ json_escape_simple v ++ 34 ∷ [])

abbrev members : List (Text × Text) → Text
members [] = []
members (m ∷ []) = member m
members (m ∷ n ∷ ms) = member m ++ (44 ∷ members (n ∷ ms))

module _ (codec : Codec) (now : ℕ) (tenant_id host_id : Option Uuid) where
  unfoldable pub proto_log_event_to_params : LogEvent → LogRow
  unfolding proto_direction_str proto_action_str proto_conntrack_state_str bytes_to_addr to_int32
  proto_log_event_to_params ev = record {
    tenant_id = tenant_id;
    host_id = host_id;
    rule_id = codec.scan_uuid ev.rule_id;
    policy_id = codec.scan_uuid ev.policy_id;
    direction = proto_direction_str ev.direction;
    action = proto_action_str ev.action;
    protocol = signed 16 ev.protocol;
    src_ip = bytes_to_addr ev.src_ip;
    dst_ip = bytes_to_addr ev.dst_ip;
    src_port = positive ev.src_port;
    dst_port = positive ev.dst_port;
    packet_size = positive ev.packet_size;
    tcp_flags = positive ev.tcp_flags;
    ct_state = nonempty (proto_conntrack_state_str ev.conntrack_state);
    created_at = or_now now ev.ts;
  }

  unfoldable pub proto_flow_event_to_params : FlowEvent → FlowRow
  unfolding bytes_to_addr to_int32
  proto_flow_event_to_params fv = record {
    tenant_id = tenant_id;
    host_id = host_id;
    protocol = signed 16 fv.protocol;
    src_ip = bytes_to_addr fv.src_ip;
    dst_ip = bytes_to_addr fv.dst_ip;
    src_port = positive fv.src_port;
    dst_port = positive fv.dst_port;
    bytes_orig = signed 64 fv.bytes_orig;
    bytes_reply = signed 64 fv.bytes_reply;
    packets_orig = signed 64 fv.packets_orig;
    packets_reply = signed 64 fv.packets_reply;
    final_state = nonempty fv.final_state;
    started_at = fv.ts_start;
    ended_at = fv.ts_end;
    created_at = now;
  }

  -- The rows of IngestCounterUpdate, with the time of the message.
  unfoldable pub counter_rows : Option ℕ → List RuleCounter → List CounterRow
  counter_rows ts [] = []
  counter_rows ts (rc ∷ rcs) =
      record {
        tenant_id = tenant_id;
        host_id = host_id;
        rule_id = codec.scan_uuid rc.rule_id;
        policy_id = none;
        packets = signed 64 rc.packets;
        bytes = signed 64 rc.bytes;
        ts = or_now now ts;
      }
      ∷ counter_rows ts rcs

  -- Go ranges over the attributes in any order; here it is the order of the list.
  unfoldable pub proto_system_event_to_params : SystemEvent → SystemRow
  unfolding proto_severity_str json_escape_simple
  proto_system_event_to_params ev = record {
    tenant_id = tenant_id;
    host_id = host_id;
    kind = ev.kind;
    severity = proto_severity_str ev.severity;
    detail = ev.detail;
    attributes = 123 ∷ members ev.attributes ++ 125 ∷ [];
  }

  unfoldable pub proto_to_forwarder_event : LogEvent → ForwarderEvent
  unfolding proto_direction_str proto_action_str proto_conntrack_state_str bytes_to_addr to_int32
      uuid_to_string
  proto_to_forwarder_event ev = record {
    tenant_id = uuid_to_string tenant_id;
    host_id = uuid_to_string host_id;
    rule_id = ev.rule_id;
    policy_id = ev.policy_id;
    direction = proto_direction_str ev.direction;
    action = proto_action_str ev.action;
    protocol = signed 16 ev.protocol;
    src_ip = bytes_to_addr ev.src_ip;
    dst_ip = bytes_to_addr ev.dst_ip;
    src_port = to_int32 (pos ev.src_port);
    dst_port = to_int32 (pos ev.dst_port);
    ct_state = proto_conntrack_state_str ev.conntrack_state;
    ts = or_now now ev.ts;
  }
