-- ===== src/Telemetry/Convert.antt =====
-- The conversions of agent/internal/grpcclient/eventbatcher.go from the datapath's events to the
-- protocol's. Enums are the numbers of their constants.
use qf.Common.{ℕ, Option, none, some, List, [], Text, ◌==◌, if◌then◌else◌}
use qf.Net.{to4}
use qf.Uuid.{uuid_bytes_to_string}
use qf.Loader.Events

-- A LogEvent message.
pub record LogEvent : Type 0 where
  pub ts : Option ℕ
  pub rule_id : Text
  pub policy_id : Text
  pub direction : ℕ
  pub action : ℕ
  pub protocol : ℕ
  pub src_ip : List ℕ
  pub src_port : ℕ
  pub dst_ip : List ℕ
  pub dst_port : ℕ
  pub packet_size : ℕ
  pub tcp_flags : ℕ
  pub conntrack_state : ℕ

-- A nil address has no bytes.
unfoldable pub ip_to_bytes : List ℕ → List ℕ
unfolding to4
ip_to_bytes ip = elim (to4 ip) [ none ↦ ip | some v4 ↦ v4 ]

unfoldable pub bpf_dir_to_proto : ℕ → ℕ
bpf_dir_to_proto d = if d == 1 then 1 else if d == 2 then 2 else 0

unfoldable pub bpf_action_to_proto : ℕ → ℕ
bpf_action_to_proto a = if a == 1 then 1 else if a == 2 then 2 else if a == 3 then 3 else 0

unfoldable pub bpf_proto_to_proto : ℕ → ℕ
bpf_proto_to_proto p =
    if p == 1
    then 1
    else if p == 2
    then 2
    else if p == 3
    then 3
    else if p == 4
    then 4
    else if p == 5
    then 5
    else 0

unfoldable pub bpf_ct_state_to_proto : ℕ → ℕ
bpf_ct_state_to_proto s =
    if s == 1
    then 1
    else if s == 2
    then 2
    else if s == 3
    then 3
    else if s == 4
    then 4
    else if s == 5
    then 5
    else 0

-- The time is that of the conversion.
unfoldable pub loader_event_to_proto : ℕ → Events.LogEvent → LogEvent
unfolding uuid_bytes_to_string ip_to_bytes bpf_dir_to_proto bpf_action_to_proto bpf_proto_to_proto
    bpf_ct_state_to_proto
loader_event_to_proto now ev = record {
  ts = some now;
  rule_id = uuid_bytes_to_string ev.rule_id;
  policy_id = [];
  direction = bpf_dir_to_proto ev.direction;
  action = bpf_action_to_proto ev.action;
  protocol = bpf_proto_to_proto ev.proto;
  src_ip = ip_to_bytes ev.src_ip;
  src_port = ev.src_port;
  dst_ip = ip_to_bytes ev.dst_ip;
  dst_port = ev.dst_port;
  packet_size = ev.pkt_size;
  tcp_flags = ev.tcp_flags;
  conntrack_state = bpf_ct_state_to_proto ev.ct_state;
}
