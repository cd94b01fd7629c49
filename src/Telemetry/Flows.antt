-- ===== src/Telemetry/Flows.antt =====
-- agent/internal/grpcclient/flowcollector.go: flows are tracked from scan to scan of the conntrack
-- table, and reported when they close or disappear. A Go map is an association list.
pub mod Tracking
use qf.Common.{
  ℕ, Bool, true, false, ◌&&◌, Option, none, some, List, [], ◌∷◌, ◌++◌, length, Text, text_eq, codes,
  ok, err, ◌==◌, if◌then◌else◌,
}
use qf.Net.{to4}
use qf.Loader.{BpfObjects, Kernel, Config}
use qf.Loader.Settings.{get_config, set_config}
use qf.Loader.Conntrack.{ConntrackEntry, Table, conntrack_dump, tcp_cs_closed}
use qf.Telemetry.Convert.{ip_to_bytes, bpf_proto_to_proto}

abbrev pub default_flow_interval_ms : ℕ
default_flow_interval_ms = 10000

pub record FlowKey : Type 0 where
  pub src_ip : List ℕ
  pub dst_ip : List ℕ
  pub src_port : ℕ
  pub dst_port : ℕ
  pub proto : ℕ

pub record FlowState : Type 0 where
  pub first_seen : ℕ
  pub entry : ConntrackEntry

pub record FlowEvent : Type 0 where
  pub ts_start : Option ℕ
  pub ts_end : Option ℕ
  pub protocol : ℕ
  pub src_ip : List ℕ
  pub dst_ip : List ℕ
  pub src_port : ℕ
  pub dst_port : ℕ
  pub bytes_orig : ℕ
  pub bytes_reply : ℕ
  pub packets_orig : ℕ
  pub packets_reply : ℕ
  pub final_state : Text

-- The collector, with the messages that it has sent.
pub record FlowEventCollector : Type 0 where
  pub enabled : Bool
  pub interval_ms : ℕ
  pub tracked : List (FlowKey × FlowState)
  pub sent : List (List FlowEvent)

unfoldable pub new_flow_event_collector : ℕ → FlowEventCollector
new_flow_event_collector interval_ms = record {
  enabled = false;
  interval_ms = if interval_ms == 0 then default_flow_interval_ms else interval_ms;
  tracked = [];
  sent = [];
}

-- SetEnabled with a loader; enabling it also enables the conntrack table, as far as that works.
unfoldable pub set_enabled :
    Kernel → Bool → BpfObjects → FlowEventCollector → BpfObjects × FlowEventCollector
unfolding get_config set_config
set_enabled k v m fc =
    let fc' = record fc { enabled = v } in
    if v
    then (elim (get_config k m) [
      | err e ↦ (m, fc')
      | ok cfg ↦ ((set_config k (record cfg { conntrack_enabled = true }) m).0, fc')
    ])
    else (m, fc')

abbrev four_bytes : List ℕ → List ℕ
four_bytes ip = elim (to4 ip) [ none ↦ 0 ∷ 0 ∷ 0 ∷ 0 ∷ [] | some v4 ↦ v4 ]

unfoldable pub entry_key : ConntrackEntry → FlowKey
unfolding to4
entry_key e = record {
  src_ip = four_bytes e.key.src_ip;
  dst_ip = four_bytes e.key.dst_ip;
  src_port = e.key.src_port;
  dst_port = e.key.dst_port;
  proto = e.key.protocol;
}

unfoldable pub flow_key_eq : FlowKey → FlowKey → Bool
unfolding text_eq
flow_key_eq a b =
    text_eq a.src_ip b.src_ip
    && (text_eq a.dst_ip b.dst_ip
        && (a.src_port == b.src_port && (a.dst_port == b.dst_port && a.proto == b.proto)))

abbrev pub is_closed : ConntrackEntry → Bool
is_closed e = e.tcp_state == tcp_cs_closed

unfoldable pub make_flow_event : ℕ → ℕ → ConntrackEntry → FlowEvent
unfolding ip_to_bytes bpf_proto_to_proto
make_flow_event start end e = record {
  ts_start = some start;
  ts_end = some end;
  protocol = bpf_proto_to_proto e.key.protocol;
  src_ip = ip_to_bytes e.key.src_ip;
  dst_ip = ip_to_bytes e.key.dst_ip;
  src_port = e.key.src_port;
  dst_port = e.key.dst_port;
  bytes_orig = e.bytes_fwd;
  bytes_reply = e.bytes_rev;
  packets_orig = e.packets_fwd;
  packets_reply = e.packets_rev;
  final_state = if is_closed e then codes "TCP_CLOSED" else [];
}

module _ {ℓ} {V : Type ℓ} where
  unfoldable pub find_flow : FlowKey → List (FlowKey × V) → Option V
  find_flow k [] = none
  find_flow k ((j, v) ∷ m) = let rest = find_flow k m in if flow_key_eq j k then some v else rest

  unfoldable pub put_flow : FlowKey → V → List (FlowKey × V) → List (FlowKey × V)
  put_flow k v [] = (k, v) ∷ []
  put_flow k v ((j, w) ∷ m) =
      let rest = put_flow k v m in if flow_key_eq j k then (k, v) ∷ m else (j, w) ∷ rest

-- The map of the current flows, the later entry of a key replacing the earlier.
unfoldable pub current_of :
    List ConntrackEntry → List (FlowKey × ConntrackEntry) → List (FlowKey × ConntrackEntry)
unfolding entry_key put_flow
current_of [] m = m
current_of (e ∷ es) m = current_of es (put_flow (entry_key e) e m)

-- The loop over the tracked flows: those that go on, and the events of the others.
unfoldable pub track :
    ℕ
    → List (FlowKey × ConntrackEntry)
    → List (FlowKey × FlowState)
    → List (FlowKey × FlowState) × List FlowEvent
track now current [] = ([], [])
track now current ((k, st) ∷ m) =
    let (kept, events) = track now current m in
    elim (find_flow k current) [
      | none ↦ (kept, make_flow_event st.first_seen now st.entry ∷ events)
      | some e ↦
          if is_closed e
          then (kept, make_flow_event st.first_seen now e ∷ events)
          else ((k, record { first_seen = st.first_seen; entry = e }) ∷ kept, events)
    ]

-- The loop that registers new flows.
abbrev pub known : Option FlowState → Bool
known none = false
known (some st) = true

unfoldable pub register_new :
    ℕ → List (FlowKey × ConntrackEntry) → List (FlowKey × FlowState) → List (FlowKey × FlowState)
register_new now [] m = m
register_new now ((k, e) ∷ current) m =
    register_new now current
      (if known (find_flow k m) then m else (k, record { first_seen = now; entry = e }) ∷ m)

-- scan; the table is none where the dump fails. A send that fails loses the events.
unfoldable pub scan : ℕ → Bool → Option Table → FlowEventCollector → FlowEventCollector
unfolding conntrack_dump current_of track register_new
scan now send_ok none fc = fc
scan now send_ok (some table) fc =
    let current = current_of (conntrack_dump table) [] in
    let (kept, events) = track now current fc.tracked in
    let fc' = record fc { tracked = register_new now current kept } in
    if length events == 0
    then fc'
    else if send_ok
    then record fc' { sent = fc.sent ++ events ∷ [] }
    else fc'

-- A tick of Run. `enabled` is what the field was before the wait.
unfoldable pub tick : Bool → ℕ → Bool → Option Table → FlowEventCollector → FlowEventCollector
unfolding scan
tick enabled now send_ok table fc = if enabled then scan now send_ok table fc else fc
