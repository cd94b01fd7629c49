-- ===== src/Loader/Events.antt =====
-- agent/internal/loader/events.go: the log events of the datapath. The ring buffer is the kernel's.
pub mod Layout
use qf.Common.{
  ℕ, ◌+◌, ◌*◌, ◌/◌, ◌%◌, ◌^◌, Bool, List, [], ◌∷◌, ◌++◌, length, take, drop, Result, ok, err, ltb,
  if◌then◌else◌,
}
use qf.Net.{decode_ip4}

pub record LogEvent : Type 0 where
  pub timestamp_ns : ℕ
  pub rule_id : List ℕ
  pub src_ip : List ℕ
  pub dst_ip : List ℕ
  pub src_port : ℕ
  pub dst_port : ℕ
  pub pkt_size : ℕ
  pub tcp_flags : ℕ
  pub proto : ℕ
  pub direction : ℕ
  pub action : ℕ
  pub ct_state : ℕ

-- struct log_event.
pub record LogEventWire : Type 0 where
  pub ts_ns : ℕ
  pub rule_id_hi : ℕ
  pub rule_id_lo : ℕ
  pub src_ip : ℕ
  pub dst_ip : ℕ
  pub src_port : ℕ
  pub dst_port : ℕ
  pub pkt_size : ℕ
  pub tcp_flags : ℕ
  pub proto : ℕ
  pub direction : ℕ
  pub action : ℕ
  pub ct_state : ℕ

abbrev pub log_event_size : ℕ
log_event_size = 44

pub data EventError : Type 0 where
  short_log_event : ℕ → EventError

-- binary.LittleEndian on all of the bytes, and on the `n` bytes at `offset`.
unfoldable pub little_endian_of : List ℕ → ℕ
little_endian_of [] = 0
little_endian_of (b ∷ bs) = b + 256 * little_endian_of bs

abbrev pub field : ℕ → ℕ → List ℕ → ℕ
field offset n raw = little_endian_of (take n (drop offset raw))

-- binary.Read of the struct.
unfoldable pub read_wire : List ℕ → LogEventWire
read_wire raw = record {
  ts_ns = field 0 8 raw;
  rule_id_hi = field 8 8 raw;
  rule_id_lo = field 16 8 raw;
  src_ip = field 24 4 raw;
  dst_ip = field 28 4 raw;
  src_port = field 32 2 raw;
  dst_port = field 34 2 raw;
  pkt_size = field 36 2 raw;
  tcp_flags = field 38 2 raw;
  proto = field 40 1 raw;
  direction = field 41 1 raw;
  action = field 42 1 raw;
  ct_state = field 43 1 raw;
}

-- binary.BigEndian.PutUint64.
unfoldable pub put_uint64 : ℕ → List ℕ
put_uint64 v =
    v / 2 ^ 56 % 256
    ∷ v / 2 ^ 48 % 256
    ∷ v / 2 ^ 40 % 256
    ∷ v / 2 ^ 32 % 256
    ∷ v / 2 ^ 24 % 256
    ∷ v / 2 ^ 16 % 256
    ∷ v / 2 ^ 8 % 256
    ∷ v % 256
    ∷ []

unfoldable pub event_of : LogEventWire → LogEvent
event_of w = record {
  timestamp_ns = w.ts_ns;
  rule_id = put_uint64 w.rule_id_hi ++ put_uint64 w.rule_id_lo;
  src_ip = decode_ip4 w.src_ip;
  dst_ip = decode_ip4 w.dst_ip;
  src_port = w.src_port;
  dst_port = w.dst_port;
  pkt_size = w.pkt_size;
  tcp_flags = w.tcp_flags % 256;
  proto = w.proto;
  direction = w.direction;
  action = w.action;
  ct_state = w.ct_state;
}

unfoldable pub decode_log_event : List ℕ → Result EventError LogEvent
decode_log_event raw =
    if ltb (length raw) log_event_size
    then err (short_log_event (length raw))
    else ok (event_of (read_wire (take log_event_size raw)))
