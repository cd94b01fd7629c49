-- ===== src/Loader/Events/Layout.antt =====
-- The bytes of struct log_event (agent/bpf, common.h), which the datapath writes.
use native.Mathlib.Numerals.{unary_clauses}
use qf.Common.{
  ℕ, ◌/◌, ◌%◌, ◌^◌, ◌<◌, ◌≡◌, refl, List, [], ◌∷◌, ◌++◌, ok, arith, ap, take, length, ltb, false,
}
use qf.Loader.Events.{
  LogEventWire, LogEvent, little_endian_of, read_wire, put_uint64, event_of, decode_log_event,
}
use qf.Net.{decode_ip4}

-- The low `n` bytes of a number, the lowest first.
abbrev pub write_le : ℕ → ℕ → List ℕ
write_le ℕ.zero v = []
write_le (ℕ.suc n) v = v % 256 ∷ write_le n (v / 256)

abbrev pub write_wire : LogEventWire → List ℕ
write_wire w =
    write_le 8 w.ts_ns
    ++ (write_le 8 w.rule_id_hi
        ++ (write_le 8 w.rule_id_lo
            ++ (write_le 4 w.src_ip
                ++ (write_le 4 w.dst_ip
                    ++ (write_le 2 w.src_port
                        ++ (write_le 2 w.dst_port
                            ++ (write_le 2 w.pkt_size
                                ++ (write_le 2 w.tcp_flags
                                    ++ (write_le 1 w.proto
                                        ++ (write_le 1 w.direction
                                            ++ (write_le 1 w.action
                                                ++ write_le 1 w.ct_state)))))))))))

-- The fields have the widths of the struct.
pub record Fits (w : LogEventWire) : Type 0 where
  pub ts_ns : w.ts_ns < 2 ^ 64
  pub rule_id_hi : w.rule_id_hi < 2 ^ 64
  pub rule_id_lo : w.rule_id_lo < 2 ^ 64
  pub src_ip : w.src_ip < 2 ^ 32
  pub dst_ip : w.dst_ip < 2 ^ 32
  pub src_port : w.src_port < 2 ^ 16
  pub dst_port : w.dst_port < 2 ^ 16
  pub pkt_size : w.pkt_size < 2 ^ 16
  pub tcp_flags : w.tcp_flags < 2 ^ 16
  pub proto : w.proto < 2 ^ 8
  pub direction : w.direction < 2 ^ 8
  pub action : w.action < 2 ^ 8
  pub ct_state : w.ct_state < 2 ^ 8

little_endian_of-write_le : (n v : ℕ) → v < 256 ^ n → little_endian_of (write_le n v) ≡ v
unfolding little_endian_of
little_endian_of-write_le ℕ.zero v h = let small = simp unary_clauses at h in ground (arith, small)
little_endian_of-write_le (ℕ.suc n) v h =
    let small = simp unary_clauses at h in
    let ih = little_endian_of-write_le n (v / 256) (omega arith) in rw ih (omega arith)

-- What binary.Read makes of the bytes.
read_wire-write_wire :
    (w : LogEventWire) (rest : List ℕ) → Fits w → read_wire (take 44 (write_wire w ++ rest)) ≡ w
unfolding read_wire
read_wire-write_wire w rest fits =
    rw
      (
        little_endian_of-write_le 8 w.ts_ns fits.ts_ns,
        little_endian_of-write_le 8 w.rule_id_hi fits.rule_id_hi,
        little_endian_of-write_le 8 w.rule_id_lo fits.rule_id_lo,
        little_endian_of-write_le 4 w.src_ip fits.src_ip,
        little_endian_of-write_le 4 w.dst_ip fits.dst_ip,
        little_endian_of-write_le 2 w.src_port fits.src_port,
        little_endian_of-write_le 2 w.dst_port fits.dst_port,
        little_endian_of-write_le 2 w.pkt_size fits.pkt_size,
        little_endian_of-write_le 2 w.tcp_flags fits.tcp_flags,
        little_endian_of-write_le 1 w.proto fits.proto,
        little_endian_of-write_le 1 w.direction fits.direction,
        little_endian_of-write_le 1 w.action fits.action,
        little_endian_of-write_le 1 w.ct_state fits.ct_state,
      )
      refl

-- The event of a struct: the rule id has the bytes of its high half and then of its low half, and of
-- the TCP flags the low eight bits count.
abbrev pub written : LogEventWire → LogEvent
written w = record {
  timestamp_ns = w.ts_ns;
  rule_id = put_uint64 w.rule_id_hi ++ put_uint64 w.rule_id_lo;
  src_ip = decode_ip4 w.src_ip;
  dst_ip = decode_ip4 w.dst_ip;
  src_port = w.src_port;
  dst_port = w.dst_port;
  pkt_size = w.pkt_size;
  tcp_flags = w.tcp_flags % 256;
  proto = w.proto;
  direction = w.direction;
  action = w.action;
  ct_state = w.ct_state;
}

-- What decoding reads from the bytes of an event, with any bytes after them, is the event that was
-- written, where the fields have the widths of the struct.
pub decode_log_event-write_wire :
    (w : LogEventWire) (rest : List ℕ)
    → Fits w
    → decode_log_event (write_wire w ++ rest) ≡ ok (written w)
unfolding decode_log_event event_of
decode_log_event-write_wire w rest fits =
    let long : ltb (length (write_wire w ++ rest)) 44 ≡ false = ground arith in
    rw (decode_log_event, long)
      (ap (λ (v : LogEventWire). ok (event_of v)) (read_wire-write_wire w rest fits))
