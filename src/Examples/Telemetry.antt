-- ===== src/Examples/Telemetry.antt =====
-- The theorems on tokens, flows, log events and ingestion at concrete inputs.
use qf.Common.{
  err, ◌⊎◌, ℕ, ◌+◌, ◌≤◌, ◌≡◌, refl, Bool, true, false, some, none, List, [], ◌∷◌, ◌++◌, Text, ok,
  codes, arith, text_eq,
}
use qf.Common.Int.{pos}
use qf.Pki.Tokens.{TokenRow, Encoding, validate_and_consume, find_token, token_exhausted}
use qf.Pki.Tokens.Uses.{IsUnique, takes, takes-le}
use qf.Pki.Tokens.Verdict.{IsVerdict, validate_and_consume-IsVerdict}
use qf.Loader.Events.{LogEventWire, decode_log_event}
use qf.Loader.Events.Layout.{Fits, write_wire, written, decode_log_event-write_wire}
use qf.Loader.Conntrack.{Table}
use qf.Telemetry.Flows.{FlowKey, FlowEventCollector, new_flow_event_collector, find_flow, scan}
use qf.Telemetry.Flows.Tracking.{tracked_after, last_entry, find_flow-scan}
use qf.Ingest.Worker.{Queue, WorkerWake, row_received, tick, cancelled, run_worker, batch_worker}
use qf.Ingest.Worker.Rows.{IsRun, run_worker-IsRun}

-- A hash that is the text itself.
abbrev encoding : Encoding
encoding = record {
  encode = λ b. b;
  hash_token = λ s. s;
  marshal = λ l. some [];
  unmarshal = λ s. [];
}

abbrev secret : Text
secret = codes "s3cret"

abbrev token : TokenRow
token = record {
  id = codes "1";
  tenant_id = codes "t";
  kind = codes "bulk";
  token_hash = secret;
  target_host_id = none;
  label_template = none;
  max_uses = pos 2;
  uses_count = pos 0;
  expires_at = 100;
  created_at = 1;
}

one-IsUnique : IsUnique (token ∷ [])
unfolding find_token
one-IsUnique = (refl, tt)

token_found : find_token secret (token ∷ []) ≡ some token
unfolding find_token text_eq
token_found = refl

-- At its last time, and not used up.
abbrev expired_token : TokenRow
expired_token = record token { token_hash = codes "old"; expires_at = 7 }

two-IsUnique : IsUnique (token ∷ expired_token ∷ [])
unfolding find_token text_eq
two-IsUnique = (refl, (refl, tt))

validate_and_consume-IsVerdict_example :
    IsVerdict encoding true 7
      (find_token (codes "old") (token ∷ expired_token ∷ []))
      (validate_and_consume encoding true true (codes "old") 7 (token ∷ expired_token ∷ [])).1
      (find_token
        (codes "old")
        (validate_and_consume encoding true true (codes "old") 7 (token ∷ expired_token ∷ [])).0)
    × ((j : Text)
        → (text_eq (codes "old") j ≡ true)
          ⊎ (find_token j
                (validate_and_consume encoding true true
                  (codes "old")
                  7
                  (token ∷ expired_token ∷ [])).0
              ≡ find_token j (token ∷ expired_token ∷ [])))
validate_and_consume-IsVerdict_example =
    validate_and_consume-IsVerdict encoding true (codes "old") 7 (token ∷ expired_token ∷ [])
      two-IsUnique

-- It is refused.
expired_refused :
    (validate_and_consume encoding true true (codes "old") 7 (token ∷ expired_token ∷ [])).1
    ≡ err token_exhausted
unfolding validate_and_consume text_eq
expired_refused = refl

abbrev attempts : List (Text × ℕ × Bool)
attempts = (secret, 7, true) ∷ (codes "guess", 8, true) ∷ (secret, 9, true) ∷ (secret, 9, true) ∷ []

takes-le_example : 0 + takes encoding secret attempts (token ∷ []) ≤ 1 + 1
takes-le_example =
    takes-le encoding secret 1 0 attempts (token ∷ []) token one-IsUnique token_found refl refl
      (omega arith)

abbrev denied : LogEventWire
denied = record {
  ts_ns = 123456789012;
  rule_id_hi = 1234605616436508552;
  rule_id_lo = 11068046444225730969;
  src_ip = 16820234;
  dst_ip = 33597450;
  src_port = 40000;
  dst_port = 443;
  pkt_size = 60;
  tcp_flags = 2;
  proto = 2;
  direction = 1;
  action = 2;
  ct_state = 1;
}

denied-Fits : Fits denied
denied-Fits = record {
  ts_ns = omega arith;
  rule_id_hi = omega arith;
  rule_id_lo = omega arith;
  src_ip = omega arith;
  dst_ip = omega arith;
  src_port = omega arith;
  dst_port = omega arith;
  pkt_size = omega arith;
  tcp_flags = omega arith;
  proto = omega arith;
  direction = omega arith;
  action = omega arith;
  ct_state = omega arith;
}

decode_log_event-write_wire_example :
    decode_log_event (write_wire denied ++ 0 ∷ []) ≡ ok (written denied)
decode_log_event-write_wire_example = decode_log_event-write_wire denied (0 ∷ []) denied-Fits

abbrev flow : FlowKey
flow = record {
  src_ip = 10 ∷ 0 ∷ 0 ∷ 1 ∷ [];
  dst_ip = 10 ∷ 0 ∷ 0 ∷ 2 ∷ [];
  src_port = 40000;
  dst_port = 443;
  proto = 2;
}

abbrev closed_flow : Table
closed_flow =
    (
      record { src_ip = 16777226; dst_ip = 33554442; src_port = 40000; dst_port = 443; proto = 2 },
      record {
        last_seen_ns = 5;
        established_ns = 1;
        packets_fwd = 3;
        bytes_fwd = 180;
        packets_rev = 2;
        bytes_rev = 120;
        state = 3;
        tcp_state = 6;
      },
    )
    ∷ []

abbrev collector : FlowEventCollector
collector = scan 1 true (some closed_flow) (new_flow_event_collector 0)

find_flow-scan_example :
    find_flow flow (scan 2 true (some closed_flow) collector).tracked
    ≡ tracked_after 2 (find_flow flow collector.tracked) (last_entry flow closed_flow)
find_flow-scan_example = find_flow-scan flow 2 true closed_flow collector

abbrev queue : Queue ℕ
queue = record { channel = 1 ∷ 2 ∷ 3 ∷ []; batch = []; flushed = []; dropped = [] }

abbrev wakes : List (WorkerWake × Bool)
wakes = (row_received, true) ∷ (row_received, true) ∷ (tick, false) ∷ (cancelled, true) ∷ []

run_worker-IsRun_example : IsRun queue (run_worker batch_worker wakes queue)
run_worker-IsRun_example = run_worker-IsRun wakes queue (omega arith)
