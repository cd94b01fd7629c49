-- ===== src/Session/Service.antt =====
-- The control plane's end: Stream and its handlers, cp/internal/agentsrv/session.go and handlers.go,
-- for one host. Its row in the database is part of the state; the queries' results are parameters.
use qf.Common.{
  ℕ, ◌-◌, ◌%◌, ◌^◌, Bool, true, not, Option, none, some, List, [], ◌∷◌, ◌++◌, Text, Result, ok, err,
  ltb, if◌then◌else◌,
}
use qf.Common.Int.{ℤ, pos, negsuc, ltb_ℤ}
use qf.Policy.{Uuid, Codec}
use qf.Handler.{BundleApplied}
use qf.Server.Registry.{DisconnectSignal, StreamRegistry, register, deregister}
use qf.Session.{
  SignedBundle, Welcome, ConfigUpdate, ServerMessage, AgentMessage, welcome, policy_bundle,
  disconnect_request, hello, heartbeat, bundle_ack, bundle_applied, log_events, flow_events,
  counter_update, system_event, other_message,
}

pub record PeerIdentity : Type 0 where
  pub host_id : Text
  pub tenant_id : Text

-- The columns of the host's row that a session reads or writes.
pub record HostRow : Type 0 where
  pub current_generation : ℤ
  pub desired_generation : ℤ
  pub flow_events_enabled : Bool
  pub connected : Bool

-- `int32(x)`: the low 32 bits, signed.
unfoldable pub to_int32 : ℤ → ℤ
to_int32 (pos n) = let m = n % 2 ^ 32 in if ltb m (2 ^ 31) then pos m else negsuc (2 ^ 32 - 1 - m)
to_int32 (negsuc n) =
    let m = n % 2 ^ 32 in if ltb m (2 ^ 31) then negsuc m else pos (2 ^ 32 - 1 - m)

-- The configuration that Welcome carries.
abbrev pub welcome_config : HostRow → ConfigUpdate
welcome_config h = record {
  heartbeat_interval_ms = 30000;
  counter_report_interval_ms = 60000;
  event_batch_size = 100;
  event_batch_max_age_ms = 5000;
  default_log_rate_limit_per_sec = 100;
  flow_events_enabled = h.flow_events_enabled;
}

abbrev pub welcome_of : HostRow → Welcome
welcome_of h = record {
  accepted = true;
  reject_reason = [];
  server_generation = h.current_generation;
  config = welcome_config h;
}

-- The bundle for an agent that is behind the desired generation. `provided` is what GetBundle
-- returns; none where it fails, where there is no bundle and where there is no provider.
unfoldable pub catch_up : ℤ → HostRow → Option SignedBundle → List ServerMessage
catch_up generation h none = []
catch_up generation h (some b) =
    if ltb_ℤ generation h.desired_generation then policy_bundle b ∷ [] else []

-- What is sent before the receive loop, where the stream takes every message.
unfoldable pub opening : ℤ → HostRow → Option SignedBundle → List ServerMessage
unfolding catch_up
opening generation h provided = welcome (welcome_of h) ∷ catch_up generation h provided

pub data SessionError : Type 0 where
  unauthenticated receive_failed not_hello invalid_host_id invalid_tenant_id : SessionError
  host_not_found send_failed parse_identity update_generation : SessionError

-- The state that the handlers change: the row, and what the ingester was given.
pub record Desk : Type 0 where
  pub row : HostRow
  pub ingested : List AgentMessage

-- parseUUIDs.
unfoldable pub parse_uuids : Codec → PeerIdentity → Option (Uuid × Uuid)
parse_uuids codec id = both (codec.scan_uuid id.host_id) (codec.scan_uuid id.tenant_id)
  where
    both : Option Uuid → Option Uuid → Option (Uuid × Uuid)
    both none t = none
    both (some h) none = none
    both (some h) (some t) = some (h, t)

module _ (codec : Codec) (id : PeerIdentity) (update_ok : Bool) where
  abbrev set_generation : ℤ → Desk → Desk
  set_generation g d = record d { row = record d.row { current_generation = to_int32 g } }

  -- A failing update does not end the session.
  abbrev handle_heartbeat : ℤ → Option (Uuid × Uuid) → Desk → Desk × Result SessionError (Unit {0})
  handle_heartbeat g none d = (d, err parse_identity)
  handle_heartbeat g (some ids) d = if update_ok then (set_generation g d, ok tt) else (d, ok tt)

  -- A failing update does.
  abbrev handle_bundle_applied :
      BundleApplied → Option (Uuid × Uuid) → Desk → Desk × Result SessionError (Unit {0})
  handle_bundle_applied b none d = if b.success then (d, err parse_identity) else (d, ok tt)
  handle_bundle_applied b (some ids) d =
      if b.success
      then (if update_ok
          then (set_generation b.generation d, ok tt)
          else (d, err update_generation))
      else (d, ok tt)

  abbrev ingest : AgentMessage → Option (Uuid × Uuid) → Desk → Desk × Result SessionError (Unit {0})
  ingest m none d = (d, ok tt)
  ingest m (some ids) d = (record d { ingested = d.ingested ++ m ∷ [] }, ok tt)

  unfoldable pub handle_message : AgentMessage → Desk → Desk × Result SessionError (Unit {0})
  unfolding to_int32 parse_uuids
  handle_message (heartbeat g) d = handle_heartbeat g (parse_uuids codec id) d
  handle_message (bundle_ack a) d = (d, ok tt)
  handle_message (bundle_applied b) d = handle_bundle_applied b (parse_uuids codec id) d
  handle_message (log_events n) d = ingest (log_events n) (parse_uuids codec id) d
  handle_message (flow_events n) d = ingest (flow_events n) (parse_uuids codec id) d
  handle_message (counter_update n) d = ingest (counter_update n) (parse_uuids codec id) d
  handle_message (system_event n) d = ingest (system_event n) (parse_uuids codec id) d
  handle_message (hello g) d = (d, ok tt)
  handle_message other_message d = (d, ok tt)

-- UpdateHostConnected, which is taken to succeed; Stream goes on in any case.
abbrev pub connect : Desk → Desk
connect d = record d { row = record d.row { connected = true } }

-- What the select of the receive loop sees; a cancelled stream has ended too.
pub data StreamEvent : Type 0 where
  received : AgentMessage → StreamEvent
  end_of_stream receive_error : StreamEvent
  disconnect_signal : DisconnectSignal → StreamEvent

pub data Ending : Type 0 where
  running closed : Ending
  failed : SessionError → Ending

module _ (codec : Codec) (id : PeerIdentity) (update_ok : Bool) where
  -- The receive loop on the wakes that come; the messages that it sends are the disconnects.
  unfoldable pub serve : List StreamEvent → Desk → Desk × List ServerMessage × Ending
  unfolding handle_message
  serve [] d = (d, [], running)
  serve (received m ∷ ws) d =
      let (d', r) = handle_message codec id update_ok m d in
      let rest = serve ws d' in elim r [ ok _ ↦ rest | err e ↦ (d', [], failed e) ]
  serve (end_of_stream ∷ ws) d = (d, [], closed)
  serve (receive_error ∷ ws) d = (d, [], failed receive_failed)
  serve (disconnect_signal s ∷ ws) d = (d, disconnect_request s ∷ [], closed)

  abbrev with_opening :
      List ServerMessage → Desk × List ServerMessage × Ending → Desk × List ServerMessage × Ending
  with_opening ms (d, sent, e) = (d, ms ++ sent, e)

  -- Stream from the registration on. `found` is whether GetHost finds the row; the stream takes
  -- `welcome_ok` and `bundle_ok`.
  unfoldable pub session_body :
      ℤ
      → Bool
      → Option SignedBundle
      → Bool
      → Bool
      → List StreamEvent
      → Desk
      → Desk × List ServerMessage × Ending
  unfolding serve opening
  session_body generation found provided welcome_ok bundle_ok ws d =
      let d' = connect d in
      let sent = opening generation d'.row provided in
      let rest = with_opening sent (serve ws d') in
      elim (codec.scan_uuid id.host_id) [
        | none ↦ (d, [], failed invalid_host_id)
        | some h ↦ elim (codec.scan_uuid id.tenant_id) [
          | none ↦ (d, [], failed invalid_tenant_id)
          | some t ↦
              if not found
              then (d, [], failed host_not_found)
              else if not welcome_ok
              then (d', [], failed send_failed)
              else elim (catch_up generation d'.row provided) [
                | [] ↦ rest
                | b ∷ bs ↦
                    if bundle_ok
                    then rest
                    else (d', welcome (welcome_of d'.row) ∷ [], failed send_failed)
              ]
        ]
      ]

-- The first message of the stream.
pub data First : Type 0 where
  first_message : AgentMessage → First
  first_end first_error : First

-- Stream. The stream is registered once Hello is there, and deregistered on every way out from then
-- on, after the session; a stream that is not ended yet is still registered.
abbrev pub leave : {Bundle : Type 0} → Text → StreamRegistry Bundle → Ending → StreamRegistry Bundle
leave host_id r running = r
leave host_id r closed = deregister host_id r
leave host_id r (failed e) = deregister host_id r

module _ {Bundle : Type 0} (stream_id : ℕ)
    (session : PeerIdentity → ℤ → Desk → Desk × List ServerMessage × Ending) where
  abbrev pub after_hello :
      PeerIdentity
      → AgentMessage
      → StreamRegistry Bundle
      → Desk
      → StreamRegistry Bundle × Desk × List ServerMessage × Ending
  after_hello id (hello g) r d =
      let (d', sent, e) = session id g d in
      (leave id.host_id (register id.host_id stream_id r) e, d', sent, e)
  after_hello id (heartbeat g) r d = (r, d, [], failed not_hello)
  after_hello id (bundle_ack a) r d = (r, d, [], failed not_hello)
  after_hello id (bundle_applied b) r d = (r, d, [], failed not_hello)
  after_hello id (log_events n) r d = (r, d, [], failed not_hello)
  after_hello id (flow_events n) r d = (r, d, [], failed not_hello)
  after_hello id (counter_update n) r d = (r, d, [], failed not_hello)
  after_hello id (system_event n) r d = (r, d, [], failed not_hello)
  after_hello id other_message r d = (r, d, [], failed not_hello)

  unfoldable pub stream :
      Option PeerIdentity
      → First
      → StreamRegistry Bundle
      → Desk
      → StreamRegistry Bundle × Desk × List ServerMessage × Ending
  unfolding register deregister
  stream none first r d = (r, d, [], failed unauthenticated)
  stream (some id) first_end r d = (r, d, [], closed)
  stream (some id) first_error r d = (r, d, [], failed receive_failed)
  stream (some id) (first_message m) r d = after_hello id m r d
