-- ===== src/Telemetry/Senders.antt =====
-- The periodic senders of a session and their settings: agent/internal/grpcclient/heartbeat.go,
-- counterpoller.go and configupdate.go. Their timers are left out, and so is the agent's health.
use qf.Common.{
  ℕ, Bool, true, false, Option, none, some, List, [], ◌∷◌, ◌++◌, Text, ◌==◌, if◌then◌else◌,
}
use qf.Common.Int.{ℤ}
use qf.Uuid.{uuid_bytes_to_string}
use qf.Loader.{BpfObjects, Kernel, RuleSpec}
use qf.Loader.Counters.{RuleCounters}
use qf.Handler.{ApplyResult}
use qf.Session.{ConfigUpdate}
use qf.Session.Agent.{generation_of}
use qf.Telemetry.Batcher.{EventBatcher, set_batch_size, set_max_age_ms}
use qf.Telemetry.Flows.{FlowEventCollector, set_enabled}

abbrev pub default_heartbeat_ms : ℕ
default_heartbeat_ms = 30000

abbrev pub default_counter_interval_ms : ℕ
default_counter_interval_ms = 60000

-- The sender with the generations that it has reported.
pub record HeartbeatSender : Type 0 where
  pub interval_ms : ℕ
  pub sent : List ℤ

unfoldable pub new_heartbeat_sender : ℕ → HeartbeatSender
new_heartbeat_sender interval_ms = record {
  interval_ms = if interval_ms == 0 then default_heartbeat_ms else interval_ms;
  sent = [];
}

unfoldable pub set_heartbeat_ms : ℕ → HeartbeatSender → HeartbeatSender
set_heartbeat_ms ms h = if ms == 0 then h else record h { interval_ms = ms }

-- send, and whether the stream took it.
unfoldable pub send_heartbeat : Bool → Option ApplyResult → HeartbeatSender → HeartbeatSender × Bool
send_heartbeat send_ok current h =
    if send_ok then (record h { sent = h.sent ++ generation_of current ∷ [] }, true) else (h, false)

pub record RuleCounter : Type 0 where
  pub rule_id : Text
  pub packets : ℕ
  pub bytes : ℕ

-- The poller with the updates that it has sent.
pub record CounterPoller : Type 0 where
  pub interval_ms : ℕ
  pub sent : List (List RuleCounter)

unfoldable pub new_counter_poller : ℕ → CounterPoller
new_counter_poller interval_ms = record {
  interval_ms = if interval_ms == 0 then default_counter_interval_ms else interval_ms;
  sent = [];
}

unfoldable pub set_counter_interval_ms : ℕ → CounterPoller → CounterPoller
set_counter_interval_ms ms p = if ms == 0 then p else record p { interval_ms = ms }

abbrev rules_of : Option ApplyResult → List RuleSpec
rules_of none = []
rules_of (some ar) = ar.rules

-- The counters of the slots, with the ids of the rules in the same places.
unfoldable pub rule_counters : List RuleSpec → List RuleCounters → List RuleCounter
unfolding uuid_bytes_to_string
rule_counters rules [] = []
rule_counters [] (c ∷ cs) =
    record { rule_id = []; packets = c.packets; bytes = c.bytes } ∷ rule_counters [] cs
rule_counters (r ∷ rs) (c ∷ cs) =
    record { rule_id = uuid_bytes_to_string r.id; packets = c.packets; bytes = c.bytes }
    ∷ rule_counters rs cs

-- poll, and whether the stream took it; a read that fails skips the cycle.
unfoldable pub poll :
    Bool → Option (List RuleCounters) → Option ApplyResult → CounterPoller → CounterPoller × Bool
unfolding rule_counters
poll send_ok none current p = (p, true)
poll send_ok (some counters) current p =
    if send_ok
    then (record p { sent = p.sent ++ rule_counters (rules_of current) counters ∷ [] }, true)
    else (p, false)

-- The components that a ConfigUpdate sets; each may be absent.
pub record Senders (Ev : Type 0) : Type 0 where
  pub hb : Option HeartbeatSender
  pub eb : Option (EventBatcher Ev)
  pub cp : Option CounterPoller
  pub fc : Option FlowEventCollector

abbrev set_flows :
    Kernel → Bool → BpfObjects → Option FlowEventCollector → BpfObjects × Option FlowEventCollector
set_flows k v m none = (m, none)
set_flows k v m (some fc) = let (m', fc') = set_enabled k v m fc in (m', some fc')

abbrev change : {A : Type 0} → (A → A) → Option A → Option A
change f none = none
change f (some a) = some (f a)

module _ {Ev : Type 0} (k : Kernel) where
  -- A setter ignores zero, as the tests of the source do.
  unfoldable pub apply_config_update :
      Option ConfigUpdate → BpfObjects → Senders Ev → BpfObjects × Senders Ev
  unfolding set_heartbeat_ms set_batch_size set_max_age_ms set_counter_interval_ms set_enabled
  apply_config_update none m s = (m, s)
  apply_config_update (some cfg) m s =
      let (m', fc') = set_flows k cfg.flow_events_enabled m s.fc in
      (
        m',
        record {
          hb = change (set_heartbeat_ms cfg.heartbeat_interval_ms) s.hb;
          eb =
              change
                (λ eb.
                  set_max_age_ms cfg.event_batch_max_age_ms
                    (set_batch_size cfg.event_batch_size eb))
                s.eb;
          cp = change (set_counter_interval_ms cfg.counter_report_interval_ms) s.cp;
          fc = fc';
        },
      )
