-- ===== src/Ingest/Ingester.antt =====
-- The Ingester of cp/internal/ingest/ingester.go: messages are converted, queued and published.
-- The text of a published event (JSON and its time) is the parameter `event_text`.
use qf.Common.{ℕ, Option, none, some, List, [], ◌∷◌, ◌++◌, map, Text}
use qf.Policy.{Uuid, Codec}
use qf.Server.Hub.{Hub, publish}
use qf.Telemetry.Convert.{LogEvent}
use qf.Telemetry.Flows.{FlowEvent}
use qf.Telemetry.Senders.{RuleCounter}
use qf.Ingest.Worker.{Queue, chan_buf, chan_buf_small, enqueue, enqueue_all}
use qf.Ingest.Convert.{
  LogRow, FlowRow, CounterRow, SystemRow, SystemEvent, ForwarderEvent, proto_log_event_to_params,
  proto_flow_event_to_params, counter_rows, proto_system_event_to_params, proto_to_forwarder_event,
  uuid_bytes_to_str,
}

-- The queues, the hub if there is one, and what the forwarder has been given if there is one.
pub record Ingester (Message : Type 0) : Type 0 where
  pub log : Queue LogRow
  pub flow : Queue FlowRow
  pub counter : Queue CounterRow
  pub system : Queue SystemRow
  pub hub : Option (Hub Message)
  pub fwd : Option (List (List ForwarderEvent))

abbrev empty_queue : {Row : Type 0} → Queue Row
empty_queue = record { channel = []; batch = []; flushed = []; dropped = [] }

module _ {Message : Type 0} where
  unfoldable pub new_ingester : Option (Hub Message) → Ingester Message
  new_ingester hub = record {
    log = empty_queue;
    flow = empty_queue;
    counter = empty_queue;
    system = empty_queue;
    hub = hub;
    fwd = none;
  }

  unfoldable pub new_with_forwarder : Option (Hub Message) → Ingester Message
  unfolding new_ingester
  new_with_forwarder hub = record (new_ingester hub) { fwd = some [] }

  -- publishToHub; an event without a text is skipped.
  unfoldable pub publish_to_hub :
      (LogEvent → Option Message) → Text → List LogEvent → Hub Message → Hub Message
  unfolding publish
  publish_to_hub event_text host_id [] h = h
  publish_to_hub event_text host_id (ev ∷ evs) h =
      publish_to_hub event_text host_id evs
        (elim (event_text ev) [ none ↦ h | some m ↦ publish host_id m h ])

module _ {Message : Type 0} (codec : Codec) (now : ℕ) (tenant_id host_id : Option Uuid) where
  abbrev published :
      (LogEvent → Option Message) → List LogEvent → Option (Hub Message) → Option (Hub Message)
  published event_text evs none = none
  published event_text evs (some h) =
      some (publish_to_hub event_text (uuid_bytes_to_str host_id) evs h)

  -- With a forwarder, nothing is queued, whether or not it succeeds.
  unfoldable pub ingest_log_events :
      (LogEvent → Option Message) → List LogEvent → Ingester Message → Ingester Message
  unfolding publish_to_hub enqueue_all proto_log_event_to_params proto_to_forwarder_event
  ingest_log_events event_text evs ing =
      let ing' : Ingester Message = record ing { hub = published event_text evs ing.hub } in
      elim (ing.fwd) [
        | some batches ↦ record ing' {
          fwd =
              some (batches ++ map (proto_to_forwarder_event codec now tenant_id host_id) evs ∷ []);
        }
        | none ↦ record ing' {
          log =
              enqueue_all chan_buf (map (proto_log_event_to_params codec now tenant_id host_id) evs)
                ing.log;
        }
      ]

  unfoldable pub ingest_flow_events : List FlowEvent → Ingester Message → Ingester Message
  unfolding enqueue_all proto_flow_event_to_params
  ingest_flow_events flows ing = record ing {
    flow =
        enqueue_all chan_buf (map (proto_flow_event_to_params codec now tenant_id host_id) flows)
          ing.flow;
  }

  unfoldable pub ingest_counter_update :
      Option ℕ → List RuleCounter → Ingester Message → Ingester Message
  unfolding enqueue_all counter_rows
  ingest_counter_update ts counters ing = record ing {
    counter =
        enqueue_all chan_buf (counter_rows codec now tenant_id host_id ts counters) ing.counter;
  }

  unfoldable pub ingest_system_event : SystemEvent → Ingester Message → Ingester Message
  unfolding enqueue proto_system_event_to_params
  ingest_system_event ev ing = record ing {
    system =
        enqueue chan_buf_small (proto_system_event_to_params codec now tenant_id host_id ev)
          ing.system;
  }
