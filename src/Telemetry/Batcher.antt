-- ===== src/Telemetry/Batcher.antt =====
-- agent/internal/grpcclient/eventbatcher.go: log events are collected and sent in batches. The
-- select of Run is a step for each thing that may happen next; a flush consults the environment:
-- whether the stream takes the message, and whether the disk buffer does.
pub mod Conservation
use qf.Common.{
  ℕ, ◌%◌, Bool, true, false, ◌&&◌, Option, none, some, List, [], ◌∷◌, ◌++◌, length, ltb, leb, ◌==◌,
  if◌then◌else◌,
}

abbrev pub default_batch_size : ℕ
default_batch_size = 100

abbrev pub default_max_age_ms : ℕ
default_max_age_ms = 5000

module _ (Ev : Type 0) where
  -- A LogEvents message.
  pub record LogEvents : Type 0 where
    pub events : List Ev
    pub suppressed_count : ℕ

  -- The batcher with what it has sent, buffered and lost; `suppressed` is the datapath's counter.
  pub record EventBatcher : Type 0 where
    pub batch : List Ev
    pub batch_size : ℕ
    pub max_age_ms : ℕ
    pub has_disk_buf : Bool
    pub suppressed : ℕ
    pub sent : List LogEvents
    pub on_disk : List LogEvents
    pub lost : List LogEvents

  -- What the select of Run sees: an event, the end or an error of the reader, the timer, the end
  -- of the context.
  pub data Wake : Type 0 where
    event : Ev → Wake
    reader_closed reader_failed timer cancelled : Wake

-- Run goes on, or returns nil or an error.
pub data Status : Type 0 where
  running finished send_failed read_failed : Status

module _ {Ev : Type 0} where
  unfoldable pub set_batch_size : ℕ → EventBatcher Ev → EventBatcher Ev
  set_batch_size n b = if n == 0 then b else record b { batch_size = n }

  unfoldable pub set_max_age_ms : ℕ → EventBatcher Ev → EventBatcher Ev
  set_max_age_ms ms b = if ms == 0 then b else record b { max_age_ms = ms }

  -- NewEventBatcher: zero stands for the defaults.
  unfoldable pub new_event_batcher : ℕ → ℕ → Bool → EventBatcher Ev
  new_event_batcher batch_size max_age_ms has_disk_buf = record {
    batch = [];
    batch_size = if batch_size == 0 then default_batch_size else batch_size;
    max_age_ms = if max_age_ms == 0 then default_max_age_ms else max_age_ms;
    has_disk_buf = has_disk_buf;
    suppressed = 0;
    sent = [];
    on_disk = [];
    lost = [];
  }

  -- flush: the batch is emptied whether or not the message went out.
  unfoldable pub flush : Bool → Bool → EventBatcher Ev → EventBatcher Ev × Bool
  flush send_ok disk_ok b =
      let msg : LogEvents Ev = record { events = b.batch; suppressed_count = b.suppressed } in
      let b' : EventBatcher Ev = record b { batch = []; suppressed = 0 } in
      if length b.batch == 0
      then (b, true)
      else if send_ok
      then (record b' { sent = b.sent ++ msg ∷ [] }, true)
      else if b.has_disk_buf && disk_ok
      then (record b' { on_disk = b.on_disk ++ msg ∷ [] }, false)
      else (record b' { lost = b.lost ++ msg ∷ [] }, false)

  abbrev pub or_failed : EventBatcher Ev × Bool → EventBatcher Ev × Status
  or_failed (b, true) = (b, running)
  or_failed (b, false) = (b, send_failed)

  unfoldable pub step : Wake Ev → Bool → Bool → EventBatcher Ev → EventBatcher Ev × Status
  unfolding flush
  step (event e) send_ok disk_ok b =
      let b' : EventBatcher Ev = record b { batch = b.batch ++ e ∷ [] } in
      if leb b.batch_size (length b'.batch % 4294967296)
      then or_failed (flush send_ok disk_ok b')
      else (b', running)
  step reader_closed send_ok disk_ok b = ((flush send_ok disk_ok b).0, finished)
  step reader_failed send_ok disk_ok b = ((flush send_ok disk_ok b).0, read_failed)
  step timer send_ok disk_ok b = or_failed (flush send_ok disk_ok b)
  step cancelled send_ok disk_ok b = ((flush send_ok disk_ok b).0, finished)
