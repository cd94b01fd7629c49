-- ===== src/Ingest/Worker.antt =====
-- cp/internal/ingest/ingester.go: the bounded channel and the worker of one kind of rows. The
-- select of a worker is a step for each thing that may happen next; `insert_ok` says whether the
-- database takes the batch.
pub mod Rows
use qf.Common.{ℕ, Bool, true, false, List, [], ◌∷◌, ◌++◌, length, ltb, leb, ◌==◌, if◌then◌else◌}

abbrev pub max_batch : ℕ
max_batch = 2000

abbrev pub chan_buf : ℕ
chan_buf = 10000

abbrev pub chan_buf_small : ℕ
chan_buf_small = 1000

module _ (Row : Type 0) where
  -- A channel with its worker: the batches that were inserted or that failed, in order, and the
  -- rows that did not fit into the channel.
  pub record Queue : Type 0 where
    pub channel : List Row
    pub batch : List Row
    pub flushed : List (List Row × Bool)
    pub dropped : List Row

-- What the select of a worker sees.
pub data WorkerWake : Type 0 where
  row_received tick cancelled : WorkerWake

module _ {Row : Type 0} where
  -- A send that does not block.
  unfoldable pub enqueue : ℕ → Row → Queue Row → Queue Row
  enqueue size p q =
      if ltb (length q.channel) size
      then record q { channel = q.channel ++ p ∷ [] }
      else record q { dropped = q.dropped ++ p ∷ [] }

  unfoldable pub enqueue_all : ℕ → List Row → Queue Row → Queue Row
  unfolding enqueue
  enqueue_all size [] q = q
  enqueue_all size (p ∷ ps) q = enqueue_all size ps (enqueue size p q)

  unfoldable pub flush : Bool → Queue Row → Queue Row
  flush insert_ok q =
      if length q.batch == 0
      then q
      else record q { batch = []; flushed = q.flushed ++ (q.batch, insert_ok) ∷ [] }

  -- A row comes in, and a full batch is flushed.
  abbrev pub take_row : Bool → List Row → Queue Row → Queue Row
  take_row insert_ok [] q = q
  take_row insert_ok (p ∷ ps) q =
      let q' : Queue Row = record q { channel = ps; batch = q.batch ++ p ∷ [] } in
      if leb max_batch (length q'.batch) then flush insert_ok q' else q'

  -- logWorker, flowWorker and counterWorker; true where the worker goes on. Their channels are
  -- never closed.
  unfoldable pub batch_worker : Bool → WorkerWake → Queue Row → Queue Row × Bool
  unfolding flush
  batch_worker insert_ok row_received q = (take_row insert_ok q.channel q, true)
  batch_worker insert_ok tick q = (flush insert_ok q, true)
  batch_worker insert_ok cancelled q = (flush insert_ok q, false)

  abbrev pub insert_row : Bool → List Row → Queue Row → Queue Row
  insert_row insert_ok [] q = q
  insert_row insert_ok (p ∷ ps) q = record q {
    channel = ps;
    flushed = q.flushed ++ (p ∷ [], insert_ok) ∷ [];
  }

  -- systemWorker: rows are inserted one by one.
  unfoldable pub system_worker : Bool → WorkerWake → Queue Row → Queue Row × Bool
  system_worker insert_ok row_received q = (insert_row insert_ok q.channel q, true)
  system_worker insert_ok tick q = (q, true)
  system_worker insert_ok cancelled q = (q, false)

  -- A run of a worker, until it ends.
  unfoldable pub run_worker :
      (Bool → WorkerWake → Queue Row → Queue Row × Bool)
      → List (WorkerWake × Bool)
      → Queue Row
      → Queue Row
  run_worker worker [] q = q
  run_worker worker ((w, insert_ok) ∷ ws) q =
      let (q', goes_on) = worker insert_ok w q in
      let rest = run_worker worker ws q' in if goes_on then rest else q'
