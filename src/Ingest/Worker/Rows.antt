-- ===== src/Ingest/Worker/Rows.antt =====
-- What a worker does with the rows of its channel.
use mathlib.Core.List.{append-nil, append_assoc}
use qf.Common.{
  ◌≤◌, ◌<◌, ◌≡◌, refl, ◌∙◌, ap, sym, Bool, List, [], ◌∷◌, ◌++◌, length, length-append, leb, ◌==◌,
  Bool-cases, inl, inr, arith,
}
use qf.Ingest.Worker.{
  Queue, WorkerWake, row_received, tick, cancelled, max_batch, flush, take_row, batch_worker,
  run_worker,
}

module _ {Row : Type 0} where
  abbrev pub batches : List (List Row × Bool) → List Row
  batches [] = []
  batches ((b, insert_ok) ∷ bs) = b ++ batches bs

  -- The rows that have come into the channel, in order, also those of batches whose insert failed.
  abbrev pub rows_of : Queue Row → List Row
  rows_of q = batches q.flushed ++ (q.batch ++ q.channel)

  -- What a run of a worker keeps: the rows, in their order, those that did not fit, and a bound on
  -- the batch.
  pub record IsRun (q q' : Queue Row) : Type 0 where
    pub rows : rows_of q' ≡ rows_of q
    pub dropped : q'.dropped ≡ q.dropped
    pub bounded : length q'.batch < max_batch
    pub shorter : length q'.channel ≤ length q.channel

  batches-append :
      (bs : List (List Row × Bool)) (b : List Row) (insert_ok : Bool)
      → batches (bs ++ (b, insert_ok) ∷ []) ≡ batches bs ++ b
  batches-append [] b insert_ok = append-nil b
  batches-append ((c, c_ok) ∷ bs) b insert_ok =
      ap (◌++◌ c) (batches-append bs b insert_ok) ∙ sym (append_assoc c (batches bs) b)

  flush-IsRun :
      (insert_ok : Bool) (q : Queue Row) → length q.batch ≤ max_batch → IsRun q (flush insert_ok q)
  unfolding flush
  flush-IsRun insert_ok q room = elim (Bool-cases (length q.batch == 0)) [
    | inl p ↦
        rw p (record { rows = refl; dropped = refl; bounded = ground arith; shorter = omega arith })
    | inr p ↦ rw p (record {
      rows =
          ap (λ (xs : List Row). xs ++ q.channel) (batches-append q.flushed q.batch insert_ok)
          ∙ append_assoc (batches q.flushed) q.batch q.channel;
      dropped = refl;
      bounded = omega arith;
      shorter = omega arith;
    })
  ]

  IsRun-after :
      (q q' q'' : Queue Row)
      → rows_of q' ≡ rows_of q
      → q'.dropped ≡ q.dropped
      → length q'.channel ≤ length q.channel
      → IsRun q' q''
      → IsRun q q''
  IsRun-after q q' q'' rows dropped shorter r = record {
    rows = r.rows ∙ rows;
    dropped = r.dropped ∙ dropped;
    bounded = r.bounded;
    shorter = let le = r.shorter in omega arith;
  }

  IsRun-refl : (q : Queue Row) → length q.batch < max_batch → IsRun q q
  IsRun-refl q room = record { rows = refl; dropped = refl; bounded = room; shorter = omega arith }

  take_row-IsRun :
      (insert_ok : Bool) (ps : List Row) (q : Queue Row)
      → q.channel ≡ ps
      → length q.batch < max_batch
      → IsRun q (take_row insert_ok ps q)
  take_row-IsRun insert_ok [] q p room = IsRun-refl q room
  take_row-IsRun insert_ok (x ∷ ps) q p room =
      let q' : Queue Row = record q { channel = ps; batch = q.batch ++ x ∷ [] } in
      let size = length-append q.batch (x ∷ []) in
      let all : rows_of q' ≡ rows_of q =
        ap (◌++◌ (batches q.flushed)) (append_assoc q.batch (x ∷ []) ps ∙ rw p refl) in
      let popped : length ps ≤ length q.channel = rw p (omega arith) in
      IsRun-after q q' _ all refl popped (elim (Bool-cases (leb max_batch (length q'.batch))) [
        | inl e ↦ rw e (flush-IsRun insert_ok q' (omega (arith, size)))
        | inr e ↦ rw e (IsRun-refl q' (ground (arith, e)))
      ])

  -- One step of a worker keeps this too. The batch stays below 2000 rows if it was.
  pub batch_worker-IsRun :
      (insert_ok : Bool) (w : WorkerWake) (q : Queue Row)
      → length q.batch < max_batch
      → IsRun q (batch_worker insert_ok w q).0
  unfolding batch_worker
  batch_worker-IsRun insert_ok row_received q room = take_row-IsRun insert_ok q.channel q refl room
  batch_worker-IsRun insert_ok tick q room = flush-IsRun insert_ok q (omega arith)
  batch_worker-IsRun insert_ok cancelled q room = flush-IsRun insert_ok q (omega arith)

  -- Over any run of a worker, from a batch of fewer than 2000 rows: the rows that it has handed to
  -- the database, those of its batch and those of the channel are together the same rows in the
  -- same order as before, each once. A batch that the database does not take counts as handed over
  -- too: its rows are not stored, and they are not tried again. The batch that the run ends with has
  -- fewer than 2000 rows, and no row is dropped from the channel.
  pub run_worker-IsRun :
      (ws : List (WorkerWake × Bool)) (q : Queue Row)
      → length q.batch < max_batch
      → IsRun q (run_worker batch_worker ws q)
  unfolding run_worker
  run_worker-IsRun [] q room = IsRun-refl q room
  run_worker-IsRun ((w, insert_ok) ∷ ws) q room =
      let (q', goes_on) = batch_worker insert_ok w q in
      let one : IsRun q q' = batch_worker-IsRun insert_ok w q room in
      let rest = run_worker-IsRun ws q' one.bounded in
      elim (Bool-cases (batch_worker insert_ok w q).1) [
        | inl e ↦ rw e (IsRun-after q q' _ one.rows one.dropped one.shorter rest)
        | inr e ↦ rw e one
      ]
