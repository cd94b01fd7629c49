-- ===== src/Telemetry/Batcher/Conservation.antt =====
-- No event is lost on the way but where both the stream and the disk refuse it.
use qf.Common.{
  ℕ, ◌+◌, ◌%◌, ◌≡◌, refl, Bool, true, false, ◌&&◌, ◌||◌, List, [], ◌∷◌, ◌++◌, length, leb, ◌==◌,
  inl, inr, Bool-cases, length-append, arith,
}
use qf.Telemetry.Batcher.{LogEvents, EventBatcher, Wake, flush, step, or_failed}

module _ {Ev : Type 0} where
  unfoldable pub event_count : List (LogEvents Ev) → ℕ
  event_count [] = 0
  event_count (m ∷ ms) = length m.events + event_count ms

  event_count-append :
      (ms : List (LogEvents Ev)) (m : LogEvents Ev)
      → event_count (ms ++ m ∷ []) ≡ event_count ms + length m.events
  unfolding event_count
  event_count-append [] m = omega arith
  event_count-append (n ∷ ms) m = omega (arith, event_count-append ms m)

  -- The events that the batcher has taken in.
  abbrev pub taken : EventBatcher Ev → ℕ
  taken b = event_count b.sent + event_count b.on_disk + event_count b.lost + length b.batch

  abbrev pub arrivals : Wake Ev → ℕ
  arrivals (Wake.event e) = 1
  arrivals Wake.reader_closed = 0
  arrivals Wake.reader_failed = 0
  arrivals Wake.timer = 0
  arrivals Wake.cancelled = 0

  -- `more` events came in, and none was lost where the stream or the disk took the message.
  pub record IsConserving (send_ok disk_ok : Bool) (more : ℕ) (b b' : EventBatcher Ev)
      : Type 0 where
    pub as_many : taken b' ≡ taken b + more
    pub kept : (send_ok || (b.has_disk_buf && disk_ok)) ≡ true → b'.lost ≡ b.lost
    pub straight : send_ok ≡ true → b'.on_disk ≡ b.on_disk

  nil_of_length : (es : List Ev) → (length es == 0) ≡ true → es ≡ []
  nil_of_length [] h = refl
  nil_of_length (e ∷ es) h = ground (arith, h)

  flush-batch :
      (send_ok disk_ok : Bool) (b : EventBatcher Ev) → (flush send_ok disk_ok b).0.batch ≡ []
  unfolding flush
  flush-batch send_ok disk_ok b = elim (Bool-cases (length b.batch == 0)) [
    | inl e ↦ rw (e, nil_of_length b.batch e)
    | inr e ↦ ground arith
  ]

  flush-IsConserving :
      (send_ok disk_ok : Bool) (b : EventBatcher Ev)
      → IsConserving send_ok disk_ok 0 b (flush send_ok disk_ok b).0
  unfolding flush
  flush-IsConserving send_ok disk_ok b =
      let msg : LogEvents Ev = record { events = b.batch; suppressed_count = b.suppressed } in
      record {
        as_many = ground (
          arith,
          event_count-append b.sent msg,
          event_count-append b.on_disk msg,
          event_count-append b.lost msg,
        );
        kept = λ h. ground arith;
        straight = λ h. ground arith;
      }

  or_failed_fst : (x : EventBatcher Ev × Bool) → (or_failed x).0 ≡ x.0
  or_failed_fst (b, true) = refl
  or_failed_fst (b, false) = refl

  flush_event-IsConserving :
      (e : Ev) (send_ok disk_ok : Bool) (b : EventBatcher Ev)
      → IsConserving send_ok disk_ok 1 b
          (flush send_ok disk_ok (record b { batch = b.batch ++ e ∷ [] })).0
  flush_event-IsConserving e send_ok disk_ok b =
      let r = flush-IsConserving send_ok disk_ok (record b { batch = b.batch ++ e ∷ [] }) in
      record {
        as_many = omega (arith, r.as_many, length-append b.batch (e ∷ []));
        kept = r.kept;
        straight = r.straight;
      }

  -- Each step of Run accounts for every event: what was sent, buffered on disk, lost or is in the
  -- batch grows by one event where one arrived and by none otherwise. Nothing is lost where the
  -- stream or the disk buffer takes the message, and nothing is buffered where the stream does.
  pub step-IsConserving :
      (w : Wake Ev) (send_ok disk_ok : Bool) (b : EventBatcher Ev)
      → IsConserving send_ok disk_ok (arrivals w) b (step w send_ok disk_ok b).0
  unfolding step
  step-IsConserving (Wake.event e) send_ok disk_ok b =
      elim (Bool-cases (leb b.batch_size (length (b.batch ++ e ∷ []) % 4294967296))) [
        | inl p ↦
            rw (p, or_failed_fst (flush send_ok disk_ok (record b { batch = b.batch ++ e ∷ [] })))
              (flush_event-IsConserving e send_ok disk_ok b)
        | inr p ↦ rw p (record {
          as_many = omega (arith, length-append b.batch (e ∷ []));
          kept = λ h. refl;
          straight = λ h. refl;
        })
      ]
  step-IsConserving Wake.reader_closed send_ok disk_ok b = flush-IsConserving send_ok disk_ok b
  step-IsConserving Wake.reader_failed send_ok disk_ok b = flush-IsConserving send_ok disk_ok b
  step-IsConserving Wake.timer send_ok disk_ok b =
      rw (or_failed_fst (flush send_ok disk_ok b)) (flush-IsConserving send_ok disk_ok b)
  step-IsConserving Wake.cancelled send_ok disk_ok b = flush-IsConserving send_ok disk_ok b
