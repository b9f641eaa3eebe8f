-- ===== src/Generator/Engine/Pacing.antt =====
-- `run_step` and `_drain_inflight` of generator/src/loadgen.py: one function for each section of
-- the pacer between two points where another thread may run.
use analytics_testing.Base.{
  ℕ, ◌+◌, ◌-◌, ◌%◌, max, Bool, true, false, ◌&&◌, ◌||◌, Option, none, some, List, [], ◌∷◌, ◌++◌,
  length, ltb, ◌==◌, if◌then◌else◌,
}
use analytics_testing.Base.Int.{ℤ, pos}
use analytics_testing.Base.Float.{Float}
use analytics_testing.Generator.Metrics.{set_step, record_offered, record_stall}
use analytics_testing.Generator.Payload.{RequestTemplate, template_for}
use analytics_testing.Generator.Engine.State.{
  Step, StepResult, WorkItem, Pace, Engine, idle, pacing, resting, due, putting, enqueued, refused,
  settled, offered, draining, drained,
}

abbrev pub is_empty : List (Option WorkItem) → Bool
is_empty [] = true
is_empty (_ ∷ _) = false

abbrev pub is_zero : ℤ → Bool
is_zero (pos n) = n == 0
is_zero _ = false

-- `max(result.seq_start, self._next_seq - 1)`: with no sequence number given out Python's -1 and
-- the 0 of the natural numbers have the same maximum.
abbrev pub seq_end_of : ℕ → ℕ → ℕ
seq_end_of seq_start next_seq = max seq_start (next_seq - 1)

module _ {F : Type 0} ⦃fl : Float F⦄ where
  open fl use {lit, add, sub, mul, div, lt, le}

  -- `StepResult(...)` as `run_step` builds it.
  abbrev pub new_result : Step F → F → ℕ → StepResult F
  new_result step wall seq = record {
    index = step.index;
    target_rps = step.rps;
    duration_seconds = step.duration_seconds;
    started_at = wall;
    ended_at = lit 0 1;
    offered = 0;
    accepted = 0;
    rejected = 0;
    requests = 0;
    failures = 0;
    stalled_ms = lit 0 1;
    seq_start = seq;
    seq_end = 0;
    errors_by_code = [];
  }

  -- The start of `run_step`, at `wall` by the wall clock and `started` by the monotonic one. `none`
  -- is an exception: the division by a batch size of 0, or the `ValueError` of a rate that yields no
  -- work.
  unfoldable pub begin_step : Step F → F → F → Engine F → Option (Engine F)
  begin_step step wall started e =
      let batches_per_second = div step.rps (lit e.cfg.batch_size 1) in
      if e.cfg.batch_size == 0
      then none
      else if le batches_per_second (lit 0 1)
      then none
      else some (record e {
        step = some (new_result step wall e.next_seq);
        metrics = set_step step.index step.rps e.metrics;
        pacer = pacing (record {
          deadline = add started step.duration_seconds;
          interval = div (lit 1 1) batches_per_second;
          next_submit = started;
          variant = 0;
          now = started;
        });
      })

  -- `_next_seq += batch` and the item that holds the range; the probe is `template_for(0, 0)`.
  unfoldable pub reserve : Pace F → RequestTemplate F → Engine F → Engine F
  reserve p probe e = record e {
    next_seq = e.next_seq + e.cfg.batch_size;
    pacer =
        putting (record p { variant = (p.variant + 1) % e.factory.variants_per_worker })
          (record {
            seq_start = e.next_seq;
            record_count = probe.record_count;
            nbytes = probe.approx_bytes;
            variant = p.variant;
          });
  }

  -- `run_step` reads the probe before its loop; `none` is the `IndexError` that ends the step.
  abbrev pub reserve_probed : Option (RequestTemplate F) → Pace F → Engine F → Engine F
  reserve_probed none p e = record e { pacer = draining }
  reserve_probed (some probe) p e = reserve p probe e

  -- The head of the loop at the time `now`, up to the wait if there is one.
  unfoldable pub look : F → Pace F → Engine F → Engine F
  look now p e =
      let p' : Pace F = record p { now = now } in
      if e.stop
      then record e { pacer = draining }
      else if le p.deadline now
      then record e { pacer = draining }
      else if lt (lit 0 1) (sub p.next_submit now)
      then record e { pacer = resting p' }
      else record e { pacer = due p' }

  -- The end of the wait; `woken` is the answer of `_stop.wait`.
  unfoldable pub rest : Bool → Pace F → Engine F → Engine F
  rest woken p e =
      if woken
      then record e { pacer = draining }
      else if lt (lit 1 4) (sub p.next_submit p.now)
      then record e { pacer = pacing p }
      else record e { pacer = due p }

  -- The reservation under `_seq_lock`.
  unfoldable pub reserve_next : Pace F → Engine F → Engine F
  unfolding reserve
  reserve_next p e = reserve_probed (template_for e.factory 0 0) p e

  -- One round of the loop round `_queue.put`: the queue takes the item if it has room.
  unfoldable pub put : F → Pace F → WorkItem → Engine F → Engine F
  put now p item e =
      if e.stop || le p.deadline now
      then record e { pacer = refused item }
      else if ltb (length e.queue) (max 1 e.cfg.max_inflight)
      then record e { queue = e.queue ++ some item ∷ []; pacer = enqueued p item }
      else e

  -- `record_stall` and `result.stalled_ms`, if the pacer was blocked for over a millisecond.
  unfoldable pub note_stall : F → Engine F → Engine F
  note_stall stalled e =
      if lt (lit 1 1000) stalled
      then record e {
        metrics = record_stall stalled e.metrics;
        step = elim e.step [
          | none ↦ none
          | some r ↦ some (record r { stalled_ms = add r.stalled_ms (mul stalled (lit 1000 1)) })
        ];
      }
      else e

  -- The item was never put: its range is given back, and the loop ends.
  unfoldable pub give_back : F → WorkItem → Engine F → Engine F
  unfolding note_stall
  give_back stalled item e =
      let e' = note_stall stalled e in
      record e' {
        next_seq =
            if e.next_seq == item.seq_start + e.cfg.batch_size then item.seq_start else e.next_seq;
        pacer = draining;
      }

  unfoldable pub settle : F → Pace F → WorkItem → Engine F → Engine F
  unfolding note_stall
  settle stalled p item e = let e' = note_stall stalled e in record e' { pacer = settled p item }

  -- `metrics.record_offered`
  unfoldable pub offer : Pace F → WorkItem → Engine F → Engine F
  offer p item e = record e {
    metrics = record_offered item.record_count item.nbytes e.metrics;
    pacer = offered p item;
  }

  -- One interval on, and re-anchored when more than a second behind.
  unfoldable pub advance : Pace F → Pace F
  advance p =
      let next = add p.next_submit p.interval in
      record p { next_submit = if lt next (sub p.now (lit 1 1)) then p.now else next }

  -- `result.offered += ...`, the schedule, and the test on `_abort_reason`.
  unfoldable pub count_offer : Pace F → WorkItem → Engine F → Engine F
  unfolding advance
  count_offer p item e = record e {
    step = elim e.step [
      | none ↦ none
      | some r ↦ some (record r { offered = r.offered + item.record_count })
    ];
    pacer = elim e.abort_reason [ none ↦ pacing (advance p) | some _ ↦ draining ];
  }

  -- One look of `_drain_inflight`; `timed_out` says that its deadline has passed.
  unfoldable pub drain : Bool → Engine F → Engine F
  drain timed_out e =
      if timed_out || is_empty e.queue && is_zero e.metrics.inflight
      then record e { pacer = drained }
      else e

  -- The end of `run_step` at the time `wall`.
  unfoldable pub finish_step : F → Engine F → Engine F
  finish_step wall e = elim e.step [
    | none ↦ record e { pacer = idle }
    | some r ↦ record e {
      step = none;
      pacer = idle;
      results =
          e.results
          ++ record r { ended_at = wall; seq_end = seq_end_of r.seq_start e.next_seq } ∷ [];
    }
  ]
