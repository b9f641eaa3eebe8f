-- ===== src/Generator/Engine/Sending.antt =====
-- `_worker_loop`, `_send` and `_record_failure` of generator/src/loadgen.py: one function for each
-- section of a worker between two points where another thread may run.
use analytics_testing.Base.{
  ℕ, ◌+◌, Bool, true, not, ◌&&◌, ◌||◌, Option, none, some, List, [], ◌∷◌, ◌++◌, set, leb, ◌==◌,
  if◌then◌else◌, str_eq,
}
use analytics_testing.Base.Int.{pos, negsuc}
use analytics_testing.Base.Dict.{increment}
use analytics_testing.Base.Float.{Float}
use analytics_testing.Generator.Metrics.{record_inflight, record_success, record_failure}
use analytics_testing.Generator.Payload.{
  LogRecord, RequestTemplate, template_for, template_index, stamp,
}
use analytics_testing.Generator.Engine.State.{
  StepResult, WorkItem, ExportResult, Outcome, answered, raised, Worker, waiting, taken, stamped,
  sending, replied, landed, counted, noted, read_failures, failed_again, aborting, stopping, exited,
  Engine,
}

module _ {F : Type 0} where
  abbrev pub goes : ℕ → Worker F → Engine F → Engine F
  goes w p e = record e { workers = set e.workers w p }

  -- `_queue.get()`; the sentinel `None` ends the worker.
  unfoldable pub take_item : ℕ → Engine F → Engine F
  take_item w e = elim e.queue [
    | [] ↦ e
    | item ∷ rest ↦ record e {
      queue = rest;
      workers = set e.workers w (elim item [ none ↦ exited | some i ↦ taken i ]);
    }
  ]

  -- The pool with the worker's template stamped; an index out of range raises, and the handler of
  -- `_worker_loop` drops the item.
  unfoldable pub stamp_item : ℕ → ℕ → WorkItem → Engine F → Engine F
  stamp_item now_ns w item e = elim (template_for e.factory w item.variant) [
    | none ↦ goes w waiting e
    | some t ↦
        let i = template_index e.factory.workers e.factory.variants_per_worker w item.variant in
        record e {
          factory = record e.factory {
            templates = set e.factory.templates i (stamp now_ns item.seq_start t).0;
          };
          workers = set e.workers w (stamped item);
        }
  ]

module _ {F : Type 0} ⦃fl : Float F⦄ where
  -- `metrics.record_inflight(1)`
  unfoldable pub count_sending : ℕ → WorkItem → Engine F → Engine F
  count_sending w item e =
      goes w (sending item) (record e { metrics = record_inflight (pos 1) e.metrics })

module _ {F : Type 0} where
  abbrev pub records_of : Option (RequestTemplate F) → List (LogRecord F)
  records_of none = []
  records_of (some t) = t.records

  -- `exporter.export(worker_id, template.request)`, which ends as `outcome` says.
  unfoldable pub export : Outcome F → ℕ → WorkItem → Engine F → Engine F
  export outcome w item e = record e {
    wire =
        e.wire
        ++ record {
          records = records_of (template_for e.factory w item.variant);
          outcome = outcome;
        }
          ∷ [];
    workers = set e.workers w (replied item outcome);
  }

  abbrev pub after_reply : WorkItem → Outcome F → Worker F
  after_reply item (answered r) = landed item r
  after_reply item raised = waiting

module _ {F : Type 0} ⦃fl : Float F⦄ where
  -- `metrics.record_inflight(-1)`; an exception goes on to the handler, which drops the item.
  unfoldable pub count_reply : ℕ → WorkItem → Outcome F → Engine F → Engine F
  count_reply w item outcome e =
      goes w (after_reply item outcome)
        (record e { metrics = record_inflight (negsuc 0) e.metrics })

  -- `metrics.record_success` with the reset of `_consecutive_failures`, or `metrics.record_failure`.
  unfoldable pub count_result : ℕ → WorkItem → ExportResult F → Engine F → Engine F
  count_result w item r e = goes w (counted item r) (
      if r.ok
      then record e {
        metrics = record_success item.record_count r.latency_s e.metrics;
        consecutive_failures = 0;
      }
      else record e { metrics = record_failure item.record_count r.latency_s r.code e.metrics })

module _ {F : Type 0} where
  abbrev pub is_rejection : ExportResult F → Bool
  is_rejection r = str_eq r.code "RESOURCE_EXHAUSTED"

  -- The accumulators of the step, if one is open.
  unfoldable pub note : WorkItem → ExportResult F → StepResult F → StepResult F
  note item r s =
      if r.ok
      then record s { accepted = s.accepted + item.record_count; requests = s.requests + 1 }
      else record s {
        requests = s.requests + 1;
        failures = s.failures + 1;
        errors_by_code = increment r.code s.errors_by_code;
        rejected = if is_rejection r then s.rejected + item.record_count else s.rejected;
      }

  unfoldable pub note_result : ℕ → WorkItem → ExportResult F → Engine F → Engine F
  unfolding note
  note_result w item r e =
      goes w (if r.ok || is_rejection r then waiting else noted r)
        (record e { step = elim e.step [ none ↦ none | some s ↦ some (note item r s) ] })

  -- The tail of `_record_failure`, which holds no lock; a rejection has returned before. The wait of
  -- the polite mode changes nothing that another thread reads. `+= 1` reads `_consecutive_failures`
  unfoldable pub read_consecutive : ℕ → ExportResult F → Engine F → Engine F
  read_consecutive w r e = goes w (read_failures r e.consecutive_failures) e

  -- and writes it.
  unfoldable pub count_consecutive : ℕ → ExportResult F → ℕ → Engine F → Engine F
  count_consecutive w r n e = goes w (failed_again r) (record e { consecutive_failures = n + 1 })

  -- The test on the limit and on `_abort_reason`.
  unfoldable pub test_limit : ℕ → ExportResult F → Engine F → Engine F
  test_limit w r e =
      let limit = e.cfg.abort_on_consecutive_failures in
      elim e.abort_reason [
        | some _ ↦ goes w waiting e
        | none ↦
            if not (limit == 0) && leb limit e.consecutive_failures
            then goes w (aborting r) e
            else goes w waiting e
      ]

  -- `_abort_reason = ...`, which reads the counter once more.
  unfoldable pub set_abort_reason : ℕ → ExportResult F → Engine F → Engine F
  set_abort_reason w r e = goes w stopping (record e {
    abort_reason =
        some (record { failures = e.consecutive_failures; code = r.code; detail = r.detail });
  })

  -- `_stop.set()`
  unfoldable pub set_stop : ℕ → Engine F → Engine F
  set_stop w e = goes w waiting (record e { stop = true })
