-- ===== src/Generator/Engine.antt =====
-- generator/src/loadgen.py: the pacer and the workers as interleaved steps on one state. A schedule
-- is a list of events; an event that does not fit where its thread stands changes nothing.
pub mod State
pub mod Pacing
pub mod Sending
pub mod Tiling
pub mod Ledger
pub mod Spans
pub mod Steps
pub mod Aborts
pub mod Signed
use analytics_testing.Base.{
  ℕ, zero, suc, ◌*◌, max, Bool, true, false, Option, none, some, List, [], ◌∷◌, ◌++◌, length,
  get_elem?, replicate, ltb, if◌then◌else◌,
}
use analytics_testing.Base.Float.{Float}
use analytics_testing.Generator.Metrics.State.{Metrics}
use analytics_testing.Generator.Payload.{PayloadFactory}
use State.{
  Step, WorkItem, Outcome, Pacer, idle, pacing, resting, due, putting, enqueued, refused, settled,
  offered, draining, drained, Worker, waiting, taken, stamped, sending, replied, landed, counted,
  noted, read_failures, failed_again, aborting, stopping, exited, Workload, Engine,
}
use Pacing.{
  begin_step, look, rest, reserve_next, put, settle, give_back, offer, count_offer, drain,
  finish_step,
}
use Sending.{
  take_item, stamp_item, count_sending, export, count_reply, count_result, note_result,
  read_consecutive, count_consecutive, test_limit, set_abort_reason, set_stop,
}

-- What happens next: which thread moves, with what it reads of the clock and the network.
pub data Event (F : Type 0) : Type 0 where
  -- `run_step(step)`: the wall clock and the monotonic clock.
  begin : Step F → F → F → Event F
  -- The pacer moves on: the clock, and what its wait or its timeout says.
  pace : F → Bool → Event F
  -- A worker moves on: the clock in nanoseconds, and how an RPC ends.
  work : ℕ → ℕ → Outcome F → Event F
  -- A signal handler sets `_stop`.
  interrupt : Event F
  -- `stop()`: sets `_stop` and offers a sentinel for each worker.
  shut_down : Event F

-- `put_nowait(None)` for each worker; a full queue is passed over.
unfoldable pub put_sentinels : ℕ → ℕ → List (Option WorkItem) → List (Option WorkItem)
put_sentinels room zero queue = queue
put_sentinels room (suc n) queue =
    put_sentinels room n (if ltb (length queue) room then queue ++ none ∷ [] else queue)

module _ {F : Type 0} where
  -- The attributes that `__init__` sets, and a worker for each thread that `start` starts.
  unfoldable pub initial : Workload → ℕ → PayloadFactory F → Metrics F → Engine F
  initial cfg workers factory metrics = record {
    cfg = cfg;
    factory = factory;
    metrics = metrics;
    stop = false;
    queue = [];
    workers = replicate workers waiting;
    pacer = idle;
    next_seq = 0;
    consecutive_failures = 0;
    abort_reason = none;
    step = none;
    wire = [];
    results = [];
  }

  -- `__init__` and `start`; `none` is the `ValueError` of a pool that is too small.
  unfoldable pub start : Workload → ℕ → PayloadFactory F → Metrics F → Option (Engine F)
  unfolding initial
  start cfg workers factory metrics =
      if ltb (length factory.templates) (workers * factory.variants_per_worker)
      then none
      else some (initial cfg workers factory metrics)

module _ {F : Type 0} ⦃fl : Float F⦄ where
  -- The next section of the pacer.
  unfoldable pub pace_from : Pacer F → F → Bool → Engine F → Engine F
  unfolding look rest reserve_next put settle give_back offer count_offer drain finish_step
  pace_from idle now flag e = e
  pace_from (pacing p) now flag e = look now p e
  pace_from (resting p) now flag e = rest flag p e
  pace_from (due p) now flag e = reserve_next p e
  pace_from (putting p item) now flag e = put now p item e
  pace_from (enqueued p item) now flag e = settle now p item e
  pace_from (refused item) now flag e = give_back now item e
  pace_from (settled p item) now flag e = offer p item e
  pace_from (offered p item) now flag e = count_offer p item e
  pace_from draining now flag e = drain flag e
  pace_from drained now flag e = finish_step now e

  -- The next section of worker `w`.
  unfoldable pub work_from : Worker F → ℕ → ℕ → Outcome F → Engine F → Engine F
  unfolding take_item stamp_item count_sending export count_reply count_result note_result
      read_consecutive count_consecutive test_limit set_abort_reason set_stop
  work_from waiting w now_ns outcome e = take_item w e
  work_from (taken item) w now_ns outcome e = stamp_item now_ns w item e
  work_from (stamped item) w now_ns outcome e = count_sending w item e
  work_from (sending item) w now_ns outcome e = export outcome w item e
  work_from (replied item result) w now_ns outcome e = count_reply w item result e
  work_from (landed item r) w now_ns outcome e = count_result w item r e
  work_from (counted item r) w now_ns outcome e = note_result w item r e
  work_from (noted r) w now_ns outcome e = read_consecutive w r e
  work_from (read_failures r n) w now_ns outcome e = count_consecutive w r n e
  work_from (failed_again r) w now_ns outcome e = test_limit w r e
  work_from (aborting r) w now_ns outcome e = set_abort_reason w r e
  work_from stopping w now_ns outcome e = set_stop w e
  work_from exited w now_ns outcome e = e

  unfoldable pub shut : Engine F → Engine F
  unfolding put_sentinels
  shut e = record e {
    stop = true;
    queue = put_sentinels (max 1 e.cfg.max_inflight) (length e.workers) e.queue;
  }

  abbrev begin_from : Pacer F → Step F → F → F → Engine F → Engine F
  begin_from idle step wall started e = elim (begin_step step wall started e) [
    | none ↦ e
    | some e' ↦ e'
  ]
  begin_from _ step wall started e = e

  unfoldable pub act : Event F → Engine F → Engine F
  unfolding begin_step pace_from work_from shut
  act (begin step wall started) e = begin_from e.pacer step wall started e
  act (pace now flag) e = pace_from e.pacer now flag e
  act (work w now_ns outcome) e = elim (get_elem? e.workers w) [
    | none ↦ e
    | some p ↦ work_from p w now_ns outcome e
  ]
  act interrupt e = record e { stop = true }
  act shut_down e = shut e

  unfoldable pub run : List (Event F) → Engine F → Engine F
  unfolding act
  run [] e = e
  run (ev ∷ evs) e = run evs (act ev e)
