-- ===== src/Generator/Engine/State.antt =====
-- The state of `LoadGenerator` (generator/src/loadgen.py): what its threads share, and how far each
-- of them has come. `LoadGenerator` reads the clock and the network; both come in as arguments.
use analytics_testing.Base.{ℕ, Bool, String, Option, List}
use analytics_testing.Base.Dict.{Dict}
use analytics_testing.Generator.Metrics.State.{Metrics}
use analytics_testing.Generator.Payload.{LogRecord, PayloadFactory}

-- `config.Step`
pub record Step (F : Type 0) : Type 0 where
  pub index : ℕ
  pub rps : F
  pub duration_seconds : F

pub record StepResult (F : Type 0) : Type 0 where
  pub index : ℕ
  pub target_rps : F
  pub duration_seconds : F
  pub started_at : F
  pub ended_at : F
  pub offered : ℕ
  pub accepted : ℕ
  pub rejected : ℕ
  pub requests : ℕ
  pub failures : ℕ
  pub stalled_ms : F
  pub seq_start : ℕ
  pub seq_end : ℕ
  pub errors_by_code : Dict ℕ

-- `_WorkItem`
pub record WorkItem : Type 0 where
  pub seq_start : ℕ
  pub record_count : ℕ
  pub nbytes : ℕ
  pub variant : ℕ

-- `otlp_client.ExportResult`
pub record ExportResult (F : Type 0) : Type 0 where
  pub ok : Bool
  pub latency_s : F
  pub code : String
  pub detail : String
  pub retry_after_s : F

-- How a call of `exporter.export` ends: with a result, or with an exception that it does not catch.
pub data Outcome (F : Type 0) : Type 0 where
  answered : ExportResult F → Outcome F
  raised : Outcome F

-- The locals of `run_step`.
pub record Pace (F : Type 0) : Type 0 where
  pub deadline : F
  pub interval : F
  pub next_submit : F
  pub variant : ℕ
  pub now : F

-- Where `run_step` stands: at the head of its loop, in `_stop.wait`, past both looks at `_stop` and
-- before the reservation, in the loop that puts an item, past that loop
-- with the item in the queue or not, between the two counts of an offer, and in the drain.
pub data Pacer (F : Type 0) : Type 0 where
  idle : Pacer F
  pacing : Pace F → Pacer F
  resting : Pace F → Pacer F
  due : Pace F → Pacer F
  putting : Pace F → WorkItem → Pacer F
  enqueued : Pace F → WorkItem → Pacer F
  refused : WorkItem → Pacer F
  settled : Pace F → WorkItem → Pacer F
  offered : Pace F → WorkItem → Pacer F
  draining : Pacer F
  drained : Pacer F

-- Where a worker stands in `_worker_loop` and `_send`: each constructor is a point between two
-- sections that hold a lock, or between the queue and the network.
pub data Worker (F : Type 0) : Type 0 where
  waiting : Worker F
  taken : WorkItem → Worker F
  stamped : WorkItem → Worker F
  sending : WorkItem → Worker F
  replied : WorkItem → Outcome F → Worker F
  landed : WorkItem → ExportResult F → Worker F
  counted : WorkItem → ExportResult F → Worker F
  noted : ExportResult F → Worker F
  read_failures : ExportResult F → ℕ → Worker F
  failed_again : ExportResult F → Worker F
  aborting : ExportResult F → Worker F
  stopping : Worker F
  exited : Worker F

-- One RPC as the collector sees it: the records that the request held, and how the call ended.
pub record Rpc (F : Type 0) : Type 0 where
  pub records : List (LogRecord F)
  pub outcome : Outcome F

-- `_abort_reason`
pub record AbortReason : Type 0 where
  pub failures : ℕ
  pub code : String
  pub detail : String

-- `config.Workload`, the settings that the engine reads; `polite` is `retry_mode == "polite"`.
pub record Workload : Type 0 where
  pub batch_size : ℕ
  pub max_inflight : ℕ
  pub polite : Bool
  pub abort_on_consecutive_failures : ℕ

-- `class LoadGenerator`. `step` is `_step`; the pacer's `result` is the same object, and `wire` and
-- `results` are what the collector and the caller of `run_step` have been given.
pub record Engine (F : Type 0) : Type 0 where
  pub cfg : Workload
  pub factory : PayloadFactory F
  pub metrics : Metrics F
  pub stop : Bool
  pub queue : List (Option WorkItem)
  pub workers : List (Worker F)
  pub pacer : Pacer F
  pub next_seq : ℕ
  pub consecutive_failures : ℕ
  pub abort_reason : Option AbortReason
  pub step : Option (StepResult F)
  pub wire : List (Rpc F)
  pub results : List (StepResult F)
