-- ===== src/Generator/Engine/Ledger/Defs.antt =====
-- What the counters of the engine must say, given the RPCs and the items under way.
use analytics_testing.Base.{
  ℕ, ◌+◌, ◌≡◌, Bool, false, Option, none, some, All, length, map, sum_by, if◌then◌else◌,
}
use analytics_testing.Generator.Payload.{seq_of}
use analytics_testing.Generator.Engine.Tiling.Pool.{numbered}
use analytics_testing.Generator.Engine.State.{
  WorkItem, Outcome, answered, raised, ExportResult, Pacer, putting, enqueued, refused, settled,
  offered, Worker, taken, stamped, sending, replied, landed, counted, Rpc, Engine,
}
use analytics_testing.Generator.Engine.Sending.{is_rejection}

abbrev pub queue_size : ℕ → Option WorkItem → ℕ
queue_size b none = 0
queue_size b (some _) = b

abbrev pub QueueSized : ℕ → Option WorkItem → Type 0
QueueSized b none = Unit
QueueSized b (some item) = item.record_count ≡ b

module _ {F : Type 0} where
  abbrev pub is_ok : ExportResult F → Bool
  is_ok r = r.ok

  -- A failure that the collector refused for lack of room.
  abbrev pub is_refused : ExportResult F → Bool
  is_refused r = if r.ok then false else is_rejection r

  abbrev pub counts_if : (ExportResult F → Bool) → ℕ → Outcome F → ℕ
  counts_if test n (answered r) = if test r then n else 0
  counts_if test n raised = 0

  -- The records of an RPC whose answer passes the test.
  abbrev pub wire_count : (ExportResult F → Bool) → Rpc F → ℕ
  wire_count test rpc = counts_if test (length rpc.records) rpc.outcome

  -- The records of an RPC carry a contiguous range of `b` numbers.
  abbrev pub Numbered : ℕ → Rpc F → Type 0
  Numbered b rpc = (first : ℕ) × (map seq_of rpc.records ≡ numbered first b)

  abbrev pub rpc_size : Rpc F → ℕ
  rpc_size rpc = length rpc.records

  -- The records of an answer that the worker has and `metrics` has not yet counted.
  abbrev pub pending : (ExportResult F → Bool) → Worker F → ℕ
  pending test (replied item outcome) = counts_if test item.record_count outcome
  pending test (landed item r) = if test r then item.record_count else 0
  pending test _ = 0

  abbrev pub load : ℕ → Worker F → ℕ
  load b (taken _) = b
  load b (stamped _) = b
  load b (sending _) = b
  load b _ = 0

  -- Given out by the pacer and not yet in the queue.
  abbrev pub in_hand : ℕ → Pacer F → ℕ
  in_hand b (putting _ _) = b
  in_hand b (refused _) = b
  in_hand b _ = 0

  -- Given out and not yet counted as offered.
  abbrev pub unoffered : ℕ → Pacer F → ℕ
  unoffered b (putting _ _) = b
  unoffered b (refused _) = b
  unoffered b (enqueued _ _) = b
  unoffered b (settled _ _) = b
  unoffered b _ = 0

  abbrev pub WorkerSized : ℕ → Worker F → Type 0
  WorkerSized b (taken item) = item.record_count ≡ b
  WorkerSized b (stamped item) = item.record_count ≡ b
  WorkerSized b (sending item) = item.record_count ≡ b
  WorkerSized b (replied item _) = item.record_count ≡ b
  WorkerSized b (landed item _) = item.record_count ≡ b
  WorkerSized b (counted item _) = item.record_count ≡ b
  WorkerSized b _ = Unit

  abbrev pub PacerSized : ℕ → Pacer F → ℕ → Type 0
  PacerSized b (putting _ item) next = (item.record_count ≡ b) × (item.seq_start + b ≡ next)
  PacerSized b (refused item) next = (item.record_count ≡ b) × (item.seq_start + b ≡ next)
  PacerSized b (enqueued _ item) next = item.record_count ≡ b
  PacerSized b (settled _ item) next = item.record_count ≡ b
  PacerSized b (offered _ item) next = item.record_count ≡ b
  PacerSized b _ next = Unit

  -- `b` is the batch size.
  pub record Ledger (b : ℕ) (e : Engine F) : Type 0 where
    pub batch : e.cfg.batch_size ≡ b
    pub sized_queue : All (QueueSized b) e.queue
    pub sized_workers : All (WorkerSized b) e.workers
    pub sized_pacer : PacerSized b e.pacer e.next_seq
    -- Every number given out is counted as offered, or the pacer is about to.
    pub offers : e.metrics.totals.records_offered + unoffered b e.pacer ≡ e.next_seq
    -- Every number given out is in the pacer's hand, in the queue, with a worker or in an RPC.
    pub held :
        sum_by (queue_size b) e.queue
          + sum_by (load b) e.workers
          + sum_by rpc_size e.wire
          + in_hand b e.pacer
        ≡ e.next_seq
    pub accepts :
        e.metrics.totals.records_accepted + sum_by (pending is_ok) e.workers
        ≡ sum_by (wire_count is_ok) e.wire
    pub rejects :
        e.metrics.totals.records_rejected + sum_by (pending is_refused) e.workers
        ≡ sum_by (wire_count is_refused) e.wire
    pub numbered : All (Numbered b) e.wire
