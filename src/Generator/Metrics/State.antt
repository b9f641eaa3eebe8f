-- ===== src/Generator/Metrics/State.antt =====
-- The state of `Metrics` (generator/src/metrics.py), and the records that it writes.
use analytics_testing.Base.{ℕ, String, List}
use analytics_testing.Base.Int.{ℤ}
use analytics_testing.Base.Dict.{Dict}

-- `class Totals`
pub record Totals (F : Type 0) : Type 0 where
  pub requests_sent : ℕ
  pub requests_success : ℕ
  pub requests_failed : ℕ
  pub records_offered : ℕ
  pub records_accepted : ℕ
  pub records_rejected : ℕ
  pub failed_resource_exhausted : ℕ
  pub failed_deadline : ℕ
  pub failed_unavailable : ℕ
  pub failed_unauthenticated : ℕ
  pub failed_other : ℕ
  pub bytes_sent : ℕ
  pub stalled_ms : F
  pub errors_by_code : Dict ℕ

-- One line of generator.jsonl.
pub record Sample (F : Type 0) : Type 0 where
  pub ts : F
  pub test_id : String
  pub step_index : ℕ
  pub step_target_rps : F
  pub offered_rps : F
  pub accepted_rps : F
  pub rejected_rps : F
  pub requests_sent : ℕ
  pub requests_success : ℕ
  pub requests_failed : ℕ
  pub failed_resource_exhausted : ℕ
  pub bytes_sent : ℕ
  pub inflight : ℤ
  pub stalled_ms : F
  pub latency_p50_ms : F
  pub latency_p95_ms : F
  pub latency_p99_ms : F
  pub latency_max_ms : F
  pub cum_records_offered : ℕ
  pub cum_records_accepted : ℕ
  pub cum_records_rejected : ℕ

-- `class Metrics`; `samples` is what `_flush_sample` has written to generator.jsonl.
pub record Metrics (F : Type 0) : Type 0 where
  pub test_id : String
  pub sample_interval : F
  pub totals : Totals F
  pub window_latencies : List F
  pub window : Totals F
  pub all_latencies : List F
  pub inflight : ℤ
  pub step_index : ℕ
  pub step_rps : F
  pub started_at : F
  pub samples : List (Sample F)

-- `Metrics.snapshot`, the final totals with the means and the latencies.
pub record Snapshot (F : Type 0) : Type 0 where
  pub totals : Totals F
  pub duration_seconds : F
  pub offered_rps_mean : F
  pub accepted_rps_mean : F
  pub rejected_rps_mean : F
  pub latency_p50_ms : F
  pub latency_p95_ms : F
  pub latency_p99_ms : F
  pub latency_min_ms : F
  pub latency_max_ms : F
  pub success_rate : F
