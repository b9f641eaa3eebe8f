-- ===== src/Generator/Metrics/Samples.antt =====
-- What a sample of generator.jsonl and the final snapshot say of the latencies.
use analytics_testing.Base.{◌≡◌, String, List, [], ◌∷◌, All, sum_by, arith}
use analytics_testing.Base.Float.{Float, IsOrdered, IsMonotone, ◌≼◌}
use analytics_testing.Base.Sorting.{IsSorted, sort, IsSorted-sort, All-sort}
use analytics_testing.Generator.Metrics.Percentile.{percentile, percentile_mono, percentile_bounds}
use analytics_testing.Generator.Metrics.State.{Metrics, Sample}
use analytics_testing.Generator.Metrics.{new_metrics, largest, sample_of, flush_sample, snapshot}
use analytics_testing.Generator.Metrics.Accounting.{
  Call, calls, calls-IsBalanced, flush-IsBalanced, new_metrics-IsBalanced,
}

module _ {F : Type 0} ⦃fl : Float F⦄ where
  abbrev pub Ascending : F → F → F → F → Type 0
  Ascending p50 p95 p99 top = (p50 ≼ p95) × (p95 ≼ p99) × (p99 ≼ top)

module _ {F : Type 0} ⦃fl : Float F⦄ (ord : IsOrdered F) (laws : IsMonotone F) where
  open fl use {lit, le, round_to}

  IsSorted-latencies : (xs : List F) → All (λ x. x ≼ x) xs → IsSorted le (sort le xs)
  IsSorted-latencies = IsSorted-sort le (λ x. x ≼ x) ord.le_total ord.le_trans

  -- A percentile of sorted latencies, rounded, is at most the rounded largest one.
  percentile-le-largest :
      (xs : List F) (q : F)
      → IsSorted le xs
      → All (λ x. x ≼ x) xs
      → round_to 3 (lit 0 1) ≼ lit 0 1
      → round_to 3 (percentile xs q) ≼ largest xs
  percentile-le-largest [] q s r z = unfold percentile in z
  percentile-le-largest (x ∷ xs) q s r z = laws.round_to_mono _ _ 3 (percentile_bounds x xs q s r).1

  -- The latency columns of any collection of latencies ascend.
  latencies-Ascending :
      (xs : List F)
      → All (λ x. x ≼ x) xs
      → round_to 3 (lit 0 1) ≼ lit 0 1
      → let l = sort le xs in
        Ascending
          (round_to 3 (percentile l (lit 50 100)))
          (round_to 3 (percentile l (lit 95 100)))
          (round_to 3 (percentile l (lit 99 100)))
          (largest l)
  latencies-Ascending xs r z =
      let s = IsSorted-latencies xs r in
      let r' = All-sort le (λ x. x ≼ x) xs r in
      (
        laws.round_to_mono _ _ 3 (
            percentile_mono ord laws (sort le xs) (lit 50 100) (lit 95 100) s r'
              (ord.lit_mono 0 1 50 100 (omega arith) (omega arith) (omega arith))
              (ord.lit_mono 50 100 95 100 (omega arith) (omega arith) (omega arith))
              (ord.lit_mono 95 100 1 1 (omega arith) (omega arith) (omega arith))),
        laws.round_to_mono _ _ 3 (
            percentile_mono ord laws (sort le xs) (lit 95 100) (lit 99 100) s r'
              (ord.lit_mono 0 1 95 100 (omega arith) (omega arith) (omega arith))
              (ord.lit_mono 95 100 99 100 (omega arith) (omega arith) (omega arith))
              (ord.lit_mono 99 100 1 1 (omega arith) (omega arith) (omega arith))),
        percentile-le-largest (sort le xs) (lit 99 100) s r' z,
      )

  -- In every sample that is flushed and in the final snapshot the percentiles ascend,
  -- p50 <= p95 <= p99 <= max, if no latency is NaN and `round(0.0, 3)` is at most 0.0.
  pub percentiles_ascend :
      (now : F) (m : Metrics F)
      → All (λ x. x ≼ x) m.window_latencies
      → All (λ x. x ≼ x) m.all_latencies
      → round_to 3 (lit 0 1) ≼ lit 0 1
      → let s = sample_of now m in
        let t = snapshot now m in
        Ascending s.latency_p50_ms s.latency_p95_ms s.latency_p99_ms s.latency_max_ms
        × Ascending t.latency_p50_ms t.latency_p95_ms t.latency_p99_ms t.latency_max_ms
  unfolding sample_of snapshot
  percentiles_ascend now m window all z =
      (latencies-Ascending m.window_latencies window z, latencies-Ascending m.all_latencies all z)

module _ {F : Type 0} ⦃fl : Float F⦄ where
  -- After any sequence of calls on new counters and the flush that ends the run, the columns
  -- requests_sent, requests_success, requests_failed, failed_resource_exhausted and bytes_sent of the
  -- samples add up to the totals of the run.
  pub samples_add_up :
      (test_id : String) (interval opened now : F) (cs : List (Call F))
      → let m = calls cs (new_metrics test_id interval opened) in
        let m' = flush_sample now m in
        (sum_by (λ (s : Sample F). s.requests_sent) m'.samples ≡ m.totals.requests_sent)
        × (sum_by (λ (s : Sample F). s.requests_success) m'.samples ≡ m.totals.requests_success)
        × (sum_by (λ (s : Sample F). s.requests_failed) m'.samples ≡ m.totals.requests_failed)
        × (sum_by (λ (s : Sample F). s.failed_resource_exhausted) m'.samples
            ≡ m.totals.failed_resource_exhausted)
        × (sum_by (λ (s : Sample F). s.bytes_sent) m'.samples ≡ m.totals.bytes_sent)
  unfolding flush_sample
  samples_add_up test_id interval opened now cs =
      let m = calls cs (new_metrics test_id interval opened) in
      let h =
        calls-IsBalanced cs (new_metrics test_id interval opened)
          (new_metrics-IsBalanced test_id interval opened) in
      let b = flush-IsBalanced now m h in
      omega (arith, b.add_sent, b.add_success, b.add_failed, b.add_rejected, b.add_bytes)
