-- ===== src/Tests/Counters.antt =====
-- The counters of generator/src/metrics.py and the sequence ranges of generator/src/payload.py.
use mathlib.Core.Option.{some-ne-none}
use analytics_testing.Base.{
  ◌≡◌, ◌≢◌, ◌<◌, ◌↔◌, refl, false, some, List, [], ◌∷◌, map, sum_by, length, ◌+◌, ◌*◌, arith,
}
use analytics_testing.Base.Int.{pos}
use analytics_testing.Base.Float.{Milli, milli_float, Milli-IsOrdered, Milli-IsMonotone}
use analytics_testing.Base.Sorting.{AllPairs}
use analytics_testing.Generator.Metrics.State.{Metrics, Sample}
use analytics_testing.Generator.Metrics.{new_metrics, flush_sample, sample_of, snapshot}
use analytics_testing.Generator.Metrics.Accounting.{
  Call, begin_step, offered, success, failure, flush, calls, IsBalanced, new_metrics-IsBalanced,
  calls-IsBalanced,
}
use analytics_testing.Generator.Metrics.Samples.{percentiles_ascend, samples_add_up, Ascending}
use analytics_testing.Generator.Payload.{
  AnyValue, RequestTemplate, LogRecord, stamp, seq_of, template_index,
}
use analytics_testing.Generator.Payload.Ranges.{
  SeqRange, seq_ranges_overlap, seq_ranges_overlap_iff, Apart,
}
use analytics_testing.Generator.Payload.Stamping.{stamp_contiguous, template_index_private}

abbrev fresh : Metrics Milli
fresh = new_metrics "run-1" 1000 0

abbrev some_calls : List (Call Milli)
some_calls =
    begin_step 0 2000
    ∷ offered 2 300
    ∷ success 2 5
    ∷ flush 1000
    ∷ offered 2 300
    ∷ failure 2 9 "RESOURCE_EXHAUSTED"
    ∷ failure 2 7 "CANCELLED"
    ∷ []

calls-IsBalanced_example : IsBalanced (calls some_calls fresh)
calls-IsBalanced_example = calls-IsBalanced some_calls fresh (new_metrics-IsBalanced "run-1" 1000 0)

abbrev after : Metrics Milli
after = calls some_calls fresh

samples_add_up_example :
    let m' = flush_sample 2000 after in
    (sum_by (λ (s : Sample Milli). s.requests_sent) m'.samples ≡ after.totals.requests_sent)
    × (sum_by (λ (s : Sample Milli). s.requests_success) m'.samples ≡ after.totals.requests_success)
    × (sum_by (λ (s : Sample Milli). s.requests_failed) m'.samples ≡ after.totals.requests_failed)
    × (sum_by (λ (s : Sample Milli). s.failed_resource_exhausted) m'.samples
        ≡ after.totals.failed_resource_exhausted)
    × (sum_by (λ (s : Sample Milli). s.bytes_sent) m'.samples ≡ after.totals.bytes_sent)
samples_add_up_example = samples_add_up "run-1" 1000 0 2000 some_calls

abbrev timed : Metrics Milli
timed = record fresh { window_latencies = 9 ∷ 3 ∷ 5 ∷ []; all_latencies = 7 ∷ 9 ∷ 3 ∷ 5 ∷ [] }

percentiles_ascend_example :
    let s = sample_of 1000 timed in
    let t = snapshot 1000 timed in
    Ascending s.latency_p50_ms s.latency_p95_ms s.latency_p99_ms s.latency_max_ms
    × Ascending t.latency_p50_ms t.latency_p95_ms t.latency_p99_ms t.latency_max_ms
percentiles_ascend_example =
    percentiles_ascend Milli-IsOrdered Milli-IsMonotone 1000 timed (refl, (refl, (refl, tt)))
      (refl, (refl, (refl, (refl, tt)))) refl

abbrev tagged : LogRecord Milli
tagged = record {
  time_unix_nano = 0;
  observed_time_unix_nano = 0;
  severity_number = 17;
  severity_text = "ERROR";
  body = "upstream timeout";
  trace_id = 1;
  span_id = 2;
  attributes = ("bench.seq", AnyValue.int_value (pos 0)) ∷ [];
}

abbrev pair : RequestTemplate Milli
pair = record {
  resource = [];
  records = tagged ∷ tagged ∷ [];
  record_count = 2;
  approx_bytes = 250;
}

stamp_contiguous_example :
    (map seq_of (stamp 8000 40 pair).0.records
      ≡ some (AnyValue.int_value (pos 40)) ∷ some (AnyValue.int_value (pos 41)) ∷ [])
    × ((stamp 8000 40 pair).1 ≡ 40 + length (stamp 8000 40 pair).0.records)
unfolding seq_of
stamp_contiguous_example =
    stamp_contiguous 8000 40 pair ((λ e. some-ne-none _ e), ((λ e. some-ne-none _ e), tt))

template_index_private_example :
    (template_index 4 3 1 7 ≢ template_index 4 3 2 5) × (template_index 4 3 1 7 < 4 * 3)
template_index_private_example =
    template_index_private 4 3 1 2 7 5 (omega arith) (omega arith) (omega arith) (omega arith)

abbrev three_ranges : List SeqRange
three_ranges = (200, 299) ∷ (0, 99) ∷ (100, 199) ∷ []

seq_ranges_overlap_iff_example :
    (seq_ranges_overlap three_ranges ≡ false) ↔ AllPairs Apart three_ranges
seq_ranges_overlap_iff_example =
    seq_ranges_overlap_iff three_ranges (omega arith, (omega arith, (omega arith, tt)))
