-- ===== src/Generator/Metrics.antt =====
-- generator/src/metrics.py: the counters of a run, its windows and samples. Every method runs under
-- `Metrics._lock`, so it is one function on the state. The optional Prometheus mirror is left out.
pub mod State
pub mod Percentile
pub mod Accounting
pub mod Samples
use analytics_testing.Base.{
  ℕ, zero, suc, ◌+◌, Bool, true, false, String, List, [], ◌∷◌, ◌++◌, length, get_or, if◌then◌else◌,
  str_eq,
}
use analytics_testing.Base.Int.{ℤ, pos, ◌+ℤ◌}
use analytics_testing.Base.Float.{Float, max_f}
use analytics_testing.Base.Dict.{Dict, increment}
use analytics_testing.Base.Sorting.{sort}
use analytics_testing.Generator.Metrics.State.{Totals, Sample, Metrics, Snapshot}
use analytics_testing.Generator.Metrics.Percentile.{percentile}

module _ {F : Type 0} ⦃fl : Float F⦄ where
  open fl use {lit, add, mul, div, sub, le, round_to}

  -- `Totals()`
  abbrev pub no_totals : Totals F
  no_totals = record {
    requests_sent = 0;
    requests_success = 0;
    requests_failed = 0;
    records_offered = 0;
    records_accepted = 0;
    records_rejected = 0;
    failed_resource_exhausted = 0;
    failed_deadline = 0;
    failed_unavailable = 0;
    failed_unauthenticated = 0;
    failed_other = 0;
    bytes_sent = 0;
    stalled_ms = lit 0 1;
    errors_by_code = [];
  }

  -- `Metrics.__init__` at the time `now`; the files that it opens are the list of samples.
  unfoldable pub new_metrics : String → F → F → Metrics F
  new_metrics test_id interval now = record {
    test_id = test_id;
    sample_interval = max_f (lit 1 10) interval;
    totals = no_totals;
    window_latencies = [];
    window = no_totals;
    all_latencies = [];
    inflight = pos 0;
    step_index = 0;
    step_rps = lit 0 1;
    started_at = now;
    samples = [];
  }

  unfoldable pub set_step : ℕ → F → Metrics F → Metrics F
  set_step index rps m = record m { step_index = index; step_rps = rps }

  abbrev count_offered : ℕ → ℕ → Totals F → Totals F
  count_offered records nbytes t = record t {
    records_offered = t.records_offered + records;
    bytes_sent = t.bytes_sent + nbytes;
  }

  unfoldable pub record_offered : ℕ → ℕ → Metrics F → Metrics F
  record_offered records nbytes m = record m {
    totals = count_offered records nbytes m.totals;
    window = count_offered records nbytes m.window;
  }

  unfoldable pub record_inflight : ℤ → Metrics F → Metrics F
  record_inflight delta m = record m { inflight = m.inflight +ℤ delta }

  abbrev count_stall : F → Totals F → Totals F
  count_stall ms t = record t { stalled_ms = add t.stalled_ms ms }

  unfoldable pub record_stall : F → Metrics F → Metrics F
  record_stall seconds m =
      let ms = mul seconds (lit 1000 1) in
      record m { totals = count_stall ms m.totals; window = count_stall ms m.window }

  abbrev count_success : ℕ → Totals F → Totals F
  count_success records t = record t {
    requests_sent = t.requests_sent + 1;
    requests_success = t.requests_success + 1;
    records_accepted = t.records_accepted + records;
  }

  unfoldable pub record_success : ℕ → F → Metrics F → Metrics F
  record_success records latency_s m =
      let ms = mul latency_s (lit 1000 1) in
      record m {
        totals = count_success records m.totals;
        window = count_success records m.window;
        window_latencies = m.window_latencies ++ ms ∷ [];
        all_latencies = m.all_latencies ++ ms ∷ [];
      }

  abbrev count_failure : Totals F → Totals F
  count_failure t = record t {
    requests_sent = t.requests_sent + 1;
    requests_failed = t.requests_failed + 1;
  }

  abbrev count_rejection : ℕ → Totals F → Totals F
  count_rejection records t = record t {
    records_rejected = t.records_rejected + records;
    failed_resource_exhausted = t.failed_resource_exhausted + 1;
  }

  abbrev count_code : String → Totals F → Totals F
  count_code code t = record t { errors_by_code = increment code t.errors_by_code }

  -- The chain of tests on the status code, on the totals of the run.
  unfoldable pub classify : ℕ → String → Totals F → Totals F
  classify records code t =
      if str_eq code "RESOURCE_EXHAUSTED"
      then count_rejection records t
      else if str_eq code "DEADLINE_EXCEEDED"
      then record t { failed_deadline = t.failed_deadline + 1 }
      else if str_eq code "UNAVAILABLE"
      then record t { failed_unavailable = t.failed_unavailable + 1 }
      else if str_eq code "UNAUTHENTICATED"
      then record t { failed_unauthenticated = t.failed_unauthenticated + 1 }
      else record t { failed_other = t.failed_other + 1 }

  -- The window counts the rejections and no other kind of failure.
  unfoldable pub record_failure : ℕ → F → String → Metrics F → Metrics F
  unfolding classify
  record_failure records latency_s code m =
      let ms = mul latency_s (lit 1000 1) in
      let window = count_failure m.window in
      record m {
        totals = classify records code (count_code code (count_failure m.totals));
        window =
            if str_eq code "RESOURCE_EXHAUSTED" then count_rejection records window else window;
        window_latencies = m.window_latencies ++ ms ∷ [];
        all_latencies = m.all_latencies ++ ms ∷ [];
      }

  -- `round(latencies[-1], 3) if latencies else 0.0`, on sorted latencies.
  abbrev largest : List F → F
  largest [] = lit 0 1
  largest (x ∷ xs) = round_to 3 (get_or (x ∷ xs) (length xs) x)

  abbrev smallest : List F → F
  smallest [] = lit 0 1
  smallest (x ∷ xs) = round_to 3 x

  -- The sample that `_flush_sample` writes at the time `now`.
  unfoldable pub sample_of : F → Metrics F → Sample F
  sample_of now m =
      let latencies = sort le m.window_latencies in
      record {
        ts = now;
        test_id = m.test_id;
        step_index = m.step_index;
        step_target_rps = m.step_rps;
        offered_rps = div (lit m.window.records_offered 1) m.sample_interval;
        accepted_rps = div (lit m.window.records_accepted 1) m.sample_interval;
        rejected_rps = div (lit m.window.records_rejected 1) m.sample_interval;
        requests_sent = m.window.requests_sent;
        requests_success = m.window.requests_success;
        requests_failed = m.window.requests_failed;
        failed_resource_exhausted = m.window.failed_resource_exhausted;
        bytes_sent = m.window.bytes_sent;
        inflight = m.inflight;
        stalled_ms = round_to 3 m.window.stalled_ms;
        latency_p50_ms = round_to 3 (percentile latencies (lit 50 100));
        latency_p95_ms = round_to 3 (percentile latencies (lit 95 100));
        latency_p99_ms = round_to 3 (percentile latencies (lit 99 100));
        latency_max_ms = largest latencies;
        cum_records_offered = m.totals.records_offered;
        cum_records_accepted = m.totals.records_accepted;
        cum_records_rejected = m.totals.records_rejected;
      }

  -- `_flush_sample`: write the window out and start a new one.
  unfoldable pub flush_sample : F → Metrics F → Metrics F
  unfolding sample_of
  flush_sample now m = record m {
    window = no_totals;
    window_latencies = [];
    samples = m.samples ++ sample_of now m ∷ [];
  }

  unfoldable pub snapshot : F → Metrics F → Snapshot F
  snapshot now m =
      let latencies = sort le m.all_latencies in
      let duration = max_f (lit 1 1_000_000_000) (sub now m.started_at) in
      record {
        totals = m.totals;
        duration_seconds = round_to 3 duration;
        offered_rps_mean = div (lit m.totals.records_offered 1) duration;
        accepted_rps_mean = div (lit m.totals.records_accepted 1) duration;
        rejected_rps_mean = div (lit m.totals.records_rejected 1) duration;
        latency_p50_ms = round_to 3 (percentile latencies (lit 50 100));
        latency_p95_ms = round_to 3 (percentile latencies (lit 95 100));
        latency_p99_ms = round_to 3 (percentile latencies (lit 99 100));
        latency_min_ms = smallest latencies;
        latency_max_ms = largest latencies;
        success_rate = elim m.totals.requests_sent [
          | zero ↦ lit 0 1
          | suc n ↦ div (lit m.totals.requests_success 1) (lit (suc n) 1)
        ];
      }
