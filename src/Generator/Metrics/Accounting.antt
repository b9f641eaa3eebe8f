-- ===== src/Generator/Metrics/Accounting.antt =====
-- The counters of `Metrics` (generator/src/metrics.py) under any sequence of its calls: every call holds
-- the lock, so the calls of all threads stand in one order.
use analytics_testing.Base.{
  ℕ, ◌+◌, ◌≡◌, String, List, [], ◌∷◌, length, length-append, sum_by, sum_by-append, arith,
}
use analytics_testing.Base.Int.{ℤ}
use analytics_testing.Base.Float.{Float}
use analytics_testing.Base.Dict.{sum_values, sum_values-increment}
use analytics_testing.Generator.Metrics.State.{Metrics, Totals, Sample}
use analytics_testing.Generator.Metrics.{
  new_metrics, set_step, record_offered, record_inflight, record_stall, record_success,
  record_failure, sample_of, flush_sample,
}

-- The calls that the pacer, the workers and the sampler make.
pub data Call (F : Type 0) : Type 0 where
  begin_step : ℕ → F → Call F
  offered : ℕ → ℕ → Call F
  inflight : ℤ → Call F
  stall : F → Call F
  success : ℕ → F → Call F
  failure : ℕ → F → String → Call F
  flush : F → Call F

module _ {F : Type 0} ⦃fl : Float F⦄ where
  pub call : Call F → Metrics F → Metrics F
  call (Call.begin_step i rps) m = set_step i rps m
  call (Call.offered n b) m = record_offered n b m
  call (Call.inflight d) m = record_inflight d m
  call (Call.stall t) m = record_stall t m
  call (Call.success n t) m = record_success n t m
  call (Call.failure n t code) m = record_failure n t code m
  call (Call.flush now) m = flush_sample now m

  pub calls : List (Call F) → Metrics F → Metrics F
  unfolding call
  calls [] m = m
  calls (c ∷ cs) m = calls cs (call c m)

  -- A counter of the run is what the samples hold of it and what the open window holds.
  abbrev Adds : (Sample F → ℕ) → (Totals F → ℕ) → Metrics F → Type 0
  Adds sampled counter m = sum_by sampled m.samples + counter m.window ≡ counter m.totals

  pub record IsBalanced (m : Metrics F) : Type 0 where
    pub sent : m.totals.requests_sent ≡ m.totals.requests_success + m.totals.requests_failed
    pub failed :
        m.totals.requests_failed
        ≡ m.totals.failed_resource_exhausted + m.totals.failed_deadline
          + m.totals.failed_unavailable + m.totals.failed_unauthenticated + m.totals.failed_other
    pub coded : sum_values m.totals.errors_by_code ≡ m.totals.requests_failed
    pub timed : length m.all_latencies ≡ m.totals.requests_sent
    pub window_sent : m.window.requests_sent ≡ m.window.requests_success + m.window.requests_failed
    pub window_timed : length m.window_latencies ≡ m.window.requests_sent
    pub add_sent : Adds (λ s. s.requests_sent) (λ t. t.requests_sent) m
    pub add_success : Adds (λ s. s.requests_success) (λ t. t.requests_success) m
    pub add_failed : Adds (λ s. s.requests_failed) (λ t. t.requests_failed) m
    pub add_rejected : Adds (λ s. s.failed_resource_exhausted) (λ t. t.failed_resource_exhausted) m
    pub add_bytes : Adds (λ s. s.bytes_sent) (λ t. t.bytes_sent) m

  pub new_metrics-IsBalanced :
      (id : String) (interval now : F) → IsBalanced (new_metrics id interval now)
  unfolding new_metrics
  new_metrics-IsBalanced id interval now = ground arith

  success-IsBalanced :
      (n : ℕ) (t : F) (m : Metrics F) → IsBalanced m → IsBalanced (record_success n t m)
  unfolding record_success
  success-IsBalanced n t m h = ground (
    arith,
    length-append m.all_latencies (fl.mul t (fl.lit 1000 1) ∷ []),
    length-append m.window_latencies (fl.mul t (fl.lit 1000 1) ∷ []),
  )

  failure-IsBalanced :
      (n : ℕ) (t : F) (code : String) (m : Metrics F)
      → IsBalanced m
      → IsBalanced (record_failure n t code m)
  unfolding record_failure
  failure-IsBalanced n t code m h = ground (
    arith,
    length-append m.all_latencies (fl.mul t (fl.lit 1000 1) ∷ []),
    length-append m.window_latencies (fl.mul t (fl.lit 1000 1) ∷ []),
    sum_values-increment code m.totals.errors_by_code,
  )

  pub flush-IsBalanced : (now : F) (m : Metrics F) → IsBalanced m → IsBalanced (flush_sample now m)
  unfolding flush_sample
  flush-IsBalanced now m h =
      let last = sample_of now m ∷ [] in
      ground (
        arith,
        sum_by-append (λ (s : Sample F). s.requests_sent) m.samples last,
        sum_by-append (λ (s : Sample F). s.requests_success) m.samples last,
        sum_by-append (λ (s : Sample F). s.requests_failed) m.samples last,
        sum_by-append (λ (s : Sample F). s.failed_resource_exhausted) m.samples last,
        sum_by-append (λ (s : Sample F). s.bytes_sent) m.samples last,
      )

  call-IsBalanced : (c : Call F) (m : Metrics F) → IsBalanced m → IsBalanced (call c m)
  unfolding call set_step record_offered record_inflight record_stall
  call-IsBalanced (Call.success n t) m h = success-IsBalanced n t m h
  call-IsBalanced (Call.failure n t code) m h = failure-IsBalanced n t code m h
  call-IsBalanced (Call.flush now) m h = flush-IsBalanced now m h
  call-IsBalanced _ m h = ground arith

  -- Whatever calls are made and in whatever order, from balanced counters: the requests sent are
  -- those that succeeded and those that failed, the failures are counted once by kind and once by
  -- status code, every request has left one latency, and each counter of the run that the samples
  -- carry is the sum over the samples and the open window.
  pub calls-IsBalanced :
      (cs : List (Call F)) (m : Metrics F) → IsBalanced m → IsBalanced (calls cs m)
  unfolding calls
  calls-IsBalanced [] m h = h
  calls-IsBalanced (c ∷ cs) m h = calls-IsBalanced cs (call c m) (call-IsBalanced c m h)
