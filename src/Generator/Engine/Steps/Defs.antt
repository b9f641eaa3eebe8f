-- ===== src/Generator/Engine/Steps/Defs.antt =====
-- The counters of the step results beside the totals: what has been counted in the one and not yet
-- in the other.
use analytics_testing.Base.{ℕ, ◌+◌, ◌≡◌, ◌≤◌, Option, none, some, All, sum_by, if◌then◌else◌}
use analytics_testing.Base.Dict.{sum_values}
use analytics_testing.Generator.Engine.State.{StepResult, Pacer, offered, Worker, counted, Engine}
use analytics_testing.Generator.Engine.Sending.{is_rejection}

module _ {F : Type 0} where
  abbrev pub of_step : (StepResult F → ℕ) → Option (StepResult F) → ℕ
  of_step counter none = 0
  of_step counter (some r) = counter r

  -- A counter summed over the step results and the open step.
  abbrev pub stepped : (StepResult F → ℕ) → Engine F → ℕ
  stepped counter e = sum_by counter e.results + of_step counter e.step

  -- Offered in the totals and not yet in the step.
  abbrev pub unstepped : Pacer F → ℕ
  unstepped (offered p item) = item.record_count
  unstepped _ = 0

  -- The answers that the totals have and the step does not have yet.
  abbrev pub unnoted : Worker F → ℕ
  unnoted (counted item r) = 1
  unnoted _ = 0

  abbrev pub unnoted_failures : Worker F → ℕ
  unnoted_failures (counted item r) = if r.ok then 0 else 1
  unnoted_failures _ = 0

  abbrev pub unnoted_accepted : Worker F → ℕ
  unnoted_accepted (counted item r) = if r.ok then item.record_count else 0
  unnoted_accepted _ = 0

  abbrev pub unnoted_rejected : Worker F → ℕ
  unnoted_rejected (counted item r) =
      if r.ok then 0 else if is_rejection r then item.record_count else 0
  unnoted_rejected _ = 0

  -- The failures of a step are counted once by status code and are among its requests.
  abbrev pub Coded : StepResult F → Type 0
  Coded r = (sum_values r.errors_by_code ≡ r.failures) × (r.failures ≤ r.requests)

  abbrev pub OpenCoded : Option (StepResult F) → Type 0
  OpenCoded none = Unit
  OpenCoded (some r) = Coded r

  pub record Steps (e : Engine F) : Type 0 where
    pub offers : stepped (λ r. r.offered) e + unstepped e.pacer ≡ e.metrics.totals.records_offered
    pub requests :
        stepped (λ r. r.requests) e + sum_by unnoted e.workers ≤ e.metrics.totals.requests_sent
    pub failures :
        stepped (λ r. r.failures) e + sum_by unnoted_failures e.workers
        ≤ e.metrics.totals.requests_failed
    pub accepts :
        stepped (λ r. r.accepted) e + sum_by unnoted_accepted e.workers
        ≤ e.metrics.totals.records_accepted
    pub rejects :
        stepped (λ r. r.rejected) e + sum_by unnoted_rejected e.workers
        ≤ e.metrics.totals.records_rejected
    pub coded : All Coded e.results
    pub open_coded : OpenCoded e.step
