-- ===== src/Generator/Main.antt =====
-- generator/src/main.py: the rule that stops a staircase, and the reconciliation contract that
-- manifest.json states.
pub mod Launch
pub mod Started
pub mod Loop
use analytics_testing.Base.{
  ℕ, zero, suc, Bool, false, ◌||◌, String, Option, none, some, List, [], ◌∷◌,
}
use analytics_testing.Base.Int.{ℤ, pos, negsuc}
use analytics_testing.Base.Dict.{Dict}
use analytics_testing.Base.Float.{Float}
use analytics_testing.Generator.Metrics.State.{Metrics}
use analytics_testing.Generator.Metrics.{snapshot}
use analytics_testing.Generator.Engine.State.{StepResult, Engine}

-- `stop_when` of a profile; a rule that is not there is `none`.
pub record StopRules (F : Type 0) : Type 0 where
  pub accepted_ratio_below : Option F
  pub error_rate_above : Option F
  pub latency_p99_ms_above : Option F

-- The fields of manifest.json that reconcile a run.
pub record RunManifest : Type 0 where
  pub gen_id : String
  pub seq_min : ℕ
  pub seq_max : ℤ
  pub total_offered : ℕ
  pub total_accepted : ℕ
  pub total_rejected : ℕ
  pub requests_sent : ℕ
  pub requests_failed : ℕ
  pub errors_by_code : Dict ℕ

module _ {F : Type 0} ⦃fl : Float F⦄ where
  open fl use {lit, div, lt}

  -- `StepResult.accepted_ratio`
  unfoldable pub accepted_ratio : StepResult F → F
  accepted_ratio r = elim r.offered [
    | zero ↦ lit 0 1
    | suc n ↦ div (lit r.accepted 1) (lit (suc n) 1)
  ]

  ratio_stops : Option F → StepResult F → Bool
  unfolding accepted_ratio
  ratio_stops none r = false
  ratio_stops (some limit) r = elim r.offered [ zero ↦ false | suc n ↦ lt (accepted_ratio r) limit ]

  errors_stop : Option F → StepResult F → Bool
  errors_stop none r = false
  errors_stop (some limit) r = elim r.requests [
    | zero ↦ false
    | suc n ↦ lt limit (div (lit r.failures 1) (lit (suc n) 1))
  ]

  latency_stops : Option F → F → Bool
  latency_stops none p99 = false
  latency_stops (some limit) p99 = lt limit p99

  -- `_should_stop` at the time `now`.
  unfoldable pub should_stop : StopRules F → StepResult F → F → Metrics F → Bool
  unfolding ratio_stops errors_stop latency_stops snapshot
  should_stop rules r now m =
      ratio_stops rules.accepted_ratio_below r
      || errors_stop rules.error_rate_above r
      || latency_stops rules.latency_p99_ms_above (snapshot now m).latency_p99_ms

module _ {F : Type 0} where
  -- `step_results[0].seq_start if step_results else 0`
  abbrev pub seq_min_of : List (StepResult F) → ℕ
  seq_min_of [] = 0
  seq_min_of (r ∷ rs) = r.seq_start

  -- `step_results[-1].seq_end if step_results else -1`
  abbrev pub seq_max_of : List (StepResult F) → ℤ
  seq_max_of [] = negsuc 0
  seq_max_of (r ∷ []) = pos r.seq_end
  seq_max_of (r ∷ s ∷ rs) = seq_max_of (s ∷ rs)

  -- The manifest that `main` writes after the last step.
  unfoldable pub manifest : Engine F → RunManifest
  manifest e =
      let t = e.metrics.totals in
      record {
        gen_id = e.factory.gen_id;
        seq_min = seq_min_of e.results;
        seq_max = seq_max_of e.results;
        total_offered = t.records_offered;
        total_accepted = t.records_accepted;
        total_rejected = t.records_rejected;
        requests_sent = t.requests_sent;
        requests_failed = t.requests_failed;
        errors_by_code = t.errors_by_code;
      }
