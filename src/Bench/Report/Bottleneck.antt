-- ===== src/Bench/Report/Bottleneck.antt =====
-- When bench/report.py says that a run did not reach the ceiling.
use analytics_testing.Base.{
  ◌<◌, ◌≡◌, ◌≢◌, refl, Bool, true, false, Option, some, List, [], All, if◌then◌else◌,
}
use analytics_testing.Base.Dict.{Dict, get_default}
use analytics_testing.Bench.Statistics.{series}
use analytics_testing.Base.Float.{Float}
use analytics_testing.Bench.Report.{
  Run, Constraint, Backlog, duration_of, not_reached, analyse_backlog,
}

module _ {F : Type 0} where
  -- The first of the tests that holds decides.
  passes :
      (b : Bool) (x y : Constraint F)
      → x ≢ not_reached
      → (if b then x else y) ≡ not_reached
      → (b ≡ false) × (y ≡ not_reached)
  passes true x y h e = absurd (h e)
  passes false x y h e = (refl, e)

module _ {F : Type 0} ⦃fl : Float F⦄ (fmean : List F → F) where
  open fl use {lit, lt, div, mul}

  -- What a run has to show: its figures, each compared as the report's text says.
  pub record IsUnconstrained (run : Run F) : Type 0 where
    pub direct : get_default "direct" run.transport ≡ "direct"
    pub offered : 0 < run.totals.records_offered
    pub rejected : run.totals.records_rejected ≡ 0
    pub accepted :
        lt (div (lit run.totals.records_accepted 1) (lit run.totals.records_offered 1)) (lit 99 100)
        ≡ false
    pub flat :
        (b : Backlog F)
        → analyse_backlog fmean run.pipeline ≡ some b
        → lt (lit 1 2) b.files_slope_per_min ≡ false
    pub unstalled :
        lt (lit 10 100) (
          div
            (get_default (lit 0 1) run.totals.stalled_ms)
            (mul (duration_of run.totals.duration_seconds) (lit 1000 1)))
        ≡ false
    pub idle :
        All (λ host. (series host.1 ≢ []) → lt (lit 85 1) (fmean (series host.1)) ≡ false) run.hosts

  IsIdle : Dict (List (Option F)) → Type 0
  IsIdle hosts =
      All (λ host. (series host.1 ≢ []) → lt (lit 85 1) (fmean (series host.1)) ≡ false) hosts
