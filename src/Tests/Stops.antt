-- ===== src/Tests/Stops.antt =====
-- A step that an abort ends, with the engine of generator/src/loadgen.py.
use analytics_testing.Base.{
  ◌+◌, ◌≡◌, ◌≢◌, ◌≤◌, refl, true, false, none, some, List, ◌∷◌, ◌++◌, All, length, replicate, arith,
}
use analytics_testing.Base.Int.{◌+ℤ◌}
use analytics_testing.Base.Float.{Milli, milli_float}
use analytics_testing.Generator.Metrics.{
  new_metrics, record_failure, record_inflight, record_offered, record_success, set_step,
}
use analytics_testing.Generator.Payload.{new_factory, template_for}
use analytics_testing.Generator.Engine.State.{Workload, Engine, idle}
use analytics_testing.Generator.Engine.{Event, begin, pace, initial, start, run}
use analytics_testing.Generator.Engine.Steps.Defs.{stepped, of_step, unstepped, Coded}
use analytics_testing.Generator.Engine.Steps.Runs.{steps_add_up}
use analytics_testing.Generator.Engine.Aborts.{still_due, stop_is_final, stopped_step_ends}
use analytics_testing.Tests.Runs.{
  factory, metrics, engine, workload, answer, step, one_batch, one_item, events, factory-IsStocked,
  started,
}

steps_add_up_example :
    let e = run events engine in
    let t = e.metrics.totals in
    (stepped (λ r. r.offered) e + unstepped e.pacer ≡ t.records_offered)
    × (stepped (λ r. r.requests) e ≤ t.requests_sent)
    × (stepped (λ r. r.failures) e ≤ t.requests_failed)
    × (stepped (λ r. r.accepted) e ≤ t.records_accepted)
    × (stepped (λ r. r.rejected) e ≤ t.records_rejected)
    × All Coded e.results
unfolding new_metrics
steps_add_up_example =
    steps_add_up workload 2 factory metrics engine events factory-IsStocked refl refl refl started

abbrev impatient : Workload
impatient = record workload { abort_on_consecutive_failures = 1 }

abbrev impatient_engine : Engine Milli
impatient_engine = initial impatient 2 factory metrics

impatient_started : start impatient 2 factory metrics ≡ some impatient_engine
unfolding start new_factory
impatient_started = refl

abbrev outage : List (Event Milli)
outage =
    begin step 0 0 ∷ one_batch 0
    ++ one_item 1 (answer false "UNAVAILABLE")
    ++ one_item 1 (answer false "UNAVAILABLE")

outage_stops : (run outage impatient_engine).stop ≡ true
unfolding run new_metrics new_factory initial template_for record_failure record_inflight ◌+ℤ◌
    record_offered record_success set_step
outage_stops = refl

outage_busy : (run outage impatient_engine).pacer ≢ idle
unfolding run new_metrics new_factory initial template_for record_failure record_inflight ◌+ℤ◌
    record_offered record_success set_step
outage_busy = λ e. ground (arith, e)

stop_is_final_example :
    let e' = run (one_batch 1000) (run outage impatient_engine) in
    (e'.stop ≡ true)
    × (e'.next_seq
        ≤ (run outage impatient_engine).next_seq + still_due 2 (run outage impatient_engine).pacer)
unfolding new_metrics
stop_is_final_example =
    stop_is_final impatient 2 factory metrics impatient_engine outage (one_batch 1000)
      factory-IsStocked refl refl refl impatient_started outage_stops

stopped_step_ends_example :
    let e = run outage impatient_engine in
    let e' = run (replicate 6 (pace 1000 true)) e in
    (e'.pacer ≡ idle)
    × (e'.step ≡ none)
    × (length e'.results ≡ length e.results + of_step (λ r. 1) e.step)
stopped_step_ends_example =
    stopped_step_ends 1000 (run outage impatient_engine) outage_stops outage_busy
