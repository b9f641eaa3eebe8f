-- ===== src/Generator/Engine/Steps/Runs.antt =====
-- The step counters along a whole schedule.
use analytics_testing.Base.{
  ℕ, ◌+◌, ◌≡◌, ◌≤◌, refl, subst, Bool, Option, none, some, List, [], ◌∷◌, All, All-append,
  sum_by-append, sum_by-replicate, get_elem?, arith,
}
use analytics_testing.Base.Float.{Float}
use analytics_testing.Generator.Metrics.State.{Metrics}
use analytics_testing.Generator.Metrics.{set_step, record_offered, record_stall}
use analytics_testing.Generator.Payload.{PayloadFactory}
use analytics_testing.Generator.Engine.State.{
  Step, StepResult, Pacer, idle, offered, drained, Worker, waiting, Engine, Workload,
}
use analytics_testing.Generator.Engine.Pacing.{begin_step, seq_end_of}
use analytics_testing.Generator.Engine.{
  Event, begin, pace, work, interrupt, shut_down, initial, start, pace_from, shut, begin_from, act,
  run,
}
use analytics_testing.Generator.Engine.Ledger.Runs.{IsSound, act-IsSound}
use analytics_testing.Generator.Engine.Ledger.Totals.{start-IsSound}
use analytics_testing.Generator.Engine.Spans.{Spans, act-Spans, start-Spans}
use analytics_testing.Generator.Engine.Tiling.Once.{IsStocked, start-eq-some}
use analytics_testing.Generator.Engine.Steps.Defs.{
  Steps, stepped, unstepped, unnoted, unnoted_failures, unnoted_accepted, unnoted_rejected, Coded,
}
use analytics_testing.Generator.Engine.Steps.Works.{work_from-Steps}

module _ {F : Type 0} ⦃fl : Float F⦄ where
  pace_from-Steps :
      (p : Pacer F) (now : F) (flag : Bool) (e : Engine F)
      → e.pacer ≡ p
      → Spans e
      → Steps e
      → Steps (pace_from p now flag e)
  unfolding pace_from record_stall record_offered
  pace_from-Steps drained now flag e at s h = by_step e.step refl
    where
      by_step : (o : Option (StepResult F)) → e.step ≡ o → Steps (pace_from drained now flag e)
      by_step none q = ground (arith, at, q, s.opened)
      by_step (some r) q =
          let done : StepResult F = record r {
            ended_at = now;
            seq_end = seq_end_of r.seq_start e.next_seq;
          } in
          ground (
            arith,
            at,
            q,
            sum_by-append (λ (x : StepResult F). x.offered) e.results (done ∷ []),
            sum_by-append (λ (x : StepResult F). x.requests) e.results (done ∷ []),
            sum_by-append (λ (x : StepResult F). x.failures) e.results (done ∷ []),
            sum_by-append (λ (x : StepResult F). x.accepted) e.results (done ∷ []),
            sum_by-append (λ (x : StepResult F). x.rejected) e.results (done ∷ []),
            All-append Coded e.results (done ∷ []) h.coded,
          )
  pace_from-Steps (offered p item) now flag e at s h = by_step e.step refl
    where
      by_step :
          (o : Option (StepResult F)) → e.step ≡ o → Steps (pace_from (offered p item) now flag e)
      by_step none q = ground (arith, at, q, s.opened)
      by_step (some r) q = ground (arith, at, q)
  pace_from-Steps _ now flag e at s h = ground arith

  begin_from-Steps :
      (p : Pacer F) (step : Step F) (wall started : F) (e : Engine F)
      → e.pacer ≡ p
      → Spans e
      → Steps e
      → Steps (begin_from p step wall started e)
  unfolding begin_step set_step
  begin_from-Steps idle step wall started e at s h = by_step e.step refl
    where
      by_step :
          (o : Option (StepResult F)) → e.step ≡ o → Steps (begin_from idle step wall started e)
      by_step none q = ground (arith, at, q)
      by_step (some r) q = ground (arith, at, q, s.opened)
  begin_from-Steps _ step wall started e at s h = h

  act-Steps : (ev : Event F) (e : Engine F) → Spans e → Steps e → Steps (act ev e)
  unfolding act shut
  act-Steps (begin step wall started) e s h = begin_from-Steps e.pacer step wall started e refl s h
  act-Steps (pace now flag) e s h = pace_from-Steps e.pacer now flag e refl s h
  act-Steps (work w now outcome) e s h = by_worker (get_elem? e.workers w) refl
    where
      by_worker :
          (o : Option (Worker F)) → get_elem? e.workers w ≡ o → Steps (act (work w now outcome) e)
      by_worker none at = rw (at, act) h
      by_worker (some p) at = rw (at, act) (work_from-Steps p w now outcome e at h)
  act-Steps interrupt e s h = ground (arith, h)
  act-Steps shut_down e s h = ground (arith, h)

  run-Steps :
      (b : ℕ) (evs : List (Event F)) (e : Engine F)
      → IsSound b e
      → Spans e
      → Steps e
      → Steps (run evs e)
  unfolding run
  run-Steps b [] e l s h = h
  run-Steps b (ev ∷ evs) e l s h =
      run-Steps b evs (act ev e) (act-IsSound b ev e l) (act-Spans b ev e l.1 s)
        (act-Steps ev e s h)

  initial-Steps :
      (cfg : Workload) (workers : ℕ) (f : PayloadFactory F) (m : Metrics F)
      → m.totals.records_offered ≡ 0
      → Steps (initial cfg workers f m)
  unfolding initial
  initial-Steps cfg workers f m o = ground (
    arith,
    o,
    sum_by-replicate (unnoted {F = F}) workers waiting,
    sum_by-replicate (unnoted_failures {F = F}) workers waiting,
    sum_by-replicate (unnoted_accepted {F = F}) workers waiting,
    sum_by-replicate (unnoted_rejected {F = F}) workers waiting,
  )

  -- Under every schedule, from a started engine with a full pool and fresh counters: the records that
  -- the step results and the open step count as offered are those of the totals, less the one batch
  -- that the pacer is about to count; their requests, failures, accepted and rejected records are no
  -- more than those of the totals; and each step result counts its failures once by status code and
  -- among its requests.
  pub steps_add_up :
      (cfg : Workload) (workers : ℕ) (f : PayloadFactory F) (m : Metrics F) (e₀ : Engine F)
      (evs : List (Event F))
      → IsStocked cfg.batch_size f
      → m.totals.records_offered ≡ 0
      → m.totals.records_accepted ≡ 0
      → m.totals.records_rejected ≡ 0
      → start cfg workers f m ≡ some e₀
      → let e = run evs e₀ in
        let t = e.metrics.totals in
        (stepped (λ r. r.offered) e + unstepped e.pacer ≡ t.records_offered)
        × (stepped (λ r. r.requests) e ≤ t.requests_sent)
        × (stepped (λ r. r.failures) e ≤ t.requests_failed)
        × (stepped (λ r. r.accepted) e ≤ t.records_accepted)
        × (stepped (λ r. r.rejected) e ≤ t.records_rejected)
        × All Coded e.results
  unfolding run
  steps_add_up cfg workers f m e₀ evs stock o a r h =
      let same = (start-eq-some cfg workers f m e₀ h).1 in
      let s =
        run-Steps cfg.batch_size evs e₀ (start-IsSound cfg workers f m e₀ [] stock o a r h)
          (start-Spans cfg workers f m e₀ [] stock o a r h)
          (subst Steps same (initial-Steps cfg workers f m o)) in
      (
        s.offers,
        omega (arith, s.requests),
        omega (arith, s.failures),
        omega (arith, s.accepts),
        omega (arith, s.rejects),
        s.coded,
      )
