-- ===== src/Generator/Main/Loop/Begun.antt =====
-- The steps that the engine of generator/src/loadgen.py has begun: no event but `begin` changes them.
use mathlib.Core.List.{append-nil}
use analytics_testing.Base.{
  ℕ, ◌≡◌, refl, sym, ◌∙◌, ap, subst, Bool, Option, none, some, List, [], ◌∷◌, ◌++◌, map, get_elem?,
  arith,
}
use analytics_testing.Base.Float.{Float}
use analytics_testing.Generator.Engine.State.{
  Step, StepResult, WorkItem, Outcome, Pacer, idle, Worker, waiting, exited, drained, Engine,
}
use analytics_testing.Generator.Engine.Pacing.{note_stall, finish_step}
use analytics_testing.Generator.Engine.Sending.{take_item}
use analytics_testing.Generator.Engine.Spans.{work_from-SameSpans}
use analytics_testing.Generator.Engine.{
  Event, pace, work, interrupt, shut_down, pace_from, work_from, shut, act,
}

module _ {F : Type 0} where
  -- The step that a result is of.
  abbrev pub step_of_result : StepResult F → Step F
  step_of_result r = record {
    index = r.index;
    rps = r.target_rps;
    duration_seconds = r.duration_seconds;
  }

  abbrev pub opened : Option (StepResult F) → List (Step F)
  opened none = []
  opened (some r) = step_of_result r ∷ []

  -- The steps that have results, and the one that is open.
  abbrev pub begun : Engine F → List (Step F)
  begun e = map step_of_result e.results ++ opened e.step

  map-append :
      (rs : List (StepResult F)) (r : StepResult F)
      → map step_of_result (rs ++ r ∷ []) ≡ map step_of_result rs ++ step_of_result r ∷ []
  map-append [] r = refl
  map-append (q ∷ rs) r = ap (λ x. step_of_result q ∷ x) (map-append rs r)

module _ {F : Type 0} ⦃fl : Float F⦄ where
  abbrev Same : Engine F → Engine F → Type 0
  Same e' e = (opened e'.step ≡ opened e.step) × (e'.results ≡ e.results)

  Same-begun : (e' e : Engine F) → Same e' e → begun e' ≡ begun e
  Same-begun e' e s = rw (s.0, s.1) refl

  finish_step-begun : (wall : F) (e : Engine F) → begun (finish_step wall e) ≡ begun e
  unfolding finish_step
  finish_step-begun wall e = by_step e.step refl
    where
      by_step : (o : Option (StepResult F)) → e.step ≡ o → begun (finish_step wall e) ≡ begun e
      by_step none q = rw (finish_step, q) (ap (λ o. map step_of_result e.results ++ opened o) q)
      by_step (some r) q = rw (finish_step, q) (append-nil _ ∙ map-append e.results _)

  pace_from-begun :
      (p : Pacer F) (now : F) (flag : Bool) (e : Engine F)
      → begun (pace_from p now flag e) ≡ begun e
  unfolding pace_from note_stall
  pace_from-begun drained now flag e = finish_step-begun now e
  pace_from-begun p now flag e = Same-begun (pace_from p now flag e) e (ground arith)

  take_item-Same : (w : ℕ) (e : Engine F) → Same (take_item w e) e
  unfolding take_item
  take_item-Same w e = by_queue e.queue refl
    where
      by_queue : (q : List (Option WorkItem)) → e.queue ≡ q → Same (take_item w e) e
      by_queue [] eq = rw (eq, take_item) (refl, refl)
      by_queue (item ∷ rest) eq = rw (eq, take_item) (refl, refl)

  work_from-Same :
      (p : Worker F) (w now : ℕ) (outcome : Outcome F) (e : Engine F)
      → Same (work_from p w now outcome e) e
  unfolding work_from
  work_from-Same waiting w now outcome e = take_item-Same w e
  work_from-Same exited w now outcome e = (refl, refl)
  work_from-Same _ w now outcome e = ground arith

  -- No step is open while the pacer is not in `run_step`.
  abbrev pub Closed : Engine F → Type 0
  Closed e = e.pacer ≡ idle → opened e.step ≡ []

  pace_from-Closed :
      (p : Pacer F) (now : F) (flag : Bool) (e : Engine F)
      → e.pacer ≡ p
      → Closed e
      → Closed (pace_from p now flag e)
  unfolding pace_from note_stall
  pace_from-Closed idle now flag e at h = h
  pace_from-Closed p now flag e at h = λ q. ground (arith, q, at)

  work_from-pacer :
      (p : Worker F) (w now : ℕ) (outcome : Outcome F) (e : Engine F)
      → (work_from p w now outcome e).pacer ≡ e.pacer
  work_from-pacer p w now outcome e = (work_from-SameSpans p w now outcome e).0

  -- What no event but `begin` changes.
  unfoldable pub Keeps : Event F → Engine F → Type 0
  Keeps ev e =
      (begun (act ev e) ≡ begun e) × Closed (act ev e) × (e.pacer ≡ idle → (act ev e).pacer ≡ idle)

  pub pace-Keeps : (now : F) (flag : Bool) (e : Engine F) → Closed e → Keeps (pace now flag) e
  unfolding Keeps act pace_from
  pace-Keeps now flag e h = (
    pace_from-begun e.pacer now flag e,
    pace_from-Closed e.pacer now flag e refl h,
    λ q. subst (λ p. (pace_from p now flag e).pacer ≡ idle) (sym q) q,
  )

  pub work-Keeps :
      (w now : ℕ) (outcome : Outcome F) (e : Engine F) → Closed e → Keeps (work w now outcome) e
  unfolding Keeps act
  work-Keeps w now outcome e h = by_worker (get_elem? e.workers w) refl
    where
      by_worker : (o : Option (Worker F)) → get_elem? e.workers w ≡ o → Keeps (work w now outcome) e
      by_worker none at = rw (Keeps, act, at) (refl, h, λ q. q)
      by_worker (some p) at =
          let same = work_from-Same p w now outcome e in
          let stays = work_from-pacer p w now outcome e in
          rw (Keeps, act, at)
            (
              Same-begun (work_from p w now outcome e) e same,
              λ q. same.0 ∙ h (sym stays ∙ q),
              λ q. stays ∙ q,
            )

  pub interrupt-Keeps : (e : Engine F) → Closed e → Keeps interrupt e
  unfolding Keeps act
  interrupt-Keeps e h = (refl, h, λ q. q)

  pub shut_down-Keeps : (e : Engine F) → Closed e → Keeps shut_down e
  unfolding Keeps act shut
  shut_down-Keeps e h = (refl, h, λ q. q)
