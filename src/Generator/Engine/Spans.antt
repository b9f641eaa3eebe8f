-- ===== src/Generator/Engine/Spans.antt =====
-- The sequence ranges of the step results of generator/src/loadgen.py, against the numbers given out.
use analytics_testing.Base.{
  ℕ, ◌≤◌, ◌≡◌, refl, subst, Option, none, some, List, [], ◌∷◌, ◌++◌, get_elem?, arith, Bool,
}
use analytics_testing.Base.Float.{Float}
use analytics_testing.Generator.Metrics.State.{Metrics}
use analytics_testing.Generator.Payload.{PayloadFactory}
use analytics_testing.Generator.Engine.State.{
  Step, StepResult, WorkItem, Outcome, Pacer, idle, putting, refused, drained, Worker, waiting,
  exited, Engine, Workload,
}
use analytics_testing.Generator.Engine.Pacing.{begin_step, note_stall, finish_step, seq_end_of}
use analytics_testing.Generator.Engine.Sending.{take_item}
use analytics_testing.Generator.Engine.{
  Event, begin, pace, work, interrupt, shut_down, initial, start, pace_from, work_from, shut,
  begin_from, act, run,
}
use analytics_testing.Generator.Engine.Ledger.Defs.{Ledger}
use analytics_testing.Generator.Engine.Ledger.Runs.{IsSound, act-IsSound}
use analytics_testing.Generator.Engine.Ledger.Totals.{start-IsSound}
use analytics_testing.Generator.Engine.Tiling.Once.{IsStocked, start-eq-some}

module _ {F : Type 0} where
  -- Where the open step's range starts.
  abbrev pub start_of : Option (StepResult F) → Option ℕ
  start_of none = none
  start_of (some r) = some r.seq_start

  -- A step is open exactly while the pacer is in `run_step`, and gives out numbers from its start on.
  abbrev Opened : Pacer F → Option ℕ → ℕ → Type 0
  Opened idle none next = Unit
  Opened idle (some s) next = ⊥
  Opened _ none next = ⊥
  Opened (putting p item) (some s) next = s ≤ item.seq_start
  Opened (refused item) (some s) next = s ≤ item.seq_start
  Opened _ (some s) next = s ≤ next

  abbrev First : List (StepResult F) → Option ℕ → ℕ → Type 0
  First (r ∷ rs) o next = r.seq_start ≡ 0
  First [] (some s) next = s ≡ 0
  First [] none next = next ≡ 0

  abbrev pub LastFits : List (StepResult F) → ℕ → Type 0
  LastFits [] next = Unit
  LastFits (r ∷ []) next = (r.seq_end ≡ seq_end_of r.seq_start next) × (r.seq_start ≤ next)
  LastFits (r ∷ s ∷ rs) next = LastFits (s ∷ rs) next

  abbrev LastOf : Pacer F → List (StepResult F) → ℕ → Type 0
  LastOf idle rs next = LastFits rs next
  LastOf _ rs next = Unit

  pub record Spans (e : Engine F) : Type 0 where
    pub opened : Opened e.pacer (start_of e.step) e.next_seq
    pub first : First e.results (start_of e.step) e.next_seq
    pub last : LastOf e.pacer e.results e.next_seq

  First-append :
      (rs : List (StepResult F)) (r : StepResult F) (s next : ℕ)
      → r.seq_start ≡ s
      → First rs (some s) next
      → First (rs ++ r ∷ []) none next
  First-append [] r s next e h = ground arith
  First-append (q ∷ rs) r s next e h = h

  First-begin :
      (rs : List (StepResult F)) (o : Option ℕ) (next : ℕ)
      → o ≡ none
      → First rs o next
      → First rs (some next) next
  First-begin [] none next e h = h
  First-begin [] (some s) next e h = cc
  First-begin (r ∷ rs) o next e h = h

  LastFits-append :
      (rs : List (StepResult F)) (r : StepResult F) (next : ℕ)
      → r.seq_end ≡ seq_end_of r.seq_start next
      → r.seq_start ≤ next
      → LastFits (rs ++ r ∷ []) next
  LastFits-append [] r next e h = (e, h)
  LastFits-append (q ∷ []) r next e h = (e, h)
  LastFits-append (q ∷ s ∷ rs) r next e h = LastFits-append (s ∷ rs) r next e h

module _ {F : Type 0} ⦃fl : Float F⦄ where
  finish_step-Spans :
      (wall : F) (e : Engine F) → e.pacer ≡ drained → Spans e → Spans (finish_step wall e)
  unfolding finish_step
  finish_step-Spans wall e at h = by_step e.step refl
    where
      by_step : (o : Option (StepResult F)) → e.step ≡ o → Spans (finish_step wall e)
      by_step none q = ground (arith, at, q, h.opened)
      by_step (some r) q =
          let done : StepResult F = record r {
            ended_at = wall;
            seq_end = seq_end_of r.seq_start e.next_seq;
          } in
          let below : r.seq_start ≤ e.next_seq = ground (arith, at, q, h.opened) in
          let first : First e.results (some r.seq_start) e.next_seq = rw q at h.first in
          rw (q, finish_step)
            (record {
              opened = tt;
              first = First-append e.results done r.seq_start e.next_seq refl first;
              last = LastFits-append e.results done e.next_seq refl below;
            })

  -- `give_back` and the others see the start of the step only.
  start_of-note_stall :
      (stalled : F) (e : Engine F)
      → (start_of (note_stall stalled e).step ≡ start_of e.step)
        × ((note_stall stalled e).results ≡ e.results)
        × ((note_stall stalled e).next_seq ≡ e.next_seq)
  unfolding note_stall
  start_of-note_stall stalled e = ground arith

  pace_from-Spans :
      (b : ℕ) (p : Pacer F) (now : F) (flag : Bool) (e : Engine F)
      → e.pacer ≡ p
      → Ledger b e
      → Spans e
      → Spans (pace_from p now flag e)
  unfolding pace_from
  pace_from-Spans b idle now flag e at l h = h
  pace_from-Spans b drained now flag e at l h = finish_step-Spans now e at h
  pace_from-Spans b _ now flag e at l h = ground arith

  -- What `Spans` reads.
  abbrev pub SameSpans : Engine F → Engine F → Type 0
  SameSpans e' e =
      (e'.pacer ≡ e.pacer)
      × (start_of e'.step ≡ start_of e.step)
      × (e'.results ≡ e.results)
      × (e'.next_seq ≡ e.next_seq)

  take_item-SameSpans : (w : ℕ) (e : Engine F) → SameSpans (take_item w e) e
  unfolding take_item
  take_item-SameSpans w e = by_queue e.queue refl
    where
      by_queue : (q : List (Option WorkItem)) → e.queue ≡ q → SameSpans (take_item w e) e
      by_queue [] eq = rw (eq, take_item) (refl, refl, refl, refl)
      by_queue (item ∷ rest) eq = rw (eq, take_item) (refl, refl, refl, refl)

  -- A worker moves none of it.
  pub work_from-SameSpans :
      (p : Worker F) (w now : ℕ) (outcome : Outcome F) (e : Engine F)
      → SameSpans (work_from p w now outcome e) e
  unfolding work_from
  work_from-SameSpans waiting w now outcome e = take_item-SameSpans w e
  work_from-SameSpans exited w now outcome e = (refl, refl, refl, refl)
  work_from-SameSpans _ w now outcome e = ground arith

  SameSpans-Spans : (e' e : Engine F) → SameSpans e' e → Spans e → Spans e'
  SameSpans-Spans e' e s h = record {
    opened = rw (s.0, s.1, s.3) h.opened;
    first = rw (s.2, s.1, s.3) h.first;
    last = rw (s.0, s.2, s.3) h.last;
  }

  begin_from-Spans :
      (p : Pacer F) (step : Step F) (wall started : F) (e : Engine F)
      → e.pacer ≡ p
      → Spans e
      → Spans (begin_from p step wall started e)
  unfolding begin_step
  begin_from-Spans idle step wall started e at h =
      let none_open : start_of e.step ≡ none = closed (start_of e.step) (rw at at h.opened) in
      let first = First-begin e.results (start_of e.step) e.next_seq none_open h.first in
      ground (arith, at, h.opened, h.first, h.last, none_open, first)
    where
      closed : (o : Option ℕ) → Opened {F = F} idle o e.next_seq → o ≡ none
      closed none h = refl
      closed (some s) h = absurd h
  begin_from-Spans _ step wall started e at h = h

  pub act-Spans : (b : ℕ) (ev : Event F) (e : Engine F) → Ledger b e → Spans e → Spans (act ev e)
  unfolding act shut
  act-Spans b (begin step wall started) e l h = begin_from-Spans e.pacer step wall started e refl h
  act-Spans b (pace now flag) e l h = pace_from-Spans b e.pacer now flag e refl l h
  act-Spans b (work w now outcome) e l h = by_worker (get_elem? e.workers w) refl
    where
      by_worker :
          (o : Option (Worker F)) → get_elem? e.workers w ≡ o → Spans (act (work w now outcome) e)
      by_worker none at = rw (at, act) h
      by_worker (some p) at =
          rw (at, act) (SameSpans-Spans _ e (work_from-SameSpans p w now outcome e) h)
  act-Spans b interrupt e l h = record { opened = h.opened; first = h.first; last = h.last }
  act-Spans b shut_down e l h = record { opened = h.opened; first = h.first; last = h.last }

  run-Spans :
      (b : ℕ) (evs : List (Event F)) (e : Engine F) → IsSound b e → Spans e → Spans (run evs e)
  unfolding run
  run-Spans b [] e s h = h
  run-Spans b (ev ∷ evs) e s h =
      run-Spans b evs (act ev e) (act-IsSound b ev e s) (act-Spans b ev e s.1 h)

  -- Under every schedule, from a started engine with a full pool and fresh counters: a step is open
  -- exactly while the pacer is in `run_step`, and starts no later than what it gives out; the first
  -- step result starts at 0; and while no step is open the last one ends at
  -- max(seq_start, next_seq - 1).
  pub start-Spans :
      (cfg : Workload) (workers : ℕ) (f : PayloadFactory F) (m : Metrics F) (e₀ : Engine F)
      (evs : List (Event F))
      → IsStocked cfg.batch_size f
      → m.totals.records_offered ≡ 0
      → m.totals.records_accepted ≡ 0
      → m.totals.records_rejected ≡ 0
      → start cfg workers f m ≡ some e₀
      → Spans (run evs e₀)
  unfolding initial run
  start-Spans cfg workers f m e₀ evs stock o a r h =
      run-Spans cfg.batch_size evs e₀ (start-IsSound cfg workers f m e₀ [] stock o a r h) (
        subst Spans (start-eq-some cfg workers f m e₀ h).1
          (record { opened = tt; first = refl; last = tt }))
