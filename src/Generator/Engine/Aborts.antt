-- ===== src/Generator/Engine/Aborts.antt =====
-- `_stop` of generator/src/loadgen.py: what follows once it is set.
use analytics_testing.Base.{
  ℕ, ◌+◌, ◌≡◌, ◌≢◌, ◌≤◌, refl, Bool, true, Option, none, some, List, [], ◌∷◌, replicate, length,
  length-append, get_elem?, arith,
}
use analytics_testing.Base.Float.{Float}
use analytics_testing.Generator.Metrics.State.{Metrics}
use analytics_testing.Generator.Payload.{PayloadFactory}
use analytics_testing.Generator.Engine.State.{
  Step, StepResult, WorkItem, Outcome, Pacer, idle, resting, due, putting, refused, Worker, Engine,
  Workload,
}
use analytics_testing.Generator.Engine.Pacing.{begin_step}
use analytics_testing.Generator.Engine.Sending.{take_item}
use analytics_testing.Generator.Engine.{
  Event, begin, pace, work, interrupt, shut_down, start, pace_from, work_from, shut, begin_from,
  act, run,
}
use analytics_testing.Generator.Engine.Steps.Defs.{of_step}
use analytics_testing.Generator.Engine.Tiling.Once.{IsStocked}
use analytics_testing.Generator.Engine.Ledger.Defs.{PacerSized}
use analytics_testing.Generator.Engine.Ledger.Totals.{start-IsSound}

module _ {F : Type 0} where
  take_item-unchanged :
      (w : ℕ) (e : Engine F)
      → let e' = take_item w e in
        (e'.stop ≡ e.stop)
        × (e'.next_seq ≡ e.next_seq)
        × (e'.abort_reason ≡ e.abort_reason)
        × (e'.cfg ≡ e.cfg)
  unfolding take_item
  take_item-unchanged w e = by_queue e.queue refl
    where
      by_queue :
          (q : List (Option WorkItem))
          → e.queue ≡ q
          → let e' = take_item w e in
            (e'.stop ≡ e.stop)
            × (e'.next_seq ≡ e.next_seq)
            × (e'.abort_reason ≡ e.abort_reason)
            × (e'.cfg ≡ e.cfg)
      by_queue [] eq = rw (eq, take_item) (refl, refl, refl, refl)
      by_queue (item ∷ rest) eq = rw (eq, take_item) (refl, refl, refl, refl)

module _ {F : Type 0} ⦃fl : Float F⦄ where
  -- The batch that the pacer may still reserve: it is past the look at `_stop`.
  abbrev pub still_due : ℕ → Pacer F → ℕ
  still_due b (resting p) = b
  still_due b (due p) = b
  still_due b _ = 0

  -- What a stopped engine keeps: it stays stopped, and gives out no more than that batch.
  Halts : Engine F → Engine F → Type 0
  Halts e e' =
      (e'.stop ≡ true)
      × (e'.next_seq + still_due e'.cfg.batch_size e'.pacer
          ≤ e.next_seq + still_due e.cfg.batch_size e.pacer)

  -- What the pacer holds is given out.
  Held : Pacer F → ℕ → Type 0
  Held (putting p item) next = item.seq_start ≤ next
  Held (refused item) next = item.seq_start ≤ next
  Held _ next = Unit

  pace_from-Halts :
      (p : Pacer F) (now : F) (flag : Bool) (e : Engine F)
      → e.pacer ≡ p
      → e.stop ≡ true
      → Held p e.next_seq
      → let e' = pace_from p now flag e in Halts e e' × Held e'.pacer e'.next_seq
  unfolding pace_from Held Halts
  pace_from-Halts p now flag e at s h = ground (arith, at, s, h)

  work_from-Halts :
      (p : Worker F) (w now : ℕ) (outcome : Outcome F) (e : Engine F)
      → e.stop ≡ true
      → let e' = work_from p w now outcome e in
        (e'.stop ≡ true) × (e'.next_seq ≡ e.next_seq) × (e'.pacer ≡ e.pacer) × (e'.cfg ≡ e.cfg)
  unfolding work_from
  work_from-Halts p w now outcome e s = ground (arith, s, take_item-unchanged w e)

  begin_from-Halts :
      (p : Pacer F) (step : Step F) (wall started : F) (e : Engine F)
      → e.pacer ≡ p
      → e.stop ≡ true
      → Held p e.next_seq
      → let e' = begin_from p step wall started e in Halts e e' × Held e'.pacer e'.next_seq
  unfolding begin_step Held Halts
  begin_from-Halts p step wall started e at s h = ground (arith, at, s, h)

  act-Halts :
      (ev : Event F) (e : Engine F)
      → e.stop ≡ true
      → Held e.pacer e.next_seq
      → Halts e (act ev e) × Held (act ev e).pacer (act ev e).next_seq
  unfolding act shut Halts
  act-Halts (begin step wall started) e s h = begin_from-Halts e.pacer step wall started e refl s h
  act-Halts (pace now flag) e s h = pace_from-Halts e.pacer now flag e refl s h
  act-Halts (work w now outcome) e s h = by_worker (get_elem? e.workers w) refl
    where
      by_worker :
          (o : Option (Worker F))
          → get_elem? e.workers w ≡ o
          → let e' = act (work w now outcome) e in Halts e e' × Held e'.pacer e'.next_seq
      by_worker none at = rw (at, act) ((s, omega arith), h)
      by_worker (some p) at =
          let x = work_from-Halts p w now outcome e s in
          rw (at, act) ((x.0, rw (x.1, x.2, x.3) (omega arith)), rw (x.1, x.2) h)
  act-Halts interrupt e s h = ((refl, omega arith), h)
  act-Halts shut_down e s h = ((refl, omega arith), h)

  run-Halts :
      (evs : List (Event F)) (e : Engine F)
      → e.stop ≡ true
      → Held e.pacer e.next_seq
      → Halts e (run evs e)
  unfolding run Halts
  run-Halts [] e s h = (s, omega arith)
  run-Halts (ev ∷ evs) e s h =
      let x = act-Halts ev e s h in
      let ih = run-Halts evs (act ev e) x.0.0 x.1 in (ih.0, omega (arith, x.0.1, ih.1))

  Sized-Held : (b : ℕ) (p : Pacer F) (next : ℕ) → PacerSized b p next → Held p next
  unfolding Held
  Sized-Held b p next h = ground (arith, h)

  -- Once a reachable engine with a stocked pool and fresh counters at its start is stopped, by an
  -- abort, a signal or `stop`, every schedule from there leaves it stopped, and gives out no number
  -- that was not given out before, except for at most the one batch whose turn the pacer had already
  -- come to, or was waiting for, when it last looked at the stop flag.
  pub stop_is_final :
      (cfg : Workload) (workers : ℕ) (f : PayloadFactory F) (m : Metrics F) (e₀ : Engine F)
      (before after : List (Event F))
      → IsStocked cfg.batch_size f
      → m.totals.records_offered ≡ 0
      → m.totals.records_accepted ≡ 0
      → m.totals.records_rejected ≡ 0
      → start cfg workers f m ≡ some e₀
      → (run before e₀).stop ≡ true
      → let e = run before e₀ in
        let e' = run after e in
        (e'.stop ≡ true) × (e'.next_seq ≤ e.next_seq + still_due cfg.batch_size e.pacer)
  unfolding Halts
  stop_is_final cfg workers f m e₀ before after stock o a r h s =
      let e = run before e₀ in
      let l = (start-IsSound cfg workers f m e₀ before stock o a r h).1 in
      let x = run-Halts after e s (Sized-Held cfg.batch_size e.pacer e.next_seq l.sized_pacer) in
      let bound : (run after e).next_seq
            + still_due (run after e).cfg.batch_size (run after e).pacer
          ≤ e.next_seq + still_due cfg.batch_size e.pacer =
        rw (← l.batch) x.1 in
      (x.0, omega (arith, bound))

  -- A stopped engine ends its step: wherever the pacer stands in `run_step`, six of its moves bring
  -- it out, the drain timed out at the latest, whatever the clock says; no step is open then, and the
  -- one that was is one more result.
  pub stopped_step_ends :
      (now : F) (e : Engine F)
      → e.stop ≡ true
      → e.pacer ≢ idle
      → let e' = run (replicate 6 (pace now true)) e in
        (e'.pacer ≡ idle)
        × (e'.step ≡ none)
        × (length e'.results ≡ length e.results + of_step (λ r. 1) e.step)
  unfolding run
  stopped_step_ends now e s busy = by_step e.step refl
    where
      by_step :
          (o : Option (StepResult F))
          → e.step ≡ o
          → let e' = run (replicate 6 (pace now true)) e in
            (e'.pacer ≡ idle)
            × (e'.step ≡ none)
            × (length e'.results ≡ length e.results + of_step (λ r. 1) e.step)
      by_step none q = ground (arith, s, busy, q)
      by_step (some r) q = grind (arith, s, busy, q, length-append)
