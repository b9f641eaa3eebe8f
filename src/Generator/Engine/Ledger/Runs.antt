-- ===== src/Generator/Engine/Ledger/Runs.antt =====
-- The ledger along a whole schedule, and what it says of the totals in manifest.json.
use analytics_testing.Base.{
  ℕ, zero, suc, ◌≡◌, refl, Option, none, some, List, [], ◌∷◌, ◌++◌, All, All-append, sum_by,
  sum_by-append, get_elem?, length, max, arith, ltb, Bool-cases, inl, inr,
}
use analytics_testing.Base.Float.{Float}
use analytics_testing.Generator.Metrics.{set_step}
use analytics_testing.Generator.Engine.State.{WorkItem, Pacer, idle, Worker, Engine, Step}
use analytics_testing.Generator.Engine.{
  Event, begin, pace, work, interrupt, shut_down, shut, put_sentinels, begin_from, act, run,
}
use analytics_testing.Generator.Engine.Pacing.{begin_step}
use analytics_testing.Generator.Engine.Tiling.Runs.{IsTiled, act-IsTiled}
use analytics_testing.Generator.Engine.Ledger.Defs.{Ledger, QueueSized, queue_size}
use analytics_testing.Generator.Engine.Ledger.Paces.{pace_from-Ledger}
use analytics_testing.Generator.Engine.Ledger.Works.{work_from-Ledger}

-- A sentinel is no item.
put_sentinels-sized :
    (b room k : ℕ) (queue : List (Option WorkItem))
    → All (QueueSized b) queue
    → All (QueueSized b) (put_sentinels room k queue)
      × (sum_by (queue_size b) (put_sentinels room k queue) ≡ sum_by (queue_size b) queue)
unfolding put_sentinels
put_sentinels-sized b room zero queue h = (h, refl)
put_sentinels-sized b room (suc k) queue h = elim (Bool-cases (ltb (length queue) room)) [
  | inl space ↦
      let more = All-append (QueueSized b) queue (none ∷ []) h (tt, tt) in
      let ih = put_sentinels-sized b room k (queue ++ none ∷ []) more in
      rw (space, put_sentinels)
        (ih.0, omega (arith, ih.1, sum_by-append (queue_size b) queue (none ∷ [])))
  | inr full ↦ rw (full, put_sentinels) (put_sentinels-sized b room k queue h)
]

module _ {F : Type 0} ⦃fl : Float F⦄ (b : ℕ) where
  begin_from-Ledger :
      (p : Pacer F) (step : Step F) (wall started : F) (e : Engine F)
      → e.pacer ≡ p
      → Ledger b e
      → Ledger b (begin_from p step wall started e)
  unfolding begin_step set_step
  begin_from-Ledger idle step wall started e at h = ground arith
  begin_from-Ledger _ step wall started e at h = h

  -- The pool, the tiling of every number, and the ledger.
  abbrev pub IsSound : Engine F → Type 0
  IsSound e = IsTiled b e × Ledger b e

  act-Ledger : (ev : Event F) (e : Engine F) → IsSound e → Ledger b (act ev e)
  unfolding act shut
  act-Ledger (begin step wall started) e h = begin_from-Ledger e.pacer step wall started e refl h.1
  act-Ledger (pace now flag) e h = pace_from-Ledger b e.pacer now flag e refl h.0.0 h.1
  act-Ledger (work w now outcome) e h = by_worker (get_elem? e.workers w) refl
    where
      by_worker :
          (o : Option (Worker F))
          → get_elem? e.workers w ≡ o
          → Ledger b (act (work w now outcome) e)
      by_worker none at = rw (at, act) h.1
      by_worker (some p) at = rw (at, act) (work_from-Ledger b p w now outcome e at h.0.0 h.1)
  act-Ledger interrupt e h = ground (arith, h.1)
  act-Ledger shut_down e h =
      let q =
        put_sentinels-sized b (max 1 e.cfg.max_inflight) (length e.workers) e.queue
          h.1.sized_queue in
      ground (arith, h.1, q.0, q.1)

  pub act-IsSound : (ev : Event F) (e : Engine F) → IsSound e → IsSound (act ev e)
  act-IsSound ev e h = (act-IsTiled b ev e h.0, act-Ledger ev e h)

  pub run-IsSound : (evs : List (Event F)) (e : Engine F) → IsSound e → IsSound (run evs e)
  unfolding run
  run-IsSound [] e h = h
  run-IsSound (ev ∷ evs) e h = run-IsSound evs (act ev e) (act-IsSound ev e h)
