-- ===== src/Generator/Engine/Tiling/Runs.antt =====
-- The two invariants along a whole schedule, from the start of the engine.
use analytics_testing.Base.{
  ℕ, zero, suc, ◌<◌, ◌≡◌, refl, Option, none, some, List, [], ◌∷◌, ◌++◌, sum_by, sum_by-append, max,
  get_elem?, get_elem?-lt, length, arith, inl, inr, Bool, ltb, Bool-cases,
}
use analytics_testing.Base.Float.{Float}
use analytics_testing.Generator.Engine.State.{
  WorkItem, Outcome, answered, raised, Pacer, idle, Worker, waiting, taken, stamped, sending,
  replied, landed, counted, noted, read_failures, failed_again, aborting, stopping, exited, Engine,
  Step,
}
use analytics_testing.Generator.Engine.{
  Event, begin, pace, work, interrupt, shut_down, pace_from, work_from, shut, put_sentinels,
  begin_from, act, run,
}
use analytics_testing.Generator.Engine.Pacing.{begin_step}
use analytics_testing.Generator.Engine.Sending.{take_item, stamp_item}
use analytics_testing.Generator.Engine.Tiling.Pool.{Pool, Pool-set, Pool-stamp, template_for-found}
use analytics_testing.Generator.Engine.Tiling.Weights.{queued, Tiling}
use analytics_testing.Generator.Engine.Tiling.Moves.{pace_from-Tiling}
use analytics_testing.Generator.Engine.Tiling.Works.{work_from-Tiling}

-- A sentinel holds no number.
queued-put_sentinels :
    (b n room k : ℕ) (queue : List (Option WorkItem))
    → sum_by (queued b n) (put_sentinels room k queue) ≡ sum_by (queued b n) queue
unfolding put_sentinels
queued-put_sentinels b n room zero queue = refl
queued-put_sentinels b n room (suc k) queue = elim (Bool-cases (ltb (length queue) room)) [
  | inl space ↦
      rw (space, put_sentinels)
        (omega (
          arith,
          queued-put_sentinels b n room k (queue ++ none ∷ []),
          sum_by-append (queued b n) queue (none ∷ []),
        ))
  | inr full ↦ rw (full, put_sentinels) (queued-put_sentinels b n room k queue)
]

module _ {F : Type 0} ⦃fl : Float F⦄ (b : ℕ) where
  abbrev pub HasPool : Engine F → Type 0
  HasPool e = Pool b e.factory e.workers

  -- The pacer leaves the pool and the workers alone.
  pace_from-pool :
      (p : Pacer F) (now : F) (flag : Bool) (e : Engine F)
      → ((pace_from p now flag e).factory ≡ e.factory)
        × ((pace_from p now flag e).workers ≡ e.workers)
  unfolding pace_from
  pace_from-pool idle now flag e = (refl, refl)
  pace_from-pool _ now flag e = ground arith

  pace_from-HasPool :
      (p : Pacer F) (now : F) (flag : Bool) (e : Engine F)
      → HasPool e
      → HasPool (pace_from p now flag e)
  pace_from-HasPool p now flag e h = let same = pace_from-pool p now flag e in rw (same.0, same.1) h

  take_item-HasPool :
      (w : ℕ) (e : Engine F)
      → get_elem? e.workers w ≡ some waiting
      → HasPool e
      → HasPool (take_item w e)
  unfolding take_item
  take_item-HasPool w e at h = by_queue e.queue refl
    where
      by_queue : (q : List (Option WorkItem)) → e.queue ≡ q → HasPool (take_item w e)
      by_queue [] eq = rw (eq, take_item) h
      by_queue (none ∷ rest) eq =
          rw (eq, take_item)
            (Pool-set b e.factory e.workers w waiting exited h at (λ item l. absurd l))
      by_queue (some i ∷ rest) eq =
          rw (eq, take_item)
            (Pool-set b e.factory e.workers w waiting (taken i) h at (λ item l. absurd l))

  stamp_item-HasPool :
      (now w : ℕ) (item : WorkItem) (e : Engine F)
      → get_elem? e.workers w ≡ some (taken item)
      → HasPool e
      → HasPool (stamp_item now w item e)
  unfolding stamp_item
  stamp_item-HasPool now w item e at h =
      let lt : w < e.factory.workers =
        omega (arith, get_elem?-lt e.workers w (taken item) at, h.crew) in
      let found = template_for-found b e.factory e.workers w item.variant h lt in
      rw (found.1, stamp_item)
        (Pool-stamp b e.factory e.workers now w item (taken item) found.0 h at found.1)

  work_from-HasPool :
      (p : Worker F) (w now : ℕ) (outcome : Outcome F) (e : Engine F)
      → get_elem? e.workers w ≡ some p
      → HasPool e
      → HasPool (work_from p w now outcome e)
  unfolding work_from
  work_from-HasPool waiting w now outcome e at h = take_item-HasPool w e at h
  work_from-HasPool (taken item) w now outcome e at h = stamp_item-HasPool now w item e at h
  work_from-HasPool (stamped item) w now outcome e at h =
      Pool-set b e.factory e.workers w (stamped item) (sending item) h at (λ i l. l)
  work_from-HasPool (sending item) w now outcome e at h =
      Pool-set b e.factory e.workers w (sending item) (replied item outcome) h at (λ i l. absurd l)
  work_from-HasPool (replied item (answered r)) w now outcome e at h =
      Pool-set b e.factory e.workers w (replied item (answered r)) (landed item r) h at
        (λ i l. absurd l)
  work_from-HasPool (replied item raised) w now outcome e at h =
      Pool-set b e.factory e.workers w (replied item raised) waiting h at (λ i l. absurd l)
  work_from-HasPool (landed item r) w now outcome e at h =
      let h' =
        Pool-set b e.factory e.workers w (landed item r) (counted item r) h at (λ i l. absurd l) in
      ground (arith, h')
  work_from-HasPool (counted item r) w now outcome e at h =
      let done = Pool-set b e.factory e.workers w (counted item r) waiting h at (λ i l. absurd l) in
      let failed =
        Pool-set b e.factory e.workers w (counted item r) (noted r) h at (λ i l. absurd l) in
      ground (arith, done, failed)
  work_from-HasPool (noted r) w now outcome e at h =
      let h' =
        Pool-set b e.factory e.workers w (noted r) (read_failures r e.consecutive_failures) h at
          (λ i l. absurd l) in
      ground (arith, h')
  work_from-HasPool (read_failures r k) w now outcome e at h =
      let h' =
        Pool-set b e.factory e.workers w (read_failures r k) (failed_again r) h at
          (λ i l. absurd l) in
      ground (arith, h')
  work_from-HasPool (aborting r) w now outcome e at h =
      let h' = Pool-set b e.factory e.workers w (aborting r) stopping h at (λ i l. absurd l) in
      ground (arith, h')
  work_from-HasPool stopping w now outcome e at h =
      let h' = Pool-set b e.factory e.workers w stopping waiting h at (λ i l. absurd l) in
      ground (arith, h')
  work_from-HasPool (failed_again r) w now outcome e at h =
      let h' = Pool-set b e.factory e.workers w (failed_again r) waiting h at (λ i l. absurd l) in
      let h'' =
        Pool-set b e.factory e.workers w (failed_again r) (aborting r) h at (λ i l. absurd l) in
      ground (arith, h', h'')
  work_from-HasPool exited w now outcome e at h = h

  -- A schedule's step keeps a pool and, of every number, a tiling.
  abbrev pub IsTiled : Engine F → Type 0
  IsTiled e = HasPool e × ((n : ℕ) → Tiling b n e)

  begin_from-IsTiled :
      (p : Pacer F) (step : Step F) (wall started : F) (e : Engine F)
      → e.pacer ≡ p
      → IsTiled e
      → IsTiled (begin_from p step wall started e)
  unfolding begin_step
  begin_from-IsTiled idle step wall started e at h =
      (ground (arith, h.0), λ n. let t = h.1 n in ground (arith, t))
  begin_from-IsTiled _ step wall started e at h = h

  pub act-IsTiled : (ev : Event F) (e : Engine F) → IsTiled e → IsTiled (act ev e)
  unfolding act shut
  act-IsTiled (begin step wall started) e h = begin_from-IsTiled e.pacer step wall started e refl h
  act-IsTiled (pace now flag) e h = (
    pace_from-HasPool e.pacer now flag e h.0,
    λ n. pace_from-Tiling b n e.pacer now flag e refl (h.1 n),
  )
  act-IsTiled (work w now outcome) e h = by_worker (get_elem? e.workers w) refl
    where
      by_worker :
          (o : Option (Worker F)) → get_elem? e.workers w ≡ o → IsTiled (act (work w now outcome) e)
      by_worker none at = rw (at, act) h
      by_worker (some p) at =
          rw (at, act)
            (
              work_from-HasPool p w now outcome e at h.0,
              λ n. work_from-Tiling b n p w now outcome e at h.0 (h.1 n),
            )
  act-IsTiled interrupt e h =
      (h.0, λ n. record { once = (h.1 n).once; last = (h.1 n).last; batch = (h.1 n).batch })
  act-IsTiled shut_down e h = (
    h.0,
    λ n.
        let t = h.1 n in
        ground (
          arith,
          t,
          queued-put_sentinels b n (max 1 e.cfg.max_inflight) (length e.workers) e.queue,
        ),
  )

  pub run-IsTiled : (evs : List (Event F)) (e : Engine F) → IsTiled e → IsTiled (run evs e)
  unfolding run
  run-IsTiled [] e h = h
  run-IsTiled (ev ∷ evs) e h = run-IsTiled evs (act ev e) (act-IsTiled ev e h)
