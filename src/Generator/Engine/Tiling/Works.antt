-- ===== src/Generator/Engine/Tiling/Works.antt =====
-- The places of a sequence number under the moves of a worker.
use analytics_testing.Base.{
  ℕ, ◌<◌, ◌≡◌, refl, ap, ◌∙◌, Option, none, some, List, [], ◌∷◌, sum_by, sum_by-append, sum_by-set,
  get_elem?, get_elem?-lt, arith,
}
use analytics_testing.Base.Float.{Float}
use analytics_testing.Generator.Payload.{template_for}
use analytics_testing.Generator.Engine.State.{
  WorkItem, Outcome, Worker, waiting, taken, stamped, sending, replied, landed, counted, noted,
  read_failures, failed_again, aborting, stopping, exited, Rpc, Engine,
}
use analytics_testing.Generator.Engine.Sending.{
  records_of, after_reply, take_item, stamp_item, export,
}
use analytics_testing.Generator.Engine.{work_from}
use analytics_testing.Generator.Engine.Tiling.Pool.{Pool, template_for-found}
use analytics_testing.Generator.Engine.Tiling.Weights.{
  within, hit, hit-numbered, carried, sent, Tiling,
}

module _ {F : Type 0} (b n : ℕ) where
  take_item-Tiling :
      (w : ℕ) (e : Engine F)
      → get_elem? e.workers w ≡ some waiting
      → Tiling b n e
      → Tiling b n (take_item w e)
  unfolding take_item
  take_item-Tiling w e at h = by_queue e.queue refl
    where
      by_queue : (q : List (Option WorkItem)) → e.queue ≡ q → Tiling b n (take_item w e)
      by_queue [] eq = rw (eq, take_item) h
      by_queue (none ∷ rest) eq =
          ground (arith, eq, sum_by-set (carried b n) e.workers w waiting exited at)
      by_queue (some i ∷ rest) eq =
          ground (arith, eq, sum_by-set (carried b n) e.workers w waiting (taken i) at)

  -- The records of a loaded template hold the numbers of the item.
  sent-loaded :
      (w : ℕ) (item : WorkItem) (outcome : Outcome F) (e : Engine F)
      → get_elem? e.workers w ≡ some (sending item)
      → Pool b e.factory e.workers
      → sent b n (record {
        records = records_of (template_for e.factory w item.variant);
        outcome = outcome;
      })
        ≡ within item.seq_start b n
  sent-loaded w item outcome e at pool =
      ap (sum_by (hit n)) (pool.stamps w item (rw at refl)) ∙ hit-numbered F n item.seq_start b

  export-Tiling :
      (outcome : Outcome F) (w : ℕ) (item : WorkItem) (e : Engine F)
      → get_elem? e.workers w ≡ some (sending item)
      → Pool b e.factory e.workers
      → Tiling b n e
      → Tiling b n (export outcome w item e)
  unfolding export
  export-Tiling outcome w item e at pool h =
      let rpc : Rpc F = record {
        records = records_of (template_for e.factory w item.variant);
        outcome = outcome;
      } in
      ground (
        arith,
        sum_by-set (carried b n) e.workers w (sending item) (replied item outcome) at,
        sum_by-append (sent b n) e.wire (rpc ∷ []),
        sent-loaded w item outcome e at pool,
      )

  stamp_item-Tiling :
      (now w : ℕ) (item : WorkItem) (e : Engine F)
      → get_elem? e.workers w ≡ some (taken item)
      → Pool b e.factory e.workers
      → Tiling b n e
      → Tiling b n (stamp_item now w item e)
  unfolding stamp_item
  stamp_item-Tiling now w item e at pool h =
      let lt : w < e.factory.workers =
        omega (arith, get_elem?-lt e.workers w (taken item) at, pool.crew) in
      let found = template_for-found b e.factory e.workers w item.variant pool lt in
      ground (arith, found.1, sum_by-set (carried b n) e.workers w (taken item) (stamped item) at)

module _ {F : Type 0} ⦃fl : Float F⦄ (b n : ℕ) where
  pub work_from-Tiling :
      (p : Worker F) (w now : ℕ) (outcome : Outcome F) (e : Engine F)
      → get_elem? e.workers w ≡ some p
      → Pool b e.factory e.workers
      → Tiling b n e
      → Tiling b n (work_from p w now outcome e)
  unfolding work_from
  work_from-Tiling waiting w now outcome e at pool h = take_item-Tiling b n w e at h
  work_from-Tiling (taken item) w now outcome e at pool h =
      stamp_item-Tiling b n now w item e at pool h
  work_from-Tiling (stamped item) w now outcome e at pool h =
      ground (arith, sum_by-set (carried b n) e.workers w (stamped item) (sending item) at)
  work_from-Tiling (sending item) w now outcome e at pool h =
      export-Tiling b n outcome w item e at pool h
  work_from-Tiling (replied item r) w now outcome e at pool h =
      ground (arith, sum_by-set (carried b n) e.workers w (replied item r) (after_reply item r) at)
  work_from-Tiling (landed item r) w now outcome e at pool h =
      ground (arith, sum_by-set (carried b n) e.workers w (landed item r) (counted item r) at)
  work_from-Tiling (counted item r) w now outcome e at pool h = ground (
    arith,
    sum_by-set (carried b n) e.workers w (counted item r) waiting at,
    sum_by-set (carried b n) e.workers w (counted item r) (noted r) at,
  )
  work_from-Tiling (noted r) w now outcome e at pool h = ground (
    arith,
    sum_by-set (carried b n) e.workers w (noted r) (read_failures r e.consecutive_failures) at,
  )
  work_from-Tiling (read_failures r k) w now outcome e at pool h =
      ground (arith, sum_by-set (carried b n) e.workers w (read_failures r k) (failed_again r) at)
  work_from-Tiling (aborting r) w now outcome e at pool h =
      ground (arith, sum_by-set (carried b n) e.workers w (aborting r) stopping at)
  work_from-Tiling stopping w now outcome e at pool h =
      ground (arith, sum_by-set (carried b n) e.workers w stopping waiting at)
  work_from-Tiling (failed_again r) w now outcome e at pool h = ground (
    arith,
    sum_by-set (carried b n) e.workers w (failed_again r) waiting at,
    sum_by-set (carried b n) e.workers w (failed_again r) (aborting r) at,
  )
  work_from-Tiling exited w now outcome e at pool h = h
