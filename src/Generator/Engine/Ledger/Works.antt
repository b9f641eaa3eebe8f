-- ===== src/Generator/Engine/Ledger/Works.antt =====
-- The ledger under the moves of a worker.
use analytics_testing.Base.{
  ℕ, ◌+◌, ◌<◌, ◌≡◌, refl, Option, none, some, List, [], ◌∷◌, All, All-set, All-append,
  All-get_elem?, sum_by, sum_by-append, sum_by-set, get_elem?, get_elem?-lt, set, length, arith,
}
use analytics_testing.Base.Float.{Float}
use analytics_testing.Generator.Metrics.{record_inflight, record_success, record_failure}
use analytics_testing.Generator.Payload.{template_for}
use analytics_testing.Generator.Engine.State.{
  WorkItem, Outcome, answered, raised, ExportResult, Worker, waiting, taken, stamped, sending,
  replied, landed, counted, noted, read_failures, failed_again, aborting, stopping, exited, Engine,
  Rpc,
}
use analytics_testing.Generator.Engine.Sending.{
  take_item, stamp_item, export, records_of, count_reply, count_result,
}
use analytics_testing.Generator.Engine.{work_from}
use analytics_testing.Generator.Engine.Tiling.Pool.{Pool, template_for-found, template_for-IsReady}
use analytics_testing.Generator.Engine.Ledger.Defs.{
  Ledger, Numbered, QueueSized, WorkerSized, load, pending, is_ok, is_refused, wire_count, rpc_size,
}

module _ {F : Type 0} (b : ℕ) where
  -- What one worker's move does to the sums over the workers.
  abbrev Exchange : Engine F → ℕ → Worker F → Worker F → Type 0
  Exchange e w p q =
      (sum_by (load b) (set e.workers w q) + load b p ≡ sum_by (load b) e.workers + load b q)
      × (sum_by (pending is_ok) (set e.workers w q) + pending is_ok p
          ≡ sum_by (pending is_ok) e.workers + pending is_ok q)
      × (sum_by (pending is_refused) (set e.workers w q) + pending is_refused p
          ≡ sum_by (pending is_refused) e.workers + pending is_refused q)
      × (WorkerSized b p → WorkerSized b q → All (WorkerSized b) (set e.workers w q))

  exchange :
      (w : ℕ) (p q : Worker F) (e : Engine F)
      → get_elem? e.workers w ≡ some p
      → Ledger b e
      → Exchange e w p q
  exchange w p q e at h = (
    sum_by-set (load b) e.workers w p q at,
    sum_by-set (pending is_ok) e.workers w p q at,
    sum_by-set (pending is_refused) e.workers w p q at,
    λ sp sq. All-set (WorkerSized b) e.workers w q h.sized_workers sq,
  )

  sized_at :
      (w : ℕ) (p : Worker F) (e : Engine F)
      → get_elem? e.workers w ≡ some p
      → Ledger b e
      → WorkerSized b p
  sized_at w p e at h = All-get_elem? (WorkerSized b) e.workers w p h.sized_workers at

  take_item-Ledger :
      (w : ℕ) (e : Engine F)
      → get_elem? e.workers w ≡ some waiting
      → Ledger b e
      → Ledger b (take_item w e)
  unfolding take_item
  take_item-Ledger w e at h = by_queue e.queue refl
    where
      by_queue : (q : List (Option WorkItem)) → e.queue ≡ q → Ledger b (take_item w e)
      by_queue [] eq = rw (eq, take_item) h
      by_queue (none ∷ rest) eq =
          let x = exchange w waiting exited e at h in ground (arith, eq, x.0, x.1, x.2, x.3 tt tt)
      by_queue (some i ∷ rest) eq =
          let sized : All (QueueSized b) (some i ∷ rest) = rw eq at h.sized_queue in
          let x = exchange w waiting (taken i) e at h in
          ground (arith, eq, x.0, x.1, x.2, x.3 tt sized.0, sized.1)

  stamp_item-Ledger :
      (now w : ℕ) (item : WorkItem) (e : Engine F)
      → get_elem? e.workers w ≡ some (taken item)
      → Pool b e.factory e.workers
      → Ledger b e
      → Ledger b (stamp_item now w item e)
  unfolding stamp_item
  stamp_item-Ledger now w item e at pool h =
      let lt : w < e.factory.workers =
        omega (arith, get_elem?-lt e.workers w (taken item) at, pool.crew) in
      let found = template_for-found b e.factory e.workers w item.variant pool lt in
      let s = sized_at w (taken item) e at h in
      let x = exchange w (taken item) (stamped item) e at h in
      ground (arith, found.1, x.0, x.1, x.2, x.3 s s)

  length-loaded :
      (w : ℕ) (item : WorkItem) (e : Engine F)
      → get_elem? e.workers w ≡ some (sending item)
      → Pool b e.factory e.workers
      → length (records_of (template_for e.factory w item.variant)) ≡ b
  length-loaded w item e at pool =
      let lt : w < e.factory.workers =
        omega (arith, get_elem?-lt e.workers w (sending item) at, pool.crew) in
      let found = template_for-found b e.factory e.workers w item.variant pool lt in
      rw found.1 (template_for-IsReady b e.factory e.workers w item.variant found.0 pool found.1).1

  export-Ledger :
      (outcome : Outcome F) (w : ℕ) (item : WorkItem) (e : Engine F)
      → get_elem? e.workers w ≡ some (sending item)
      → Pool b e.factory e.workers
      → Ledger b e
      → Ledger b (export outcome w item e)
  unfolding export
  export-Ledger outcome w item e at pool h =
      let rpc : Rpc F = record {
        records = records_of (template_for e.factory w item.variant);
        outcome = outcome;
      } in
      let s = sized_at w (sending item) e at h in
      let x = exchange w (sending item) (replied item outcome) e at h in
      ground (
        arith,
        x.0,
        x.1,
        x.2,
        x.3 s s,
        s,
        length-loaded w item e at pool,
        All-append (Numbered b) e.wire (rpc ∷ []) h.numbered
            ((item.seq_start, pool.stamps w item (rw at refl)), tt),
        sum_by-append rpc_size e.wire (rpc ∷ []),
        sum_by-append (wire_count is_ok) e.wire (rpc ∷ []),
        sum_by-append (wire_count is_refused) e.wire (rpc ∷ []),
      )

module _ {F : Type 0} ⦃fl : Float F⦄ (b : ℕ) where
  count_reply-Ledger :
      (w : ℕ) (item : WorkItem) (outcome : Outcome F) (e : Engine F)
      → get_elem? e.workers w ≡ some (replied item outcome)
      → Ledger b e
      → Ledger b (count_reply w item outcome e)
  unfolding count_reply record_inflight
  count_reply-Ledger w item (answered r) e at h =
      let s = sized_at b w (replied item (answered r)) e at h in
      let x = exchange b w (replied item (answered r)) (landed item r) e at h in
      ground (arith, x.0, x.1, x.2, x.3 s s)
  count_reply-Ledger w item raised e at h =
      let s = sized_at b w (replied item raised) e at h in
      let x = exchange b w (replied item raised) waiting e at h in
      ground (arith, x.0, x.1, x.2, x.3 s tt)

  count_result-Ledger :
      (w : ℕ) (item : WorkItem) (r : ExportResult F) (e : Engine F)
      → get_elem? e.workers w ≡ some (landed item r)
      → Ledger b e
      → Ledger b (count_result w item r e)
  unfolding count_result record_success record_failure
  count_result-Ledger w item r e at h =
      let s = sized_at b w (landed item r) e at h in
      let x = exchange b w (landed item r) (counted item r) e at h in
      ground (arith, x.0, x.1, x.2, x.3 s s)

  pub work_from-Ledger :
      (p : Worker F) (w now : ℕ) (outcome : Outcome F) (e : Engine F)
      → get_elem? e.workers w ≡ some p
      → Pool b e.factory e.workers
      → Ledger b e
      → Ledger b (work_from p w now outcome e)
  unfolding work_from record_inflight
  work_from-Ledger waiting w now outcome e at pool h = take_item-Ledger b w e at h
  work_from-Ledger (taken item) w now outcome e at pool h =
      stamp_item-Ledger b now w item e at pool h
  work_from-Ledger (stamped item) w now outcome e at pool h =
      let s = sized_at b w (stamped item) e at h in
      let x = exchange b w (stamped item) (sending item) e at h in
      ground (arith, x.0, x.1, x.2, x.3 s s)
  work_from-Ledger (sending item) w now outcome e at pool h =
      export-Ledger b outcome w item e at pool h
  work_from-Ledger (replied item r) w now outcome e at pool h = count_reply-Ledger w item r e at h
  work_from-Ledger (landed item r) w now outcome e at pool h = count_result-Ledger w item r e at h
  work_from-Ledger (counted item r) w now outcome e at pool h =
      let s = sized_at b w (counted item r) e at h in
      let x = exchange b w (counted item r) waiting e at h in
      let y = exchange b w (counted item r) (noted r) e at h in
      ground (arith, x.0, x.1, x.2, x.3 s tt, y.0, y.1, y.2, y.3 s tt)
  work_from-Ledger (noted r) w now outcome e at pool h =
      let x = exchange b w (noted r) (read_failures r e.consecutive_failures) e at h in
      ground (arith, x.0, x.1, x.2, x.3 tt tt)
  work_from-Ledger (read_failures r k) w now outcome e at pool h =
      let x = exchange b w (read_failures r k) (failed_again r) e at h in
      ground (arith, x.0, x.1, x.2, x.3 tt tt)
  work_from-Ledger (aborting r) w now outcome e at pool h =
      let x = exchange b w (aborting r) stopping e at h in ground (arith, x.0, x.1, x.2, x.3 tt tt)
  work_from-Ledger stopping w now outcome e at pool h =
      let x = exchange b w stopping waiting e at h in ground (arith, x.0, x.1, x.2, x.3 tt tt)
  work_from-Ledger (failed_again r) w now outcome e at pool h =
      let x = exchange b w (failed_again r) waiting e at h in
      let y = exchange b w (failed_again r) (aborting r) e at h in
      ground (arith, x.0, x.1, x.2, x.3 tt tt, y.0, y.1, y.2, y.3 tt tt)
  work_from-Ledger exited w now outcome e at pool h = h
