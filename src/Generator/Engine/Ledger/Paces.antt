-- ===== src/Generator/Engine/Ledger/Paces.antt =====
-- The ledger under the moves of the pacer.
use analytics_testing.Base.{
  ℕ, ◌≡◌, refl, Bool, Option, none, some, [], ◌∷◌, All-append, sum_by-append, arith,
}
use analytics_testing.Base.Float.{Float}
use analytics_testing.Generator.Metrics.{record_offered, record_stall}
use analytics_testing.Generator.Payload.{RequestTemplate, template_for}
use analytics_testing.Generator.Engine.State.{
  WorkItem, Pacer, idle, due, putting, refused, Engine, Pace,
}
use analytics_testing.Generator.Engine.Pacing.{reserve_next, put, give_back}
use analytics_testing.Generator.Engine.{pace_from}
use analytics_testing.Generator.Engine.Tiling.Pool.{Pool, template_for-IsReady}
use analytics_testing.Generator.Engine.Ledger.Defs.{Ledger, QueueSized, queue_size}

module _ {F : Type 0} ⦃fl : Float F⦄ (b : ℕ) where
  reserve_next-Ledger :
      (p : Pace F) (e : Engine F)
      → e.pacer ≡ due p
      → Pool b e.factory e.workers
      → Ledger b e
      → Ledger b (reserve_next p e)
  unfolding reserve_next
  reserve_next-Ledger p e at pool h = by_probe (template_for e.factory 0 0) refl
    where
      by_probe :
          (o : Option (RequestTemplate F))
          → template_for e.factory 0 0 ≡ o
          → Ledger b (reserve_next p e)
      by_probe none q = ground (arith, q)
      by_probe (some t) q =
          ground (arith, q, (template_for-IsReady b e.factory e.workers 0 0 t pool q).2)

  put-Ledger :
      (now : F) (p : Pace F) (item : WorkItem) (e : Engine F)
      → e.pacer ≡ putting p item
      → Ledger b e
      → Ledger b (put now p item e)
  unfolding put
  put-Ledger now p item e at h = ground (
    arith,
    sum_by-append (queue_size b) e.queue (some item ∷ []),
    All-append (QueueSized b) e.queue (some item ∷ []) h.sized_queue,
  )

  give_back-Ledger :
      (stalled : F) (item : WorkItem) (e : Engine F)
      → e.pacer ≡ refused item
      → Ledger b e
      → Ledger b (give_back stalled item e)
  unfolding give_back record_stall
  give_back-Ledger stalled item e at h = ground arith

  pub pace_from-Ledger :
      (p : Pacer F) (now : F) (flag : Bool) (e : Engine F)
      → e.pacer ≡ p
      → Pool b e.factory e.workers
      → Ledger b e
      → Ledger b (pace_from p now flag e)
  unfolding pace_from record_stall record_offered
  pace_from-Ledger idle now flag e at pool h = h
  pace_from-Ledger (due p) now flag e at pool h = reserve_next-Ledger p e at pool h
  pace_from-Ledger (putting p item) now flag e at pool h = put-Ledger now p item e at h
  pace_from-Ledger (refused item) now flag e at pool h = give_back-Ledger now item e at h
  pace_from-Ledger _ now flag e at pool h = ground arith
