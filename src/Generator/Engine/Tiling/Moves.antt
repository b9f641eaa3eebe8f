-- ===== src/Generator/Engine/Tiling/Moves.antt =====
-- The places of a sequence number under the moves of the pacer.
use analytics_testing.Base.{ℕ, ◌≡◌, Bool, some, [], ◌∷◌, sum_by-append, arith}
use analytics_testing.Base.Float.{Float}
use analytics_testing.Generator.Engine.State.{
  WorkItem, Pacer, idle, due, putting, refused, Engine, Pace,
}
use analytics_testing.Generator.Engine.Pacing.{reserve_next, put, give_back}
use analytics_testing.Generator.Engine.{pace_from}
use analytics_testing.Generator.Engine.Tiling.Weights.{queued, Tiling}

module _ {F : Type 0} ⦃fl : Float F⦄ (b n : ℕ) where
  reserve_next-Tiling :
      (p : Pace F) (e : Engine F) → e.pacer ≡ due p → Tiling b n e → Tiling b n (reserve_next p e)
  unfolding reserve_next
  reserve_next-Tiling p e at h = ground arith

  put-Tiling :
      (now : F) (p : Pace F) (item : WorkItem) (e : Engine F)
      → e.pacer ≡ putting p item
      → Tiling b n e
      → Tiling b n (put now p item e)
  unfolding put
  put-Tiling now p item e at h = ground (arith, sum_by-append (queued b n) e.queue (some item ∷ []))

  give_back-Tiling :
      (stalled : F) (item : WorkItem) (e : Engine F)
      → e.pacer ≡ refused item
      → Tiling b n e
      → Tiling b n (give_back stalled item e)
  unfolding give_back
  give_back-Tiling stalled item e at h = ground arith

  pub pace_from-Tiling :
      (p : Pacer F) (now : F) (flag : Bool) (e : Engine F)
      → e.pacer ≡ p
      → Tiling b n e
      → Tiling b n (pace_from p now flag e)
  unfolding pace_from
  pace_from-Tiling idle now flag e at h = h
  pace_from-Tiling (due p) now flag e at h = reserve_next-Tiling p e at h
  pace_from-Tiling (putting p item) now flag e at h = put-Tiling now p item e at h
  pace_from-Tiling (refused item) now flag e at h = give_back-Tiling now item e at h
  pace_from-Tiling _ now flag e at h = ground arith
