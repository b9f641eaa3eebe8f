-- ===== src/Generator/Engine/Tiling/Weights.antt =====
-- How often a sequence number is held in each place that an item can be in.
use analytics_testing.Base.{
  ℕ, zero, suc, ◌+◌, ◌≡◌, ◌&&◌, Option, none, some, sum_by, map, ltb, leb, ◌==◌, if◌then◌else◌,
  arith,
}
use analytics_testing.Base.Int.{pos}
use analytics_testing.Generator.Payload.{AnyValue, seq_of}
use analytics_testing.Generator.Engine.State.{
  WorkItem, Pacer, putting, refused, Worker, taken, stamped, sending, Rpc, Engine,
}
use analytics_testing.Generator.Engine.Tiling.Pool.{numbered}

-- 1 if `n` is in the range of `b` numbers from `first`.
abbrev pub within : ℕ → ℕ → ℕ → ℕ
within first b n = if leb first n && ltb n (first + b) then 1 else 0

module _ {F : Type 0} where
  abbrev pub hit : ℕ → Option (AnyValue F) → ℕ
  hit n (some (AnyValue.int_value (pos m))) = if m == n then 1 else 0
  hit n _ = 0

pub hit-numbered :
    (F : Type 0) (n first b : ℕ) → sum_by (hit {F = F} n) (numbered first b) ≡ within first b n
hit-numbered F n first zero = ground arith
hit-numbered F n first (suc b) = ground (arith, hit-numbered F n (first + 1) b)

abbrev pub queued : ℕ → ℕ → Option WorkItem → ℕ
queued b n none = 0
queued b n (some item) = within item.seq_start b n

module _ {F : Type 0} (b n : ℕ) where
  abbrev pub carried : Worker F → ℕ
  carried (taken item) = within item.seq_start b n
  carried (stamped item) = within item.seq_start b n
  carried (sending item) = within item.seq_start b n
  carried _ = 0

  abbrev pub reserved : Pacer F → ℕ
  reserved (putting p item) = within item.seq_start b n
  reserved (refused item) = within item.seq_start b n
  reserved _ = 0

  -- How many records of the RPC carry `n`.
  abbrev pub sent : Rpc F → ℕ
  sent rpc = sum_by (hit n) (map seq_of rpc.records)

  -- The item in the pacer's hand is the last range that was given out.
  abbrev pub IsLast : Pacer F → ℕ → Type 0
  IsLast (putting p item) next = item.seq_start + b ≡ next
  IsLast (refused item) next = item.seq_start + b ≡ next
  IsLast _ next = Unit

  -- `n` is held once if it has been given out, and never otherwise.
  pub record Tiling (e : Engine F) : Type 0 where
    pub once :
        sum_by (queued b n) e.queue
          + sum_by carried e.workers
          + sum_by sent e.wire
          + reserved e.pacer
        ≡ within 0 e.next_seq n
    pub last : IsLast e.pacer e.next_seq
    pub batch : e.cfg.batch_size ≡ b
