-- ===== src/Generator/Engine/Tiling.antt =====
-- Where a sequence number can be: in the pacer's hand, in the queue, with a worker, or in an RPC.
pub mod Pool
pub mod Weights
pub mod Moves
pub mod Works
pub mod Runs
pub mod Once
