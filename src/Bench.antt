-- ===== src/Bench.antt =====
-- The tools that judge a run, bench/.
pub mod Validate
pub mod Statistics
pub mod Report
