-- ===== src/Generator/Engine/Ledger.antt =====
-- The counters of the metrics against the RPCs and the items under way.
pub mod Defs
pub mod Paces
pub mod Works
pub mod Runs
pub mod Totals
