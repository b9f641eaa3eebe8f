-- ===== src/Scripts.antt =====
-- The helpers of scripts/lib.
pub mod Cfg
