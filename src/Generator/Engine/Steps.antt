-- ===== src/Generator/Engine/Steps.antt =====
-- What the step results of generator/src/loadgen.py count, against the totals of the run.
pub mod Defs
pub mod Works
pub mod Runs
