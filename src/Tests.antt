-- ===== src/Tests.antt =====
-- The theorems at concrete inputs.
mod Runs
mod Documents
mod Tokens
mod Stops
mod Counters
mod Verdicts
mod Payloads
mod Reports
mod Launches
mod Loops
mod Paths
