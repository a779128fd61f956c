-- ===== src/Examples.antt =====
-- The theorems at concrete inputs.
mod Protocol
mod Checks
mod State
mod Runs
mod Series
mod Waits
