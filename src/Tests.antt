-- ===== src/Tests.antt =====
-- The theorems at concrete inputs.
pub mod Host
pub mod Isa
pub mod Machine
pub mod Memory
pub mod Parts
pub mod Runs
