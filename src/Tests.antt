-- ===== src/Tests.antt =====
-- The theorems at concrete inputs.
mod Samples
mod Executor
mod Shifts
mod Solver
mod Memory
mod State
mod Jumps
mod Arm
mod Objects
mod Strings
