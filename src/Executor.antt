-- ===== src/Executor.antt =====
-- symex/src/general_assembly/executor.rs.
pub mod Adder
pub mod Count
pub mod Monad
pub mod Operands
pub mod Values
pub mod Operations
pub mod Subtract
pub mod Shifts
pub mod Forks
pub mod Fuel
pub mod Jumps
pub mod Addresses
pub mod Instructions
pub mod Steps
