-- ===== src/Arm/V6.antt =====
-- symex/src/general_assembly/arch/arm/v6.rs and the files below it: Armv6-M.
pub mod Instructions
pub mod Registers
pub mod Timing
pub mod Decoder
pub mod Machine
pub mod Supported
pub mod Scopes
pub mod Scoped
pub mod Refines
pub mod Correct
pub mod Executes
