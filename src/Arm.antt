-- ===== src/Arm.antt =====
-- symex/src/general_assembly/arch/arm.rs and the architectures below it.
pub mod V6
pub mod Discover
pub mod Hooks
