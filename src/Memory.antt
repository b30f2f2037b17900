-- ===== src/Memory.antt =====
-- symex/src/memory.
pub mod Array
pub mod Allocator
pub mod Objects
