-- ===== src/Ga.antt =====
-- symex/general_assembly: the instruction set that machine code is translated to.
pub mod Operand
pub mod Operation
