-- ===== src/Arm/V6/Decoder/Branches.antt =====
-- Jumps of symex/src/general_assembly/arch/arm/v6/decoder.rs.
use symex.Common.{ℕ, ◌+◌, ◌^◌, List, [], ◌∷◌, ltb, if◌then◌else◌, Outcome, ok, panic}
use symex.Ga.Operand.{register, local}
use symex.Ga.Operation.{Operation}
use symex.Arm.V6.Instructions.{Register, lr, ArmCondition}
use symex.Arm.V6.Registers.{arm_register_to_ga_operand, arm_cond_to_ga_cond, word}

-- `imm + 2` on `u32` panics where it overflows.
unfoldable pub b : {E : Type 0} → ArmCondition → ℕ → Outcome E (List Operation)
unfolding arm_cond_to_ga_cond
b cond imm =
    if ltb (imm + 2) (2 ^ 32)
    then ok (
        Operation.add (local "new_pc") (register "PC") (word (imm + 2))
        ∷ Operation.conditional_jump (local "new_pc") (arm_cond_to_ga_cond cond)
        ∷ [])
    else panic

unfoldable pub bl : ℕ → List Operation
bl imm =
    Operation.move (local "PC") (register "PC")
    ∷ Operation.move (register "LR") (local "PC")
    ∷ Operation.add (local "newPC") (local "PC") (word imm)
    ∷ Operation.move (register "PC") (local "newPC")
    ∷ []

unfoldable pub blx_reg : Register → List Operation
blx_reg m =
    Operation.move (arm_register_to_ga_operand lr) (register "PC")
    ∷ Operation.move (register "PC") (arm_register_to_ga_operand m)
    ∷ []

unfoldable pub bx : Register → List Operation
bx m =
    let reg = arm_register_to_ga_operand m in
    let destination = register "PC" in Operation.move destination reg ∷ []
