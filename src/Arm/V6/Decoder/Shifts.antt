-- ===== src/Arm/V6/Decoder/Shifts.antt =====
-- Shifts of symex/src/general_assembly/arch/arm/v6/decoder.rs.
use symex.Common.{ℕ, List, [], ◌∷◌}
use symex.Ga.Operand.{local}
use symex.Ga.Operation.{Operation}
use symex.Arm.V6.Instructions.{Register}
use symex.Arm.V6.Registers.{arm_register_to_ga_operand, word}

unfoldable pub asr_imm : ℕ → Register → Register → List Operation
asr_imm imm m d =
    Operation.move (local "m") (arm_register_to_ga_operand m)
    ∷ Operation.sra (arm_register_to_ga_operand d) (arm_register_to_ga_operand m) (word imm)
    ∷ Operation.set_n_flag (arm_register_to_ga_operand d)
    ∷ Operation.set_z_flag (arm_register_to_ga_operand d)
    ∷ Operation.set_c_flag_sra (local "m") (word imm)
    ∷ []

unfoldable pub asr_reg : Register → Register → List Operation
asr_reg m dn =
    let dnreg = arm_register_to_ga_operand dn in
    let mreg = arm_register_to_ga_operand m in
    let n_local = local "n" in
    let shift_local = local "shift" in
    Operation.move n_local dnreg
    ∷ Operation.and shift_local mreg (word 0xff)
    ∷ Operation.sra dnreg dnreg shift_local
    ∷ Operation.set_n_flag dnreg
    ∷ Operation.set_z_flag dnreg
    ∷ Operation.set_c_flag_sra n_local shift_local
    ∷ []

-- The carry flag is left alone by this and the next three.
unfoldable pub lsl_imm : ℕ → Register → Register → List Operation
lsl_imm imm m d =
    Operation.sl (arm_register_to_ga_operand d) (arm_register_to_ga_operand m) (word imm)
    ∷ Operation.set_n_flag (arm_register_to_ga_operand d)
    ∷ Operation.set_z_flag (arm_register_to_ga_operand d)
    ∷ []

unfoldable pub lsl_reg : Register → Register → List Operation
lsl_reg m dn =
    Operation.and (local "shift") (arm_register_to_ga_operand m) (word 0xff)
    ∷ Operation.sl (arm_register_to_ga_operand dn) (arm_register_to_ga_operand dn) (local "shift")
    ∷ Operation.set_n_flag (arm_register_to_ga_operand dn)
    ∷ Operation.set_z_flag (arm_register_to_ga_operand dn)
    ∷ []

unfoldable pub lsr_imm : ℕ → Register → Register → List Operation
lsr_imm imm m d =
    Operation.srl (arm_register_to_ga_operand d) (arm_register_to_ga_operand m) (word imm)
    ∷ Operation.set_n_flag (arm_register_to_ga_operand d)
    ∷ Operation.set_z_flag (arm_register_to_ga_operand d)
    ∷ []

unfoldable pub lsr_reg : Register → Register → List Operation
lsr_reg m dn =
    Operation.and (local "shift") (arm_register_to_ga_operand m) (word 0xff)
    ∷ Operation.srl (arm_register_to_ga_operand dn) (arm_register_to_ga_operand dn) (local "shift")
    ∷ Operation.set_n_flag (arm_register_to_ga_operand dn)
    ∷ Operation.set_z_flag (arm_register_to_ga_operand dn)
    ∷ []

unfoldable pub ror_reg : Register → Register → List Operation
ror_reg m dn =
    let m = arm_register_to_ga_operand m in
    let dn = arm_register_to_ga_operand dn in
    let shift = local "shift" in
    let mask = word 0xff in
    Operation.and shift m mask
    ∷ Operation.sror dn dn shift
    ∷ Operation.set_n_flag dn
    ∷ Operation.set_z_flag dn
    ∷ Operation.set_c_flag_ror dn
    ∷ []
