-- ===== src/Arm/V6/Decoder/Logic.antt =====
-- Bitwise operations, moves, extensions and shifts of
-- symex/src/general_assembly/arch/arm/v6/decoder.rs.
use symex.Common.{ℕ, Bool, List, [], ◌∷◌, ◌++◌, if◌then◌else◌}
use symex.Ga.Operand.{local}
use symex.Ga.Operation.{Operation}
use symex.Arm.V6.Instructions.{Register, SpecialRegister}
use symex.Arm.V6.Registers.{arm_register_to_ga_operand, arm_special_register_to_operand, word}

unfoldable pub and_reg : Register → Register → List Operation
and_reg m dn =
    Operation.and (arm_register_to_ga_operand dn) (arm_register_to_ga_operand dn)
      (arm_register_to_ga_operand m)
    ∷ Operation.set_n_flag (arm_register_to_ga_operand dn)
    ∷ Operation.set_z_flag (arm_register_to_ga_operand dn)
    ∷ []

-- The flags are left alone.
unfoldable pub bic_reg : Register → Register → List Operation
bic_reg m dn =
    let reg_m = arm_register_to_ga_operand m in
    let reg_dn = arm_register_to_ga_operand dn in
    Operation.not_op (local "mask") reg_m ∷ Operation.and reg_dn reg_dn (local "mask") ∷ []

unfoldable pub eor_reg : Register → Register → List Operation
eor_reg m dn =
    let dn = arm_register_to_ga_operand dn in
    Operation.xor dn dn (arm_register_to_ga_operand m)
    ∷ Operation.set_n_flag dn
    ∷ Operation.set_z_flag dn
    ∷ []

unfoldable pub orr_reg : Register → Register → List Operation
orr_reg m dn =
    let m = arm_register_to_ga_operand m in
    let dn = arm_register_to_ga_operand dn in
    Operation.or dn dn m ∷ Operation.set_n_flag dn ∷ Operation.set_z_flag dn ∷ []

unfoldable pub mvn_reg : Register → Register → List Operation
mvn_reg m d =
    let m = arm_register_to_ga_operand m in
    let d = arm_register_to_ga_operand d in
    Operation.not_op d m ∷ Operation.set_n_flag d ∷ Operation.set_z_flag d ∷ []

unfoldable pub tst_reg : Register → Register → List Operation
tst_reg m n =
    let m = arm_register_to_ga_operand m in
    let n = arm_register_to_ga_operand n in
    let result = local "result" in
    Operation.and result n m ∷ Operation.set_n_flag result ∷ Operation.set_z_flag result ∷ []

unfoldable pub mov_imm : Register → ℕ → List Operation
mov_imm d imm =
    let destination = arm_register_to_ga_operand d in
    let source = word imm in
    Operation.move destination source
    ∷ Operation.set_n_flag destination
    ∷ Operation.set_z_flag destination
    ∷ []

unfoldable pub mov_reg : Register → Register → Bool → List Operation
mov_reg m d set_flags =
    let destination = arm_register_to_ga_operand d in
    let source = arm_register_to_ga_operand m in
    let operations = Operation.move destination source ∷ [] in
    if set_flags
    then operations ++ (Operation.set_n_flag destination ∷ Operation.set_z_flag destination ∷ [])
    else operations

unfoldable pub mrs : Register → SpecialRegister → List Operation
unfolding arm_special_register_to_operand
mrs d sysm =
    Operation.move (arm_register_to_ga_operand d) (arm_special_register_to_operand sysm) ∷ []

unfoldable pub msr_reg : Register → SpecialRegister → List Operation
unfolding arm_special_register_to_operand
msr_reg n sysm =
    Operation.move (arm_special_register_to_operand sysm) (arm_register_to_ga_operand n) ∷ []

unfoldable pub sxtb : Register → Register → List Operation
sxtb m d =
    let m = arm_register_to_ga_operand m in
    let d = arm_register_to_ga_operand d in Operation.sign_extend d m 8 ∷ []

unfoldable pub sxth : Register → Register → List Operation
sxth m d =
    let m = arm_register_to_ga_operand m in
    let d = arm_register_to_ga_operand d in Operation.sign_extend d m 16 ∷ []

unfoldable pub uxtb : Register → Register → List Operation
uxtb m d =
    Operation.zero_extend (arm_register_to_ga_operand d) (arm_register_to_ga_operand m) 8 32 ∷ []

unfoldable pub uxth : Register → Register → List Operation
uxth m d =
    Operation.zero_extend (arm_register_to_ga_operand d) (arm_register_to_ga_operand m) 16 32 ∷ []
