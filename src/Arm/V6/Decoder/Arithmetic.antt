-- ===== src/Arm/V6/Decoder/Arithmetic.antt =====
-- Sums, differences and comparisons of symex/src/general_assembly/arch/arm/v6/decoder.rs.
use symex.Common.{ℕ, true, false, List, [], ◌∷◌}
use symex.Ga.Operand.{register, local}
use symex.Ga.Operation.{Operation}
use symex.Arm.V6.Instructions.{Register, sp}
use symex.Arm.V6.Registers.{arm_register_to_ga_operand, word}

unfoldable pub adc_reg : Register → Register → Register → List Operation
adc_reg m n d =
    let dest = arm_register_to_ga_operand d in
    let mreg = arm_register_to_ga_operand m in
    let nreg = arm_register_to_ga_operand n in
    Operation.adc dest nreg mreg
    ∷ Operation.set_n_flag dest
    ∷ Operation.set_z_flag dest
    ∷ Operation.set_c_flag nreg mreg false true
    ∷ Operation.set_v_flag nreg mreg false true
    ∷ []

unfoldable pub add_imm : ℕ → Register → Register → List Operation
add_imm imm n d =
    let dest = arm_register_to_ga_operand d in
    let imm = word imm in
    let nreg = arm_register_to_ga_operand n in
    let op_local = local "op" in
    Operation.move op_local nreg
    ∷ Operation.add dest nreg imm
    ∷ Operation.set_n_flag dest
    ∷ Operation.set_z_flag dest
    ∷ Operation.set_c_flag op_local imm false false
    ∷ Operation.set_v_flag op_local imm false false
    ∷ []

unfoldable pub add_reg : Register → Register → Register → List Operation
add_reg m n d =
    let dest = arm_register_to_ga_operand d in
    let mreg = arm_register_to_ga_operand m in
    let nreg = arm_register_to_ga_operand n in
    let m_local = local "m" in
    let n_local = local "n" in
    Operation.move m_local mreg
    ∷ Operation.move n_local nreg
    ∷ Operation.add dest nreg mreg
    ∷ Operation.set_n_flag dest
    ∷ Operation.set_z_flag dest
    ∷ Operation.set_c_flag n_local m_local false false
    ∷ Operation.set_v_flag n_local m_local false false
    ∷ []

unfoldable pub add_imm_sp : Register → ℕ → List Operation
add_imm_sp d imm =
    Operation.add (arm_register_to_ga_operand d) (arm_register_to_ga_operand sp) (word imm) ∷ []

unfoldable pub add_reg_sp : Register → Register → List Operation
add_reg_sp d m =
    Operation.add (arm_register_to_ga_operand d) (arm_register_to_ga_operand sp)
      (arm_register_to_ga_operand m)
    ∷ []

-- The mask is `!0b11`.
unfoldable pub adr : Register → ℕ → List Operation
adr d imm =
    Operation.add (local "addr") (register "PC") (word 2)
    ∷ Operation.and (local "addr") (local "addr") (word 0xfffffffc)
    ∷ Operation.add (arm_register_to_ga_operand d) (local "addr") (word imm)
    ∷ []

unfoldable pub cmn_reg : Register → Register → List Operation
cmn_reg m n =
    let m = arm_register_to_ga_operand m in
    let n = arm_register_to_ga_operand n in
    Operation.add (local "result") n m
    ∷ Operation.set_n_flag (local "result")
    ∷ Operation.set_z_flag (local "result")
    ∷ Operation.set_c_flag n m false false
    ∷ Operation.set_v_flag n m false false
    ∷ []

unfoldable pub cmp_imm : Register → ℕ → List Operation
cmp_imm n imm =
    let op_n = arm_register_to_ga_operand n in
    let op_imm = word imm in
    Operation.sub (local "result") op_n op_imm
    ∷ Operation.set_n_flag (local "result")
    ∷ Operation.set_z_flag (local "result")
    ∷ Operation.set_c_flag op_n op_imm true false
    ∷ Operation.set_v_flag op_n op_imm true false
    ∷ []

unfoldable pub cmp_reg : Register → Register → List Operation
cmp_reg m n =
    let op_n = arm_register_to_ga_operand n in
    let op_m = arm_register_to_ga_operand m in
    Operation.sub (local "result") op_n op_m
    ∷ Operation.set_n_flag (local "result")
    ∷ Operation.set_z_flag (local "result")
    ∷ Operation.set_c_flag op_n op_m true false
    ∷ Operation.set_v_flag op_n op_m true false
    ∷ []

unfoldable pub mul : Register → Register → List Operation
mul n dm =
    let n = arm_register_to_ga_operand n in
    let dm = arm_register_to_ga_operand dm in
    Operation.mul dm n dm ∷ Operation.set_n_flag dm ∷ Operation.set_z_flag dm ∷ []

unfoldable pub rsb_imm : Register → Register → List Operation
rsb_imm n d =
    let n = arm_register_to_ga_operand n in
    let d = arm_register_to_ga_operand d in
    let local_n = local "n" in
    let zero = word 0 in
    Operation.move local_n n
    ∷ Operation.sub d zero n
    ∷ Operation.set_n_flag d
    ∷ Operation.set_z_flag d
    ∷ Operation.set_c_flag zero local_n true false
    ∷ Operation.set_v_flag zero local_n true false
    ∷ []

unfoldable pub sbc_reg : Register → Register → List Operation
sbc_reg m dn =
    let m = arm_register_to_ga_operand m in
    let dn = arm_register_to_ga_operand dn in
    let not_m = local "not_m" in
    let local_n = local "n" in
    Operation.move local_n dn
    ∷ Operation.not_op not_m m
    ∷ Operation.adc dn dn not_m
    ∷ Operation.set_n_flag dn
    ∷ Operation.set_z_flag dn
    ∷ Operation.set_c_flag local_n not_m false true
    ∷ Operation.set_v_flag local_n not_m false true
    ∷ []

unfoldable pub sub_imm : ℕ → Register → Register → List Operation
sub_imm imm n d =
    let imm = word imm in
    let n = arm_register_to_ga_operand n in
    let d = arm_register_to_ga_operand d in
    let local_n = local "n" in
    Operation.move local_n n
    ∷ Operation.sub d n imm
    ∷ Operation.set_n_flag d
    ∷ Operation.set_z_flag d
    ∷ Operation.set_c_flag local_n imm true false
    ∷ Operation.set_v_flag local_n imm true false
    ∷ []

unfoldable pub sub_reg : Register → Register → Register → List Operation
sub_reg m n d =
    let m = arm_register_to_ga_operand m in
    let n = arm_register_to_ga_operand n in
    let d = arm_register_to_ga_operand d in
    let local_n = local "n" in
    Operation.move local_n n
    ∷ Operation.sub d n m
    ∷ Operation.set_n_flag d
    ∷ Operation.set_z_flag d
    ∷ Operation.set_c_flag local_n m true false
    ∷ Operation.set_v_flag local_n m true false
    ∷ []

unfoldable pub sub_imm_sp : ℕ → List Operation
sub_imm_sp imm = Operation.sub (register "SP") (register "SP") (word imm) ∷ []
