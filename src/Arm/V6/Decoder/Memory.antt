-- ===== src/Arm/V6/Decoder/Memory.antt =====
-- Loads and stores of one register of symex/src/general_assembly/arch/arm/v6/decoder.rs.
use symex.Common.{ℕ, List, [], ◌∷◌}
use symex.Ga.Operand.{register, local, address_in_local}
use symex.Ga.Operation.{Operation}
use symex.Arm.V6.Instructions.{Register}
use symex.Arm.V6.Registers.{arm_register_to_ga_operand, word}

unfoldable pub ldr_imm : ℕ → Register → Register → List Operation
ldr_imm imm n t =
    Operation.add (local "addr") (arm_register_to_ga_operand n) (word imm)
    ∷ Operation.move (register "LastAddr") (local "addr")
    ∷ Operation.move (arm_register_to_ga_operand t) (address_in_local "addr" 32)
    ∷ []

unfoldable pub ldr_literal : Register → ℕ → List Operation
ldr_literal t imm =
    Operation.add (local "addr") (register "PC") (word 2)
    ∷ Operation.and (local "addr") (local "addr") (word 0xfffffffc)
    ∷ Operation.add (local "addr") (local "addr") (word imm)
    ∷ Operation.move (register "LastAddr") (local "addr")
    ∷ Operation.move (arm_register_to_ga_operand t) (address_in_local "addr" 32)
    ∷ []

unfoldable pub ldr_reg : Register → Register → Register → List Operation
ldr_reg m n t =
    Operation.add (local "addr") (arm_register_to_ga_operand n) (arm_register_to_ga_operand m)
    ∷ Operation.move (register "LastAddr") (local "addr")
    ∷ Operation.move (arm_register_to_ga_operand t) (address_in_local "addr" 32)
    ∷ []

unfoldable pub ldrb_imm : ℕ → Register → Register → List Operation
ldrb_imm imm n t =
    Operation.add (local "addr") (arm_register_to_ga_operand n) (word imm)
    ∷ Operation.move (register "LastAddr") (local "addr")
    ∷ Operation.move (arm_register_to_ga_operand t) (address_in_local "addr" 8)
    ∷ Operation.zero_extend (arm_register_to_ga_operand t) (arm_register_to_ga_operand t) 8 32
    ∷ []

unfoldable pub ldrb_reg : Register → Register → Register → List Operation
ldrb_reg m n t =
    Operation.add (local "addr") (arm_register_to_ga_operand n) (arm_register_to_ga_operand m)
    ∷ Operation.move (register "LastAddr") (local "addr")
    ∷ Operation.move (arm_register_to_ga_operand t) (address_in_local "addr" 8)
    ∷ Operation.zero_extend (arm_register_to_ga_operand t) (arm_register_to_ga_operand t) 8 32
    ∷ []

unfoldable pub ldrh_imm : ℕ → Register → Register → List Operation
ldrh_imm imm n t =
    Operation.add (local "addr") (arm_register_to_ga_operand n) (word imm)
    ∷ Operation.move (register "LastAddr") (local "addr")
    ∷ Operation.move (arm_register_to_ga_operand t) (address_in_local "addr" 16)
    ∷ Operation.zero_extend (arm_register_to_ga_operand t) (arm_register_to_ga_operand t) 16 32
    ∷ []

unfoldable pub ldrh_reg : Register → Register → Register → List Operation
ldrh_reg m n t =
    Operation.add (local "addr") (arm_register_to_ga_operand n) (arm_register_to_ga_operand m)
    ∷ Operation.move (register "LastAddr") (local "addr")
    ∷ Operation.move (arm_register_to_ga_operand t) (address_in_local "addr" 16)
    ∷ Operation.zero_extend (arm_register_to_ga_operand t) (arm_register_to_ga_operand t) 16 32
    ∷ []

unfoldable pub ldrsb_reg : Register → Register → Register → List Operation
ldrsb_reg m n t =
    Operation.add (local "addr") (arm_register_to_ga_operand n) (arm_register_to_ga_operand m)
    ∷ Operation.move (register "LastAddr") (local "addr")
    ∷ Operation.move (arm_register_to_ga_operand t) (address_in_local "addr" 8)
    ∷ Operation.sign_extend (arm_register_to_ga_operand t) (arm_register_to_ga_operand t) 8
    ∷ []

-- The sign is taken from bit 7 of the half word, as the source writes it.
unfoldable pub ldrsh : Register → Register → Register → List Operation
ldrsh m n t =
    Operation.add (local "addr") (arm_register_to_ga_operand n) (arm_register_to_ga_operand m)
    ∷ Operation.move (register "LastAddr") (local "addr")
    ∷ Operation.move (arm_register_to_ga_operand t) (address_in_local "addr" 16)
    ∷ Operation.sign_extend (arm_register_to_ga_operand t) (arm_register_to_ga_operand t) 8
    ∷ []

unfoldable pub str_imm : ℕ → Register → Register → List Operation
str_imm imm n t =
    let imm = word imm in
    let n = arm_register_to_ga_operand n in
    let t = arm_register_to_ga_operand t in
    let addr = local "addr" in
    let to_addr = address_in_local "addr" 32 in
    Operation.add addr n imm
    ∷ Operation.move (register "LastAddr") (local "addr")
    ∷ Operation.move to_addr t
    ∷ []

unfoldable pub str_reg : Register → Register → Register → List Operation
str_reg m n t =
    let m = arm_register_to_ga_operand m in
    let n = arm_register_to_ga_operand n in
    let t = arm_register_to_ga_operand t in
    let addr = local "addr" in
    let to_addr = address_in_local "addr" 32 in
    Operation.add addr n m
    ∷ Operation.move (register "LastAddr") (local "addr")
    ∷ Operation.move to_addr t
    ∷ []

unfoldable pub strb_imm : ℕ → Register → Register → List Operation
strb_imm imm n t =
    let imm = word imm in
    let n = arm_register_to_ga_operand n in
    let t = arm_register_to_ga_operand t in
    let addr = local "addr" in
    let to_addr = address_in_local "addr" 8 in
    Operation.add addr n imm
    ∷ Operation.move (register "LastAddr") (local "addr")
    ∷ Operation.move to_addr t
    ∷ []

unfoldable pub strb_reg : Register → Register → Register → List Operation
strb_reg m n t =
    let m = arm_register_to_ga_operand m in
    let n = arm_register_to_ga_operand n in
    let t = arm_register_to_ga_operand t in
    let addr = local "addr" in
    let to_addr = address_in_local "addr" 8 in
    Operation.add addr n m
    ∷ Operation.move (register "LastAddr") (local "addr")
    ∷ Operation.move to_addr t
    ∷ []

unfoldable pub strh_imm : ℕ → Register → Register → List Operation
strh_imm imm n t =
    let imm = word imm in
    let n = arm_register_to_ga_operand n in
    let t = arm_register_to_ga_operand t in
    let addr = local "addr" in
    let to_addr = address_in_local "addr" 16 in
    Operation.add addr n imm
    ∷ Operation.move (register "LastAddr") (local "addr")
    ∷ Operation.move to_addr t
    ∷ []

unfoldable pub strh_reg : Register → Register → Register → List Operation
strh_reg m n t =
    let m = arm_register_to_ga_operand m in
    let n = arm_register_to_ga_operand n in
    let t = arm_register_to_ga_operand t in
    let addr = local "addr" in
    let to_addr = address_in_local "addr" 16 in
    Operation.add addr n m
    ∷ Operation.move (register "LastAddr") (local "addr")
    ∷ Operation.move to_addr t
    ∷ []
