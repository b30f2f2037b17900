-- ===== src/Arm/V6/Decoder/Bytes.antt =====
-- The reversals of bytes of symex/src/general_assembly/arch/arm/v6/decoder.rs.
use symex.Common.{List, [], ◌∷◌}
use symex.Ga.Operand.{local}
use symex.Ga.Operation.{Operation}
use symex.Arm.V6.Instructions.{Register}
use symex.Arm.V6.Registers.{arm_register_to_ga_operand, word}

unfoldable pub rev : Register → Register → List Operation
rev m d =
    let m = arm_register_to_ga_operand m in
    let d = arm_register_to_ga_operand d in
    let b1 = local "b1" in
    let b2 = local "B2" in
    let b3 = local "B3" in
    let b4 = local "B4" in
    Operation.move d (word 0)
    ∷ Operation.and b1 m (word 0x000000ff)
    ∷ Operation.and b2 m (word 0x0000ff00)
    ∷ Operation.and b3 m (word 0x00ff0000)
    ∷ Operation.and b4 m (word 0xff000000)
    ∷ Operation.sl b1 b1 (word 24)
    ∷ Operation.sl b2 b2 (word 8)
    ∷ Operation.srl b3 b3 (word 8)
    ∷ Operation.srl b4 b4 (word 24)
    ∷ Operation.or d d b1
    ∷ Operation.or d d b2
    ∷ Operation.or d d b3
    ∷ Operation.or d d b4
    ∷ []

unfoldable pub rev16 : Register → Register → List Operation
rev16 m d =
    let m = arm_register_to_ga_operand m in
    let d = arm_register_to_ga_operand d in
    let b1 = local "b1" in
    let b2 = local "B2" in
    let b3 = local "B3" in
    let b4 = local "B4" in
    Operation.move d (word 0)
    ∷ Operation.and b1 m (word 0x000000ff)
    ∷ Operation.and b2 m (word 0x0000ff00)
    ∷ Operation.and b3 m (word 0x00ff0000)
    ∷ Operation.and b4 m (word 0xff000000)
    ∷ Operation.sl b1 b1 (word 8)
    ∷ Operation.srl b2 b2 (word 8)
    ∷ Operation.sl b3 b3 (word 8)
    ∷ Operation.srl b4 b4 (word 8)
    ∷ Operation.or d d b1
    ∷ Operation.or d d b2
    ∷ Operation.or d d b3
    ∷ Operation.or d d b4
    ∷ []

unfoldable pub revsh : Register → Register → List Operation
revsh m d =
    let m = arm_register_to_ga_operand m in
    let d = arm_register_to_ga_operand d in
    let b1 = local "b1" in
    let b2 = local "B2" in
    Operation.move d (word 0)
    ∷ Operation.and b1 m (word 0x000000ff)
    ∷ Operation.and b2 m (word 0x0000ff00)
    ∷ Operation.sl b1 b1 (word 8)
    ∷ Operation.srl b2 b2 (word 8)
    ∷ Operation.or d d b1
    ∷ Operation.or d d b2
    ∷ Operation.sign_extend d d 16
    ∷ []
