-- ===== src/Arm/V6/Registers.antt =====
-- The operands that symex/src/general_assembly/arch/arm/v6/decoder.rs makes of registers, constants
-- and conditions.
use Prim.Native.String.{String}
use symex.Common.{ℕ}
use symex.Ga.Operand.{Operand, register, immediate, word32}
use symex.Ga.Operation.{Condition}
use symex.Arm.V6.Instructions.{
  Register, r0, r1, r2, r3, r4, r5, r6, r7, r8, r9, r10, r11, r12, sp, lr, pc, SpecialRegister,
  apsr, iapsr, eapsr, xpsr, ipsr, epsr, iepsr, msp, psp, primask, control, ArmCondition,
}

-- The PC is read and written through the hooks on "PC+".
abbrev pub register_name : Register → String
register_name r0 = "R0"
register_name r1 = "R1"
register_name r2 = "R2"
register_name r3 = "R3"
register_name r4 = "R4"
register_name r5 = "R5"
register_name r6 = "R6"
register_name r7 = "R7"
register_name r8 = "R8"
register_name r9 = "R9"
register_name r10 = "R10"
register_name r11 = "R11"
register_name r12 = "R12"
register_name sp = "SP"
register_name lr = "LR"
register_name pc = "PC+"

abbrev pub arm_register_to_ga_operand : Register → Operand
arm_register_to_ga_operand reg = register (register_name reg)

unfoldable pub arm_special_register_to_operand : SpecialRegister → Operand
arm_special_register_to_operand apsr = register "APSR"
arm_special_register_to_operand iapsr = register "IAPSR"
arm_special_register_to_operand eapsr = register "EAPSR"
arm_special_register_to_operand xpsr = register "XPSR"
arm_special_register_to_operand ipsr = register "IPSR"
arm_special_register_to_operand epsr = register "EPSR"
arm_special_register_to_operand iepsr = register "IEPSR"
arm_special_register_to_operand msp = register "MSP"
arm_special_register_to_operand psp = register "PSP"
arm_special_register_to_operand primask = register "PRIMASK"
arm_special_register_to_operand control = register "CONTROL"

unfoldable pub arm_cond_to_ga_cond : ArmCondition → Condition
arm_cond_to_ga_cond ArmCondition.eq = Condition.eq
arm_cond_to_ga_cond ArmCondition.ne = Condition.ne
arm_cond_to_ga_cond ArmCondition.cs = Condition.cs
arm_cond_to_ga_cond ArmCondition.cc_clear = Condition.cc_clear
arm_cond_to_ga_cond ArmCondition.mi = Condition.mi
arm_cond_to_ga_cond ArmCondition.pl = Condition.pl
arm_cond_to_ga_cond ArmCondition.vs = Condition.vs
arm_cond_to_ga_cond ArmCondition.vc = Condition.vc
arm_cond_to_ga_cond ArmCondition.hi = Condition.hi
arm_cond_to_ga_cond ArmCondition.ls = Condition.ls
arm_cond_to_ga_cond ArmCondition.ge = Condition.ge
arm_cond_to_ga_cond ArmCondition.lt = Condition.lt
arm_cond_to_ga_cond ArmCondition.gt = Condition.gt
arm_cond_to_ga_cond ArmCondition.le = Condition.le
arm_cond_to_ga_cond ArmCondition.always = Condition.always

-- `Operand::Immediate(DataWord::Word32(v))`.
abbrev pub word : ℕ → Operand
word v = immediate (word32 v)
