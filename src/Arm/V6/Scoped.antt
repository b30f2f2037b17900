-- ===== src/Arm/V6/Scoped.antt =====
-- Every translation of symex/src/general_assembly/arch/arm/v6/decoder.rs writes its locals before it
-- reads them.
use symex.Common.{
  ℕ, ◌+◌, ◌^◌, ◌≡◌, refl, subst, Bool, true, false, ltb, List, [], Bool-cases, inl, inr, Outcome,
  ok, err, panic,
}
use symex.Errors.{GaError}
use symex.Ga.Operation.{Operation}
use symex.Arm.V6.Instructions.{
  Register, SpecialRegister, apsr, iapsr, eapsr, xpsr, ipsr, epsr, iepsr, msp, psp, primask,
  control, ArmCondition, ArmOperation,
}
use symex.Arm.V6.Registers.{arm_special_register_to_operand}
use symex.Arm.V6.Decoder.{operations_of}
use symex.Arm.V6.Decoder.Arithmetic
use symex.Arm.V6.Decoder.Logic
use symex.Arm.V6.Decoder.Shifts
use symex.Arm.V6.Decoder.Bytes
use symex.Arm.V6.Decoder.Branches
use symex.Arm.V6.Decoder.Memory
use symex.Arm.V6.Decoder.Lists
use symex.Arm.V6.Scopes.{
  is_bound, is_scoped, ldm_loop-is_scoped, pop_loop-is_scoped, push_loop-is_scoped,
  stm_loop-is_scoped,
}

-- The result of a translation, where it has one.
unfoldable IsScoped : Outcome GaError (List Operation) → Type 0
IsScoped (ok os) = is_scoped [] os ≡ true
IsScoped (err e) = Unit
IsScoped panic = Unit

ldm-is_scoped :
    (n : Register) (reg_list : List Register) → is_scoped [] (Lists.ldm n reg_list) ≡ true
unfolding is_scoped is_bound Lists.ldm
ldm-is_scoped n reg_list = elim (Bool-cases (Lists.contains reg_list n)) [
  | inl h ↦ rw h (ldm_loop-is_scoped _ reg_list _ refl λ names bound. rw bound refl)
  | inr h ↦ rw h (ldm_loop-is_scoped _ reg_list _ refl λ names bound. refl)
]

pop-is_scoped : (reg_list : List Register) → is_scoped [] (Lists.pop reg_list) ≡ true
unfolding is_scoped is_bound Lists.pop
pop-is_scoped reg_list = pop_loop-is_scoped _ reg_list _ refl (λ names bound. refl)

push-is_scoped : (reg_list : List Register) → is_scoped [] (Lists.push reg_list) ≡ true
unfolding is_scoped is_bound Lists.push
push-is_scoped reg_list = push_loop-is_scoped _ reg_list _ refl (λ names bound. refl)

stm-is_scoped :
    (n : Register) (reg_list : List Register) → is_scoped [] (Lists.stm n reg_list) ≡ true
unfolding is_scoped is_bound Lists.stm
stm-is_scoped n reg_list = stm_loop-is_scoped _ reg_list _ refl (λ names bound. rw bound refl)

b-IsScoped : (cond : ArmCondition) (imm : ℕ) → IsScoped (Branches.b cond imm)
unfolding is_scoped is_bound Branches.b IsScoped
b-IsScoped cond imm = elim (Bool-cases (ltb (imm + 2) (2 ^ 32))) [
  | inl h ↦ rw h refl
  | inr h ↦ rw h tt
]

mov_reg-is_scoped :
    (m d : Register) (set_flags : Bool) → is_scoped [] (Logic.mov_reg m d set_flags) ≡ true
unfolding is_scoped is_bound Logic.mov_reg
mov_reg-is_scoped m d true = refl
mov_reg-is_scoped m d false = refl

mrs-is_scoped : (r : Register) (sysm : SpecialRegister) → is_scoped [] (Logic.mrs r sysm) ≡ true
unfolding is_scoped is_bound Logic.mrs arm_special_register_to_operand
mrs-is_scoped r apsr = refl
mrs-is_scoped r iapsr = refl
mrs-is_scoped r eapsr = refl
mrs-is_scoped r xpsr = refl
mrs-is_scoped r ipsr = refl
mrs-is_scoped r epsr = refl
mrs-is_scoped r iepsr = refl
mrs-is_scoped r msp = refl
mrs-is_scoped r psp = refl
mrs-is_scoped r primask = refl
mrs-is_scoped r control = refl

msr_reg-is_scoped :
    (r : Register) (sysm : SpecialRegister) → is_scoped [] (Logic.msr_reg r sysm) ≡ true
unfolding is_scoped is_bound Logic.msr_reg arm_special_register_to_operand
msr_reg-is_scoped r apsr = refl
msr_reg-is_scoped r iapsr = refl
msr_reg-is_scoped r eapsr = refl
msr_reg-is_scoped r xpsr = refl
msr_reg-is_scoped r ipsr = refl
msr_reg-is_scoped r epsr = refl
msr_reg-is_scoped r iepsr = refl
msr_reg-is_scoped r msp = refl
msr_reg-is_scoped r psp = refl
msr_reg-is_scoped r primask = refl
msr_reg-is_scoped r control = refl

translation-IsScoped : (o : ArmOperation) → IsScoped (operations_of o)
unfolding IsScoped operations_of is_scoped is_bound Arithmetic.adc_reg Arithmetic.add_imm
    Arithmetic.add_reg Arithmetic.add_imm_sp Arithmetic.add_reg_sp Arithmetic.adr Arithmetic.cmn_reg
    Arithmetic.cmp_imm Arithmetic.cmp_reg Arithmetic.mul Arithmetic.rsb_imm Arithmetic.sbc_reg
    Arithmetic.sub_imm Arithmetic.sub_reg Arithmetic.sub_imm_sp Logic.and_reg Logic.bic_reg
    Logic.eor_reg Logic.mov_imm Logic.mvn_reg Logic.orr_reg Logic.sxtb Logic.sxth Logic.tst_reg
    Logic.uxtb Logic.uxth Shifts.asr_imm Shifts.asr_reg Shifts.lsl_imm Shifts.lsl_reg Shifts.lsr_imm
    Shifts.lsr_reg Shifts.ror_reg Branches.bl Branches.blx_reg Branches.bx Memory.ldr_imm
    Memory.ldr_literal Memory.ldr_reg Memory.ldrb_imm Memory.ldrb_reg Memory.ldrh_imm
    Memory.ldrh_reg Memory.ldrsb_reg Memory.ldrsh Memory.str_imm Memory.str_reg Memory.strb_imm
    Memory.strb_reg Memory.strh_imm Memory.strh_reg Bytes.rev Bytes.rev16 Bytes.revsh
translation-IsScoped (ArmOperation.udf imm) = tt
translation-IsScoped (ArmOperation.adc_reg m n d) = refl
translation-IsScoped (ArmOperation.add_imm imm n d) = refl
translation-IsScoped (ArmOperation.add_reg m n d) = refl
translation-IsScoped (ArmOperation.add_imm_sp d imm) = refl
translation-IsScoped (ArmOperation.add_reg_sp d m) = refl
translation-IsScoped (ArmOperation.adr d imm) = refl
translation-IsScoped (ArmOperation.and_reg m dn) = refl
translation-IsScoped (ArmOperation.asr_imm imm m d) = refl
translation-IsScoped (ArmOperation.asr_reg m dn) = refl
translation-IsScoped (ArmOperation.b cond imm) = b-IsScoped cond imm
translation-IsScoped (ArmOperation.bic_reg m dn) = refl
translation-IsScoped (ArmOperation.bkpt imm) = refl
translation-IsScoped (ArmOperation.bl imm) = refl
translation-IsScoped (ArmOperation.blx_reg m) = refl
translation-IsScoped (ArmOperation.bx m) = refl
translation-IsScoped (ArmOperation.cmn_reg m n) = refl
translation-IsScoped (ArmOperation.cmp_imm n imm) = refl
translation-IsScoped (ArmOperation.cmp_reg m n) = refl
translation-IsScoped (ArmOperation.cps im) = refl
translation-IsScoped ArmOperation.cpy = tt
translation-IsScoped (ArmOperation.dmb option) = refl
translation-IsScoped (ArmOperation.dsb option) = refl
translation-IsScoped (ArmOperation.eor_reg m dn) = refl
translation-IsScoped (ArmOperation.isb option) = refl
translation-IsScoped (ArmOperation.ldm n reg_list) = ldm-is_scoped n reg_list
translation-IsScoped (ArmOperation.ldr_imm imm n t) = refl
translation-IsScoped (ArmOperation.ldr_literal t imm) = refl
translation-IsScoped (ArmOperation.ldr_reg m n t) = refl
translation-IsScoped (ArmOperation.ldrb_imm imm n t) = refl
translation-IsScoped (ArmOperation.ldrb_reg m n t) = refl
translation-IsScoped (ArmOperation.ldrh_imm imm n t) = refl
translation-IsScoped (ArmOperation.ldrh_reg m n t) = refl
translation-IsScoped (ArmOperation.ldrsb_reg m n t) = refl
translation-IsScoped (ArmOperation.ldrsh m n t) = refl
translation-IsScoped (ArmOperation.lsl_imm imm m d) = refl
translation-IsScoped (ArmOperation.lsl_reg m dn) = refl
translation-IsScoped (ArmOperation.lsr_imm imm m d) = refl
translation-IsScoped (ArmOperation.lsr_reg m dn) = refl
translation-IsScoped (ArmOperation.mov_imm d imm) = refl
translation-IsScoped (ArmOperation.mov_reg m d set_flags) = mov_reg-is_scoped m d set_flags
translation-IsScoped (ArmOperation.mrs d sysm) = mrs-is_scoped d sysm
translation-IsScoped (ArmOperation.msr_reg n sysm) = msr_reg-is_scoped n sysm
translation-IsScoped (ArmOperation.mul n dm) = refl
translation-IsScoped (ArmOperation.mvn_reg m d) = refl
translation-IsScoped ArmOperation.nop = refl
translation-IsScoped (ArmOperation.orr_reg m dn) = refl
translation-IsScoped (ArmOperation.pop reg_list) = pop-is_scoped reg_list
translation-IsScoped (ArmOperation.push reg_list) = push-is_scoped reg_list
translation-IsScoped (ArmOperation.rev m d) = refl
translation-IsScoped (ArmOperation.rev16 m d) = refl
translation-IsScoped (ArmOperation.revsh m d) = refl
translation-IsScoped (ArmOperation.ror_reg m dn) = refl
translation-IsScoped (ArmOperation.rsb_imm n d) = refl
translation-IsScoped (ArmOperation.sbc_reg m dn) = refl
translation-IsScoped ArmOperation.sev = refl
translation-IsScoped (ArmOperation.stm n reg_list) = stm-is_scoped n reg_list
translation-IsScoped (ArmOperation.str_imm imm n t) = refl
translation-IsScoped (ArmOperation.str_reg m n t) = refl
translation-IsScoped (ArmOperation.strb_imm imm n t) = refl
translation-IsScoped (ArmOperation.strb_reg m n t) = refl
translation-IsScoped (ArmOperation.strh_imm imm n t) = refl
translation-IsScoped (ArmOperation.strh_reg m n t) = refl
translation-IsScoped (ArmOperation.sub_imm imm n d) = refl
translation-IsScoped (ArmOperation.sub_reg m n d) = refl
translation-IsScoped (ArmOperation.sub_imm_sp imm) = refl
translation-IsScoped (ArmOperation.svc imm) = refl
translation-IsScoped (ArmOperation.sxtb m d) = refl
translation-IsScoped (ArmOperation.sxth m d) = refl
translation-IsScoped (ArmOperation.tst_reg m n) = refl
translation-IsScoped (ArmOperation.uxtb m d) = refl
translation-IsScoped (ArmOperation.uxth m d) = refl
translation-IsScoped ArmOperation.wfe = tt
translation-IsScoped ArmOperation.wfi = tt
translation-IsScoped ArmOperation.yield = tt

-- In the operations that an instruction is translated to, every local that is read was written
-- before, and no immediate is written.
pub operations_of-is_scoped :
    (o : ArmOperation) (os : List Operation)
    → operations_of {E = GaError} o ≡ ok os
    → is_scoped [] os ≡ true
unfolding IsScoped
operations_of-is_scoped o os h = subst IsScoped h (translation-IsScoped o)
