-- ===== src/Arm/V6/Timing.antt =====
-- symex/src/general_assembly/arch/arm/v6/timing.rs: the cycle counts of the instructions on the
-- Cortex-M0+ and the Cortex-M0.
use symex.Common.{
  ℕ, zero, suc, ◌+◌, length, Bool, true, false, ◌&&◌, none, some, lookup, leb, if◌then◌else◌,
  Outcome, ok, panic, ◌>>=◌, unwrap,
}
use symex.Errors.{GaError}
use symex.Smt.Boolector.{Boolector}
use symex.Smt.Expr.{get_constant}
use symex.State.{GaState, CycleCount, value, function}
use symex.Arm.V6.Instructions.{Register, pc, ArmOperation}
use symex.Arm.V6.Decoder.Lists.{contains}

-- The functions that cycle counts refer to.
abbrev pub address_max_cycle : ℕ
address_max_cycle = 0

abbrev pub two_if_jumped : ℕ
two_if_jumped = 1

abbrev pub three_if_jumped : ℕ
three_if_jumped = 2

module _ ⦃b : Boolector⦄ where
  -- The address of the last access decides, where it is a constant.
  unfoldable pub address_max_cycle_function : GaState → Outcome GaError ℕ
  address_max_cycle_function s = do
    last ← unwrap (lookup "LastAddr" s.registers)
    constant ← get_constant last
    elim constant [
      | some address ↦ ok (if leb 0xd0000000 address && leb address 0xdfffffff then 1 else 2)
      | none ↦ ok 2
    ]

  unfoldable pub cycles : ℕ → GaState → Outcome GaError ℕ
  unfolding address_max_cycle_function
  cycles zero s = address_max_cycle_function s
  cycles (suc zero) s = ok (if s.has_jumped then 2 else 1)
  cycles (suc (suc n)) s = ok (if s.has_jumped then 3 else 1)

unfoldable pub is_pc : Register → Bool
is_pc pc = true
is_pc _ = false

unfoldable pub cycle_count_m0plus_core : {E : Type 0} → ArmOperation → Outcome E CycleCount
unfolding is_pc contains
cycle_count_m0plus_core (ArmOperation.adc_reg m n d) = ok (value 1)
cycle_count_m0plus_core (ArmOperation.add_imm imm n d) = ok (value 1)
cycle_count_m0plus_core (ArmOperation.add_reg m n d) = ok (value (if is_pc d then 2 else 1))
cycle_count_m0plus_core (ArmOperation.add_imm_sp d imm) = ok (value 1)
cycle_count_m0plus_core (ArmOperation.add_reg_sp d m) = ok (value 1)
cycle_count_m0plus_core (ArmOperation.adr d imm) = ok (value 1)
cycle_count_m0plus_core (ArmOperation.and_reg m dn) = ok (value 1)
cycle_count_m0plus_core (ArmOperation.asr_imm imm m d) = ok (value 1)
cycle_count_m0plus_core (ArmOperation.asr_reg m dn) = ok (value 1)
cycle_count_m0plus_core (ArmOperation.b cond imm) = ok (function two_if_jumped)
cycle_count_m0plus_core (ArmOperation.bic_reg m dn) = ok (value 1)
cycle_count_m0plus_core (ArmOperation.bkpt imm) = ok (value 0)
cycle_count_m0plus_core (ArmOperation.bl imm) = ok (value 3)
cycle_count_m0plus_core (ArmOperation.blx_reg m) = ok (value 2)
cycle_count_m0plus_core (ArmOperation.bx m) = ok (value 2)
cycle_count_m0plus_core (ArmOperation.cmn_reg m n) = ok (value 1)
cycle_count_m0plus_core (ArmOperation.cmp_imm n imm) = ok (value 1)
cycle_count_m0plus_core (ArmOperation.cmp_reg m n) = ok (value 1)
cycle_count_m0plus_core (ArmOperation.cps im) = ok (value 1)
cycle_count_m0plus_core ArmOperation.cpy = panic
cycle_count_m0plus_core (ArmOperation.dmb option) = ok (value 3)
cycle_count_m0plus_core (ArmOperation.dsb option) = ok (value 3)
cycle_count_m0plus_core (ArmOperation.eor_reg m dn) = ok (value 1)
cycle_count_m0plus_core (ArmOperation.isb option) = ok (value 3)
cycle_count_m0plus_core (ArmOperation.ldm n reg_list) = ok (value (1 + length reg_list))
cycle_count_m0plus_core (ArmOperation.ldr_imm imm n t) = ok (function address_max_cycle)
cycle_count_m0plus_core (ArmOperation.ldr_literal t imm) = ok (function address_max_cycle)
cycle_count_m0plus_core (ArmOperation.ldr_reg m n t) = ok (function address_max_cycle)
cycle_count_m0plus_core (ArmOperation.ldrb_imm imm n t) = ok (function address_max_cycle)
cycle_count_m0plus_core (ArmOperation.ldrb_reg m n t) = ok (function address_max_cycle)
cycle_count_m0plus_core (ArmOperation.ldrh_imm imm n t) = ok (function address_max_cycle)
cycle_count_m0plus_core (ArmOperation.ldrh_reg m n t) = ok (function address_max_cycle)
cycle_count_m0plus_core (ArmOperation.ldrsb_reg m n t) = ok (function address_max_cycle)
cycle_count_m0plus_core (ArmOperation.ldrsh m n t) = ok (function address_max_cycle)
cycle_count_m0plus_core (ArmOperation.lsl_imm imm m d) = ok (value 1)
cycle_count_m0plus_core (ArmOperation.lsl_reg m dn) = ok (value 1)
cycle_count_m0plus_core (ArmOperation.lsr_imm imm m d) = ok (value 1)
cycle_count_m0plus_core (ArmOperation.lsr_reg m dn) = ok (value 1)
cycle_count_m0plus_core (ArmOperation.mov_imm d imm) = ok (value 1)
cycle_count_m0plus_core (ArmOperation.mov_reg m d set_flags) = ok (value (if is_pc d then 2 else 1))
cycle_count_m0plus_core (ArmOperation.mrs d sysm) = ok (value 3)
cycle_count_m0plus_core (ArmOperation.msr_reg n sysm) = ok (value 3)
cycle_count_m0plus_core (ArmOperation.mul n dm) = ok (value 32)
cycle_count_m0plus_core (ArmOperation.mvn_reg m d) = ok (value 1)
cycle_count_m0plus_core ArmOperation.nop = ok (value 1)
cycle_count_m0plus_core (ArmOperation.orr_reg m dn) = ok (value 1)
cycle_count_m0plus_core (ArmOperation.pop reg_list) =
    ok (value ((if contains reg_list pc then 3 else 1) + length reg_list))
cycle_count_m0plus_core (ArmOperation.push reg_list) = ok (value (1 + length reg_list))
cycle_count_m0plus_core (ArmOperation.rev m d) = ok (value 1)
cycle_count_m0plus_core (ArmOperation.rev16 m d) = ok (value 1)
cycle_count_m0plus_core (ArmOperation.revsh m d) = ok (value 1)
cycle_count_m0plus_core (ArmOperation.ror_reg m dn) = ok (value 1)
cycle_count_m0plus_core (ArmOperation.rsb_imm n d) = ok (value 1)
cycle_count_m0plus_core (ArmOperation.sbc_reg m dn) = ok (value 1)
cycle_count_m0plus_core ArmOperation.sev = ok (value 1)
cycle_count_m0plus_core (ArmOperation.stm n reg_list) = ok (value (1 + length reg_list))
cycle_count_m0plus_core (ArmOperation.str_imm imm n t) = ok (function address_max_cycle)
cycle_count_m0plus_core (ArmOperation.str_reg m n t) = ok (function address_max_cycle)
cycle_count_m0plus_core (ArmOperation.strb_imm imm n t) = ok (function address_max_cycle)
cycle_count_m0plus_core (ArmOperation.strb_reg m n t) = ok (function address_max_cycle)
cycle_count_m0plus_core (ArmOperation.strh_imm imm n t) = ok (function address_max_cycle)
cycle_count_m0plus_core (ArmOperation.strh_reg m n t) = ok (function address_max_cycle)
cycle_count_m0plus_core (ArmOperation.sub_imm imm n d) = ok (value 1)
cycle_count_m0plus_core (ArmOperation.sub_reg m n d) = ok (value 1)
cycle_count_m0plus_core (ArmOperation.sub_imm_sp imm) = ok (value 1)
cycle_count_m0plus_core (ArmOperation.svc imm) = ok (value 0)
cycle_count_m0plus_core (ArmOperation.sxtb m d) = ok (value 1)
cycle_count_m0plus_core (ArmOperation.sxth m d) = ok (value 1)
cycle_count_m0plus_core (ArmOperation.tst_reg m n) = ok (value 1)
cycle_count_m0plus_core (ArmOperation.uxtb m d) = ok (value 1)
cycle_count_m0plus_core (ArmOperation.uxth m d) = ok (value 1)
cycle_count_m0plus_core ArmOperation.wfe = panic
cycle_count_m0plus_core ArmOperation.wfi = panic
cycle_count_m0plus_core ArmOperation.yield = panic
cycle_count_m0plus_core (ArmOperation.udf imm) = panic

unfoldable pub cycle_count_m0_core : {E : Type 0} → ArmOperation → Outcome E CycleCount
unfolding is_pc contains
cycle_count_m0_core (ArmOperation.adc_reg m n d) = ok (value 1)
cycle_count_m0_core (ArmOperation.add_imm imm n d) = ok (value 1)
cycle_count_m0_core (ArmOperation.add_reg m n d) = ok (value (if is_pc d then 3 else 1))
cycle_count_m0_core (ArmOperation.add_imm_sp d imm) = ok (value 1)
cycle_count_m0_core (ArmOperation.add_reg_sp d m) = ok (value 1)
cycle_count_m0_core (ArmOperation.adr d imm) = ok (value 1)
cycle_count_m0_core (ArmOperation.and_reg m dn) = ok (value 1)
cycle_count_m0_core (ArmOperation.asr_imm imm m d) = ok (value 1)
cycle_count_m0_core (ArmOperation.asr_reg m dn) = ok (value 1)
cycle_count_m0_core (ArmOperation.b cond imm) = ok (function three_if_jumped)
cycle_count_m0_core (ArmOperation.bic_reg m dn) = ok (value 1)
cycle_count_m0_core (ArmOperation.bkpt imm) = ok (value 0)
cycle_count_m0_core (ArmOperation.bl imm) = ok (value 4)
cycle_count_m0_core (ArmOperation.blx_reg m) = ok (value 3)
cycle_count_m0_core (ArmOperation.bx m) = ok (value 3)
cycle_count_m0_core (ArmOperation.cmn_reg m n) = ok (value 1)
cycle_count_m0_core (ArmOperation.cmp_imm n imm) = ok (value 1)
cycle_count_m0_core (ArmOperation.cmp_reg m n) = ok (value 1)
cycle_count_m0_core (ArmOperation.cps im) = ok (value 1)
cycle_count_m0_core ArmOperation.cpy = panic
cycle_count_m0_core (ArmOperation.dmb option) = ok (value 4)
cycle_count_m0_core (ArmOperation.dsb option) = ok (value 4)
cycle_count_m0_core (ArmOperation.eor_reg m dn) = ok (value 1)
cycle_count_m0_core (ArmOperation.isb option) = ok (value 4)
cycle_count_m0_core (ArmOperation.ldm n reg_list) = ok (value (1 + length reg_list))
cycle_count_m0_core (ArmOperation.ldr_imm imm n t) = ok (value 2)
cycle_count_m0_core (ArmOperation.ldr_literal t imm) = ok (value 2)
cycle_count_m0_core (ArmOperation.ldr_reg m n t) = ok (value 2)
cycle_count_m0_core (ArmOperation.ldrb_imm imm n t) = ok (value 2)
cycle_count_m0_core (ArmOperation.ldrb_reg m n t) = ok (value 2)
cycle_count_m0_core (ArmOperation.ldrh_imm imm n t) = ok (value 2)
cycle_count_m0_core (ArmOperation.ldrh_reg m n t) = ok (value 2)
cycle_count_m0_core (ArmOperation.ldrsb_reg m n t) = ok (value 2)
cycle_count_m0_core (ArmOperation.ldrsh m n t) = ok (value 2)
cycle_count_m0_core (ArmOperation.lsl_imm imm m d) = ok (value 1)
cycle_count_m0_core (ArmOperation.lsl_reg m dn) = ok (value 1)
cycle_count_m0_core (ArmOperation.lsr_imm imm m d) = ok (value 1)
cycle_count_m0_core (ArmOperation.lsr_reg m dn) = ok (value 1)
cycle_count_m0_core (ArmOperation.mov_imm d imm) = ok (value 1)
cycle_count_m0_core (ArmOperation.mov_reg m d set_flags) = ok (value (if is_pc d then 3 else 1))
cycle_count_m0_core (ArmOperation.mrs d sysm) = ok (value 4)
cycle_count_m0_core (ArmOperation.msr_reg n sysm) = ok (value 4)
cycle_count_m0_core (ArmOperation.mul n dm) = ok (value 32)
cycle_count_m0_core (ArmOperation.mvn_reg m d) = ok (value 1)
cycle_count_m0_core ArmOperation.nop = ok (value 1)
cycle_count_m0_core (ArmOperation.orr_reg m dn) = ok (value 1)
cycle_count_m0_core (ArmOperation.pop reg_list) =
    ok (value ((if contains reg_list pc then 4 else 1) + length reg_list))
cycle_count_m0_core (ArmOperation.push reg_list) = ok (value (1 + length reg_list))
cycle_count_m0_core (ArmOperation.rev m d) = ok (value 1)
cycle_count_m0_core (ArmOperation.rev16 m d) = ok (value 1)
cycle_count_m0_core (ArmOperation.revsh m d) = ok (value 1)
cycle_count_m0_core (ArmOperation.ror_reg m dn) = ok (value 1)
cycle_count_m0_core (ArmOperation.rsb_imm n d) = ok (value 1)
cycle_count_m0_core (ArmOperation.sbc_reg m dn) = ok (value 1)
cycle_count_m0_core ArmOperation.sev = ok (value 1)
cycle_count_m0_core (ArmOperation.stm n reg_list) = ok (value (1 + length reg_list))
cycle_count_m0_core (ArmOperation.str_imm imm n t) = ok (value 2)
cycle_count_m0_core (ArmOperation.str_reg m n t) = ok (value 2)
cycle_count_m0_core (ArmOperation.strb_imm imm n t) = ok (value 2)
cycle_count_m0_core (ArmOperation.strb_reg m n t) = ok (value 2)
cycle_count_m0_core (ArmOperation.strh_imm imm n t) = ok (value 2)
cycle_count_m0_core (ArmOperation.strh_reg m n t) = ok (value 2)
cycle_count_m0_core (ArmOperation.sub_imm imm n d) = ok (value 1)
cycle_count_m0_core (ArmOperation.sub_reg m n d) = ok (value 1)
cycle_count_m0_core (ArmOperation.sub_imm_sp imm) = ok (value 1)
cycle_count_m0_core (ArmOperation.svc imm) = ok (value 0)
cycle_count_m0_core (ArmOperation.sxtb m d) = ok (value 1)
cycle_count_m0_core (ArmOperation.sxth m d) = ok (value 1)
cycle_count_m0_core (ArmOperation.tst_reg m n) = ok (value 1)
cycle_count_m0_core (ArmOperation.uxtb m d) = ok (value 1)
cycle_count_m0_core (ArmOperation.uxth m d) = ok (value 1)
cycle_count_m0_core ArmOperation.wfe = panic
cycle_count_m0_core ArmOperation.wfi = panic
cycle_count_m0_core ArmOperation.yield = panic
cycle_count_m0_core (ArmOperation.udf imm) = panic
