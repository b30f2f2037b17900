-- ===== src/Arm/V6/Decoder.antt =====
-- `ArmV6M::expand` of symex/src/general_assembly/arch/arm/v6/decoder.rs: the operations of an
-- instruction. Each arm of its match is a function of its own below.
pub mod Arithmetic
pub mod Logic
pub mod Shifts
pub mod Bytes
pub mod Branches
pub mod Memory
pub mod Lists
use symex.Common.{List, [], false, Outcome, ok, panic, ◌>>=◌}
use symex.Ga.Operation.{Operation}
use symex.State.{Instruction}
use symex.Arm.V6.Instructions.{ArmOperation, ArmInstruction, bit32, bit16}
use symex.Arm.V6.Timing.{cycle_count_m0plus_core}
use symex.Arm.V6.Decoder.Arithmetic
use symex.Arm.V6.Decoder.Logic
use symex.Arm.V6.Decoder.Shifts
use symex.Arm.V6.Decoder.Bytes
use symex.Arm.V6.Decoder.Branches
use symex.Arm.V6.Decoder.Memory
use symex.Arm.V6.Decoder.Lists

-- The match on the instruction.
unfoldable pub operations_of : {E : Type 0} → ArmOperation → Outcome E (List Operation)
operations_of (ArmOperation.udf imm) = panic
operations_of (ArmOperation.adc_reg m n d) = ok (Arithmetic.adc_reg m n d)
operations_of (ArmOperation.add_imm imm n d) = ok (Arithmetic.add_imm imm n d)
operations_of (ArmOperation.add_reg m n d) = ok (Arithmetic.add_reg m n d)
operations_of (ArmOperation.add_imm_sp d imm) = ok (Arithmetic.add_imm_sp d imm)
operations_of (ArmOperation.add_reg_sp d m) = ok (Arithmetic.add_reg_sp d m)
operations_of (ArmOperation.adr d imm) = ok (Arithmetic.adr d imm)
operations_of (ArmOperation.and_reg m dn) = ok (Logic.and_reg m dn)
operations_of (ArmOperation.asr_imm imm m d) = ok (Shifts.asr_imm imm m d)
operations_of (ArmOperation.asr_reg m dn) = ok (Shifts.asr_reg m dn)
operations_of (ArmOperation.b cond imm) = Branches.b cond imm
operations_of (ArmOperation.bic_reg m dn) = ok (Logic.bic_reg m dn)
operations_of (ArmOperation.bkpt imm) = ok []
operations_of (ArmOperation.bl imm) = ok (Branches.bl imm)
operations_of (ArmOperation.blx_reg m) = ok (Branches.blx_reg m)
operations_of (ArmOperation.bx m) = ok (Branches.bx m)
operations_of (ArmOperation.cmn_reg m n) = ok (Arithmetic.cmn_reg m n)
operations_of (ArmOperation.cmp_imm n imm) = ok (Arithmetic.cmp_imm n imm)
operations_of (ArmOperation.cmp_reg m n) = ok (Arithmetic.cmp_reg m n)
operations_of (ArmOperation.cps im) = ok []
operations_of ArmOperation.cpy = panic
operations_of (ArmOperation.dmb option) = ok []
operations_of (ArmOperation.dsb option) = ok []
operations_of (ArmOperation.eor_reg m dn) = ok (Logic.eor_reg m dn)
operations_of (ArmOperation.isb option) = ok []
operations_of (ArmOperation.ldm n reg_list) = ok (Lists.ldm n reg_list)
operations_of (ArmOperation.ldr_imm imm n t) = ok (Memory.ldr_imm imm n t)
operations_of (ArmOperation.ldr_literal t imm) = ok (Memory.ldr_literal t imm)
operations_of (ArmOperation.ldr_reg m n t) = ok (Memory.ldr_reg m n t)
operations_of (ArmOperation.ldrb_imm imm n t) = ok (Memory.ldrb_imm imm n t)
operations_of (ArmOperation.ldrb_reg m n t) = ok (Memory.ldrb_reg m n t)
operations_of (ArmOperation.ldrh_imm imm n t) = ok (Memory.ldrh_imm imm n t)
operations_of (ArmOperation.ldrh_reg m n t) = ok (Memory.ldrh_reg m n t)
operations_of (ArmOperation.ldrsb_reg m n t) = ok (Memory.ldrsb_reg m n t)
operations_of (ArmOperation.ldrsh m n t) = ok (Memory.ldrsh m n t)
operations_of (ArmOperation.lsl_imm imm m d) = ok (Shifts.lsl_imm imm m d)
operations_of (ArmOperation.lsl_reg m dn) = ok (Shifts.lsl_reg m dn)
operations_of (ArmOperation.lsr_imm imm m d) = ok (Shifts.lsr_imm imm m d)
operations_of (ArmOperation.lsr_reg m dn) = ok (Shifts.lsr_reg m dn)
operations_of (ArmOperation.mov_imm d imm) = ok (Logic.mov_imm d imm)
operations_of (ArmOperation.mov_reg m d set_flags) = ok (Logic.mov_reg m d set_flags)
operations_of (ArmOperation.mrs d sysm) = ok (Logic.mrs d sysm)
operations_of (ArmOperation.msr_reg n sysm) = ok (Logic.msr_reg n sysm)
operations_of (ArmOperation.mul n dm) = ok (Arithmetic.mul n dm)
operations_of (ArmOperation.mvn_reg m d) = ok (Logic.mvn_reg m d)
operations_of ArmOperation.nop = ok []
operations_of (ArmOperation.orr_reg m dn) = ok (Logic.orr_reg m dn)
operations_of (ArmOperation.pop reg_list) = ok (Lists.pop reg_list)
operations_of (ArmOperation.push reg_list) = ok (Lists.push reg_list)
operations_of (ArmOperation.rev m d) = ok (Bytes.rev m d)
operations_of (ArmOperation.rev16 m d) = ok (Bytes.rev16 m d)
operations_of (ArmOperation.revsh m d) = ok (Bytes.revsh m d)
operations_of (ArmOperation.ror_reg m dn) = ok (Shifts.ror_reg m dn)
operations_of (ArmOperation.rsb_imm n d) = ok (Arithmetic.rsb_imm n d)
operations_of (ArmOperation.sbc_reg m dn) = ok (Arithmetic.sbc_reg m dn)
operations_of ArmOperation.sev = ok []
operations_of (ArmOperation.stm n reg_list) = ok (Lists.stm n reg_list)
operations_of (ArmOperation.str_imm imm n t) = ok (Memory.str_imm imm n t)
operations_of (ArmOperation.str_reg m n t) = ok (Memory.str_reg m n t)
operations_of (ArmOperation.strb_imm imm n t) = ok (Memory.strb_imm imm n t)
operations_of (ArmOperation.strb_reg m n t) = ok (Memory.strb_reg m n t)
operations_of (ArmOperation.strh_imm imm n t) = ok (Memory.strh_imm imm n t)
operations_of (ArmOperation.strh_reg m n t) = ok (Memory.strh_reg m n t)
operations_of (ArmOperation.sub_imm imm n d) = ok (Arithmetic.sub_imm imm n d)
operations_of (ArmOperation.sub_reg m n d) = ok (Arithmetic.sub_reg m n d)
operations_of (ArmOperation.sub_imm_sp imm) = ok (Arithmetic.sub_imm_sp imm)
operations_of (ArmOperation.svc imm) = ok []
operations_of (ArmOperation.sxtb m d) = ok (Logic.sxtb m d)
operations_of (ArmOperation.sxth m d) = ok (Logic.sxth m d)
operations_of (ArmOperation.tst_reg m n) = ok (Logic.tst_reg m n)
operations_of (ArmOperation.uxtb m d) = ok (Logic.uxtb m d)
operations_of (ArmOperation.uxth m d) = ok (Logic.uxth m d)
operations_of ArmOperation.wfe = panic
operations_of ArmOperation.wfi = panic
operations_of ArmOperation.yield = panic

unfoldable pub expand : {E : Type 0} → ArmInstruction → Outcome E Instruction
unfolding operations_of cycle_count_m0plus_core
expand instr = do
  operations ← operations_of instr.operation
  max_cycle ← cycle_count_m0plus_core instr.operation
  ok (record {
    instruction_size = elim instr.width [ bit32 ↦ 32 | bit16 ↦ 16 ];
    operations = operations;
    max_cycle = max_cycle;
    memory_access = false;
  })
