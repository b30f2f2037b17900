-- ===== src/Arm/V6/Instructions.antt =====
-- The instructions of the parser that symex/src/general_assembly/arch/arm/v6/decoder.rs takes apart:
-- the constructors and fields that its patterns name, in their order there.
use symex.Common.{ℕ, Bool, List}

pub data Register : Type 0 where
  r0 r1 r2 r3 r4 r5 r6 r7 r8 r9 r10 r11 r12 sp lr pc : Register

pub data SpecialRegister : Type 0 where
  apsr iapsr eapsr xpsr ipsr epsr iepsr msp psp primask control : SpecialRegister

pub data ArmCondition : Type 0 where
  eq ne cs cc_clear mi pl vs vc hi ls ge lt gt le always : ArmCondition

pub data ArmOperation : Type 0 where
  udf : ℕ → ArmOperation
  adc_reg : (m n d : Register) → ArmOperation
  add_imm : (imm : ℕ) (n d : Register) → ArmOperation
  add_reg : (m n d : Register) → ArmOperation
  add_imm_sp : (d : Register) (imm : ℕ) → ArmOperation
  add_reg_sp : (d m : Register) → ArmOperation
  adr : (d : Register) (imm : ℕ) → ArmOperation
  and_reg : (m dn : Register) → ArmOperation
  asr_imm : (imm : ℕ) (m d : Register) → ArmOperation
  asr_reg : (m dn : Register) → ArmOperation
  b : (cond : ArmCondition) (imm : ℕ) → ArmOperation
  bic_reg : (m dn : Register) → ArmOperation
  bkpt : (imm : ℕ) → ArmOperation
  bl : (imm : ℕ) → ArmOperation
  blx_reg : (m : Register) → ArmOperation
  bx : (m : Register) → ArmOperation
  cmn_reg : (m n : Register) → ArmOperation
  cmp_imm : (n : Register) (imm : ℕ) → ArmOperation
  cmp_reg : (m n : Register) → ArmOperation
  cps : (im : Bool) → ArmOperation
  cpy : ArmOperation
  dmb : (option : ℕ) → ArmOperation
  dsb : (option : ℕ) → ArmOperation
  eor_reg : (m dn : Register) → ArmOperation
  isb : (option : ℕ) → ArmOperation
  ldm : (n : Register) (reg_list : List Register) → ArmOperation
  ldr_imm : (imm : ℕ) (n t : Register) → ArmOperation
  ldr_literal : (t : Register) (imm : ℕ) → ArmOperation
  ldr_reg : (m n t : Register) → ArmOperation
  ldrb_imm : (imm : ℕ) (n t : Register) → ArmOperation
  ldrb_reg : (m n t : Register) → ArmOperation
  ldrh_imm : (imm : ℕ) (n t : Register) → ArmOperation
  ldrh_reg : (m n t : Register) → ArmOperation
  ldrsb_reg : (m n t : Register) → ArmOperation
  ldrsh : (m n t : Register) → ArmOperation
  lsl_imm : (imm : ℕ) (m d : Register) → ArmOperation
  lsl_reg : (m dn : Register) → ArmOperation
  lsr_imm : (imm : ℕ) (m d : Register) → ArmOperation
  lsr_reg : (m dn : Register) → ArmOperation
  mov_imm : (d : Register) (imm : ℕ) → ArmOperation
  mov_reg : (m d : Register) (set_flags : Bool) → ArmOperation
  mrs : (d : Register) (sysm : SpecialRegister) → ArmOperation
  msr_reg : (n : Register) (sysm : SpecialRegister) → ArmOperation
  mul : (n dm : Register) → ArmOperation
  mvn_reg : (m d : Register) → ArmOperation
  nop : ArmOperation
  orr_reg : (m dn : Register) → ArmOperation
  pop : (reg_list : List Register) → ArmOperation
  push : (reg_list : List Register) → ArmOperation
  rev : (m d : Register) → ArmOperation
  rev16 : (m d : Register) → ArmOperation
  revsh : (m d : Register) → ArmOperation
  ror_reg : (m dn : Register) → ArmOperation
  rsb_imm : (n d : Register) → ArmOperation
  sbc_reg : (m dn : Register) → ArmOperation
  sev : ArmOperation
  stm : (n : Register) (reg_list : List Register) → ArmOperation
  str_imm : (imm : ℕ) (n t : Register) → ArmOperation
  str_reg : (m n t : Register) → ArmOperation
  strb_imm : (imm : ℕ) (n t : Register) → ArmOperation
  strb_reg : (m n t : Register) → ArmOperation
  strh_imm : (imm : ℕ) (n t : Register) → ArmOperation
  strh_reg : (m n t : Register) → ArmOperation
  sub_imm : (imm : ℕ) (n d : Register) → ArmOperation
  sub_reg : (m n d : Register) → ArmOperation
  sub_imm_sp : (imm : ℕ) → ArmOperation
  svc : (imm : ℕ) → ArmOperation
  sxtb : (m d : Register) → ArmOperation
  sxth : (m d : Register) → ArmOperation
  tst_reg : (m n : Register) → ArmOperation
  uxtb : (m d : Register) → ArmOperation
  uxth : (m d : Register) → ArmOperation
  wfe : ArmOperation
  wfi : ArmOperation
  yield : ArmOperation

pub data InstructionWidth : Type 0 where
  bit32 bit16 : InstructionWidth

pub record ArmInstruction : Type 0 where
  pub operation : ArmOperation
  pub width : InstructionWidth
