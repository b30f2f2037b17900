-- ===== src/Arm/V6/Correct.antt =====
-- The translation of symex/src/general_assembly/arch/arm/v6/decoder.rs and the executor together:
-- executing what `expand` makes of a data-processing instruction is what the manual says of it.
use symex.Common.{◌%◌, ◌^◌, ◌≡◌, ◌≢◌, false, name_eq}
use symex.Smt.Words.{half}
use symex.Smt.Boolector.{Boolector}
use symex.Project.{Project}
use symex.Arm.V6.Instructions.{ArmOperation}
use symex.Arm.V6.Registers.{register_name}
use symex.Arm.V6.Timing.{is_pc}
use symex.Arm.V6.Machine.{ArmState, read_reg}
use symex.Arm.V6.Refines.{Refines}
use symex.Arm.V6.Refines.Sums
use symex.Arm.V6.Refines.Differences
use symex.Arm.V6.Refines.Logic
use symex.Arm.V6.Refines.Moves

module _ ⦃b : Boolector⦄ where
  -- The instructions, and the values of their operands, for which the translation is right: no
  -- operand is the PC, what is subtracted is not the least number, and SUBS does not overwrite
  -- what it subtracts.
  abbrev pub Covered : ArmOperation → (b.Env → ArmState) → Type 0
  Covered (ArmOperation.add_imm imm n d) m = (is_pc n ≡ false) × (is_pc d ≡ false)
  Covered (ArmOperation.add_reg r n d) m = (is_pc r ≡ false) × (is_pc n ≡ false) × (is_pc d ≡ false)
  Covered (ArmOperation.add_imm_sp d imm) m = is_pc d ≡ false
  Covered (ArmOperation.add_reg_sp d r) m = (is_pc d ≡ false) × (is_pc r ≡ false)
  Covered (ArmOperation.cmn_reg r n) m = (is_pc r ≡ false) × (is_pc n ≡ false)
  Covered (ArmOperation.sub_imm imm n d) m =
      (is_pc n ≡ false) × (is_pc d ≡ false) × (imm % 2 ^ 32 ≢ half 32)
  Covered (ArmOperation.sub_reg r n d) m =
      (is_pc r ≡ false)
      × (is_pc n ≡ false)
      × (is_pc d ≡ false)
      × (name_eq (register_name d) (register_name r) ≡ false)
      × ((e : b.Env) → read_reg r (m e) ≢ half 32)
  Covered (ArmOperation.rsb_imm n d) m =
      (is_pc n ≡ false) × (is_pc d ≡ false) × ((e : b.Env) → read_reg n (m e) ≢ half 32)
  Covered (ArmOperation.cmp_imm n imm) m = (is_pc n ≡ false) × (imm % 2 ^ 32 ≢ half 32)
  Covered (ArmOperation.cmp_reg r n) m =
      (is_pc r ≡ false) × (is_pc n ≡ false) × ((e : b.Env) → read_reg r (m e) ≢ half 32)
  Covered (ArmOperation.sub_imm_sp imm) m = Unit
  Covered (ArmOperation.and_reg r dn) m = (is_pc r ≡ false) × (is_pc dn ≡ false)
  Covered (ArmOperation.orr_reg r dn) m = (is_pc r ≡ false) × (is_pc dn ≡ false)
  Covered (ArmOperation.eor_reg r dn) m = (is_pc r ≡ false) × (is_pc dn ≡ false)
  Covered (ArmOperation.mul n dm) m = (is_pc n ≡ false) × (is_pc dm ≡ false)
  Covered (ArmOperation.mov_imm d imm) m = is_pc d ≡ false
  Covered (ArmOperation.mov_reg r d set_flags) m = (is_pc r ≡ false) × (is_pc d ≡ false)
  Covered (ArmOperation.mvn_reg r d) m = (is_pc r ≡ false) × (is_pc d ≡ false)
  Covered (ArmOperation.uxtb r d) m = (is_pc r ≡ false) × (is_pc d ≡ false)
  Covered (ArmOperation.uxth r d) m = (is_pc r ≡ false) × (is_pc d ≡ false)
  Covered (ArmOperation.sxtb r d) m = (is_pc r ≡ false) × (is_pc d ≡ false)
  Covered (ArmOperation.sxth r d) m = (is_pc r ≡ false) × (is_pc d ≡ false)
  Covered (ArmOperation.tst_reg r n) m = (is_pc r ≡ false) × (is_pc n ≡ false)
  Covered _ m = ⊥
