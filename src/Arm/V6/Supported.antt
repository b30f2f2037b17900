-- ===== src/Arm/V6/Supported.antt =====
-- The instructions that `ArmV6M::expand` of symex/src/general_assembly/arch/arm/v6/decoder.rs has no
-- translation for.
use symex.Common.{
  ℕ, ◌+◌, ◌-◌, ◌^◌, ◌≡◌, refl, Bool, true, false, leb, ltb, ◌⊎◌, inl, inr, Bool-cases, arith, ok,
  panic, Returns,
}
use symex.Errors.{GaError}
use symex.Arm.V6.Instructions.{ArmOperation, InstructionWidth, bit32, bit16}
use symex.Arm.V6.Timing.{cycle_count_m0plus_core}
use symex.Arm.V6.Decoder.{operations_of, expand}
use symex.Arm.V6.Decoder.Branches.{b}

-- Hints that wait, undefined instructions, CPY, and branches whose offset is at the end of the words.
unfoldable pub is_unsupported : ArmOperation → Bool
is_unsupported (ArmOperation.udf imm) = true
is_unsupported ArmOperation.cpy = true
is_unsupported (ArmOperation.b cond imm) = leb (2 ^ 32 - 2) imm
is_unsupported ArmOperation.wfe = true
is_unsupported ArmOperation.wfi = true
is_unsupported ArmOperation.yield = true
is_unsupported _ = false

unfoldable pub bits_of : InstructionWidth → ℕ
bits_of bit32 = 32
bits_of bit16 = 16

too_far : (imm : ℕ) → leb (2 ^ 32 - 2) imm ≡ true → ltb (imm + 2) (2 ^ 32) ≡ false
too_far imm h = ground arith

near : (imm : ℕ) → leb (2 ^ 32 - 2) imm ≡ false → ltb (imm + 2) (2 ^ 32) ≡ true
near imm h = ground arith

-- The translation panics for the instructions that are not supported, and for every other it
-- returns an instruction of the size of its encoding, with the operations and the cycle count of
-- the tables.
pub expand-Decided :
    (o : ArmOperation) (w : InstructionWidth)
    → ((is_unsupported o ≡ true)
        × (expand {E = GaError} (record { operation = o; width = w }) ≡ panic))
      ⊎ ((is_unsupported o ≡ false)
          × Returns {E = GaError} (expand (record { operation = o; width = w })) (λ i.
            (i.instruction_size ≡ bits_of w)
            × (operations_of {E = GaError} o ≡ ok i.operations)
            × (cycle_count_m0plus_core {E = GaError} o ≡ ok i.max_cycle)))
unfolding is_unsupported expand operations_of cycle_count_m0plus_core bits_of b
expand-Decided (ArmOperation.udf imm) w = inl (refl, refl)
expand-Decided (ArmOperation.adc_reg m n d) w =
    inr (refl, (_, refl, (elim w [ bit32 ↦ refl | bit16 ↦ refl ], refl, refl)))
expand-Decided (ArmOperation.add_imm imm n d) w =
    inr (refl, (_, refl, (elim w [ bit32 ↦ refl | bit16 ↦ refl ], refl, refl)))
expand-Decided (ArmOperation.add_reg m n d) w =
    inr (refl, (_, refl, (elim w [ bit32 ↦ refl | bit16 ↦ refl ], refl, refl)))
expand-Decided (ArmOperation.add_imm_sp d imm) w =
    inr (refl, (_, refl, (elim w [ bit32 ↦ refl | bit16 ↦ refl ], refl, refl)))
expand-Decided (ArmOperation.add_reg_sp d m) w =
    inr (refl, (_, refl, (elim w [ bit32 ↦ refl | bit16 ↦ refl ], refl, refl)))
expand-Decided (ArmOperation.adr d imm) w =
    inr (refl, (_, refl, (elim w [ bit32 ↦ refl | bit16 ↦ refl ], refl, refl)))
expand-Decided (ArmOperation.and_reg m dn) w =
    inr (refl, (_, refl, (elim w [ bit32 ↦ refl | bit16 ↦ refl ], refl, refl)))
expand-Decided (ArmOperation.asr_imm imm m d) w =
    inr (refl, (_, refl, (elim w [ bit32 ↦ refl | bit16 ↦ refl ], refl, refl)))
expand-Decided (ArmOperation.asr_reg m dn) w =
    inr (refl, (_, refl, (elim w [ bit32 ↦ refl | bit16 ↦ refl ], refl, refl)))
expand-Decided (ArmOperation.bic_reg m dn) w =
    inr (refl, (_, refl, (elim w [ bit32 ↦ refl | bit16 ↦ refl ], refl, refl)))
expand-Decided (ArmOperation.bkpt imm) w =
    inr (refl, (_, refl, (elim w [ bit32 ↦ refl | bit16 ↦ refl ], refl, refl)))
expand-Decided (ArmOperation.bl imm) w =
    inr (refl, (_, refl, (elim w [ bit32 ↦ refl | bit16 ↦ refl ], refl, refl)))
expand-Decided (ArmOperation.blx_reg m) w =
    inr (refl, (_, refl, (elim w [ bit32 ↦ refl | bit16 ↦ refl ], refl, refl)))
expand-Decided (ArmOperation.bx m) w =
    inr (refl, (_, refl, (elim w [ bit32 ↦ refl | bit16 ↦ refl ], refl, refl)))
expand-Decided (ArmOperation.cmn_reg m n) w =
    inr (refl, (_, refl, (elim w [ bit32 ↦ refl | bit16 ↦ refl ], refl, refl)))
expand-Decided (ArmOperation.cmp_imm n imm) w =
    inr (refl, (_, refl, (elim w [ bit32 ↦ refl | bit16 ↦ refl ], refl, refl)))
expand-Decided (ArmOperation.cmp_reg m n) w =
    inr (refl, (_, refl, (elim w [ bit32 ↦ refl | bit16 ↦ refl ], refl, refl)))
expand-Decided (ArmOperation.cps im) w =
    inr (refl, (_, refl, (elim w [ bit32 ↦ refl | bit16 ↦ refl ], refl, refl)))
expand-Decided ArmOperation.cpy w = inl (refl, refl)
expand-Decided (ArmOperation.dmb option) w =
    inr (refl, (_, refl, (elim w [ bit32 ↦ refl | bit16 ↦ refl ], refl, refl)))
expand-Decided (ArmOperation.dsb option) w =
    inr (refl, (_, refl, (elim w [ bit32 ↦ refl | bit16 ↦ refl ], refl, refl)))
expand-Decided (ArmOperation.eor_reg m dn) w =
    inr (refl, (_, refl, (elim w [ bit32 ↦ refl | bit16 ↦ refl ], refl, refl)))
expand-Decided (ArmOperation.isb option) w =
    inr (refl, (_, refl, (elim w [ bit32 ↦ refl | bit16 ↦ refl ], refl, refl)))
expand-Decided (ArmOperation.ldm n reg_list) w =
    inr (refl, (_, refl, (elim w [ bit32 ↦ refl | bit16 ↦ refl ], refl, refl)))
expand-Decided (ArmOperation.ldr_imm imm n t) w =
    inr (refl, (_, refl, (elim w [ bit32 ↦ refl | bit16 ↦ refl ], refl, refl)))
expand-Decided (ArmOperation.ldr_literal t imm) w =
    inr (refl, (_, refl, (elim w [ bit32 ↦ refl | bit16 ↦ refl ], refl, refl)))
expand-Decided (ArmOperation.ldr_reg m n t) w =
    inr (refl, (_, refl, (elim w [ bit32 ↦ refl | bit16 ↦ refl ], refl, refl)))
expand-Decided (ArmOperation.ldrb_imm imm n t) w =
    inr (refl, (_, refl, (elim w [ bit32 ↦ refl | bit16 ↦ refl ], refl, refl)))
expand-Decided (ArmOperation.ldrb_reg m n t) w =
    inr (refl, (_, refl, (elim w [ bit32 ↦ refl | bit16 ↦ refl ], refl, refl)))
expand-Decided (ArmOperation.ldrh_imm imm n t) w =
    inr (refl, (_, refl, (elim w [ bit32 ↦ refl | bit16 ↦ refl ], refl, refl)))
expand-Decided (ArmOperation.ldrh_reg m n t) w =
    inr (refl, (_, refl, (elim w [ bit32 ↦ refl | bit16 ↦ refl ], refl, refl)))
expand-Decided (ArmOperation.ldrsb_reg m n t) w =
    inr (refl, (_, refl, (elim w [ bit32 ↦ refl | bit16 ↦ refl ], refl, refl)))
expand-Decided (ArmOperation.ldrsh m n t) w =
    inr (refl, (_, refl, (elim w [ bit32 ↦ refl | bit16 ↦ refl ], refl, refl)))
expand-Decided (ArmOperation.lsl_imm imm m d) w =
    inr (refl, (_, refl, (elim w [ bit32 ↦ refl | bit16 ↦ refl ], refl, refl)))
expand-Decided (ArmOperation.lsl_reg m dn) w =
    inr (refl, (_, refl, (elim w [ bit32 ↦ refl | bit16 ↦ refl ], refl, refl)))
expand-Decided (ArmOperation.lsr_imm imm m d) w =
    inr (refl, (_, refl, (elim w [ bit32 ↦ refl | bit16 ↦ refl ], refl, refl)))
expand-Decided (ArmOperation.lsr_reg m dn) w =
    inr (refl, (_, refl, (elim w [ bit32 ↦ refl | bit16 ↦ refl ], refl, refl)))
expand-Decided (ArmOperation.mov_imm d imm) w =
    inr (refl, (_, refl, (elim w [ bit32 ↦ refl | bit16 ↦ refl ], refl, refl)))
expand-Decided (ArmOperation.mov_reg m d set_flags) w =
    inr (refl, (_, refl, (elim w [ bit32 ↦ refl | bit16 ↦ refl ], refl, refl)))
expand-Decided (ArmOperation.mrs d sysm) w =
    inr (refl, (_, refl, (elim w [ bit32 ↦ refl | bit16 ↦ refl ], refl, refl)))
expand-Decided (ArmOperation.msr_reg n sysm) w =
    inr (refl, (_, refl, (elim w [ bit32 ↦ refl | bit16 ↦ refl ], refl, refl)))
expand-Decided (ArmOperation.mul n dm) w =
    inr (refl, (_, refl, (elim w [ bit32 ↦ refl | bit16 ↦ refl ], refl, refl)))
expand-Decided (ArmOperation.mvn_reg m d) w =
    inr (refl, (_, refl, (elim w [ bit32 ↦ refl | bit16 ↦ refl ], refl, refl)))
expand-Decided ArmOperation.nop w =
    inr (refl, (_, refl, (elim w [ bit32 ↦ refl | bit16 ↦ refl ], refl, refl)))
expand-Decided (ArmOperation.orr_reg m dn) w =
    inr (refl, (_, refl, (elim w [ bit32 ↦ refl | bit16 ↦ refl ], refl, refl)))
expand-Decided (ArmOperation.pop reg_list) w =
    inr (refl, (_, refl, (elim w [ bit32 ↦ refl | bit16 ↦ refl ], refl, refl)))
expand-Decided (ArmOperation.push reg_list) w =
    inr (refl, (_, refl, (elim w [ bit32 ↦ refl | bit16 ↦ refl ], refl, refl)))
expand-Decided (ArmOperation.rev m d) w =
    inr (refl, (_, refl, (elim w [ bit32 ↦ refl | bit16 ↦ refl ], refl, refl)))
expand-Decided (ArmOperation.rev16 m d) w =
    inr (refl, (_, refl, (elim w [ bit32 ↦ refl | bit16 ↦ refl ], refl, refl)))
expand-Decided (ArmOperation.revsh m d) w =
    inr (refl, (_, refl, (elim w [ bit32 ↦ refl | bit16 ↦ refl ], refl, refl)))
expand-Decided (ArmOperation.ror_reg m dn) w =
    inr (refl, (_, refl, (elim w [ bit32 ↦ refl | bit16 ↦ refl ], refl, refl)))
expand-Decided (ArmOperation.rsb_imm n d) w =
    inr (refl, (_, refl, (elim w [ bit32 ↦ refl | bit16 ↦ refl ], refl, refl)))
expand-Decided (ArmOperation.sbc_reg m dn) w =
    inr (refl, (_, refl, (elim w [ bit32 ↦ refl | bit16 ↦ refl ], refl, refl)))
expand-Decided ArmOperation.sev w =
    inr (refl, (_, refl, (elim w [ bit32 ↦ refl | bit16 ↦ refl ], refl, refl)))
expand-Decided (ArmOperation.stm n reg_list) w =
    inr (refl, (_, refl, (elim w [ bit32 ↦ refl | bit16 ↦ refl ], refl, refl)))
expand-Decided (ArmOperation.str_imm imm n t) w =
    inr (refl, (_, refl, (elim w [ bit32 ↦ refl | bit16 ↦ refl ], refl, refl)))
expand-Decided (ArmOperation.str_reg m n t) w =
    inr (refl, (_, refl, (elim w [ bit32 ↦ refl | bit16 ↦ refl ], refl, refl)))
expand-Decided (ArmOperation.strb_imm imm n t) w =
    inr (refl, (_, refl, (elim w [ bit32 ↦ refl | bit16 ↦ refl ], refl, refl)))
expand-Decided (ArmOperation.strb_reg m n t) w =
    inr (refl, (_, refl, (elim w [ bit32 ↦ refl | bit16 ↦ refl ], refl, refl)))
expand-Decided (ArmOperation.strh_imm imm n t) w =
    inr (refl, (_, refl, (elim w [ bit32 ↦ refl | bit16 ↦ refl ], refl, refl)))
expand-Decided (ArmOperation.strh_reg m n t) w =
    inr (refl, (_, refl, (elim w [ bit32 ↦ refl | bit16 ↦ refl ], refl, refl)))
expand-Decided (ArmOperation.sub_imm imm n d) w =
    inr (refl, (_, refl, (elim w [ bit32 ↦ refl | bit16 ↦ refl ], refl, refl)))
expand-Decided (ArmOperation.sub_reg m n d) w =
    inr (refl, (_, refl, (elim w [ bit32 ↦ refl | bit16 ↦ refl ], refl, refl)))
expand-Decided (ArmOperation.sub_imm_sp imm) w =
    inr (refl, (_, refl, (elim w [ bit32 ↦ refl | bit16 ↦ refl ], refl, refl)))
expand-Decided (ArmOperation.svc imm) w =
    inr (refl, (_, refl, (elim w [ bit32 ↦ refl | bit16 ↦ refl ], refl, refl)))
expand-Decided (ArmOperation.sxtb m d) w =
    inr (refl, (_, refl, (elim w [ bit32 ↦ refl | bit16 ↦ refl ], refl, refl)))
expand-Decided (ArmOperation.sxth m d) w =
    inr (refl, (_, refl, (elim w [ bit32 ↦ refl | bit16 ↦ refl ], refl, refl)))
expand-Decided (ArmOperation.tst_reg m n) w =
    inr (refl, (_, refl, (elim w [ bit32 ↦ refl | bit16 ↦ refl ], refl, refl)))
expand-Decided (ArmOperation.uxtb m d) w =
    inr (refl, (_, refl, (elim w [ bit32 ↦ refl | bit16 ↦ refl ], refl, refl)))
expand-Decided (ArmOperation.uxth m d) w =
    inr (refl, (_, refl, (elim w [ bit32 ↦ refl | bit16 ↦ refl ], refl, refl)))
expand-Decided ArmOperation.wfe w = inl (refl, refl)
expand-Decided ArmOperation.wfi w = inl (refl, refl)
expand-Decided ArmOperation.yield w = inl (refl, refl)
expand-Decided (ArmOperation.b cond imm) w = elim (Bool-cases (leb (2 ^ 32 - 2) imm)) [
  | inl h ↦ inl (h, rw (too_far imm h) refl)
  | inr h ↦ inr (h, rw (near imm h) (_, refl, (elim w [ bit32 ↦ refl | bit16 ↦ refl ], refl, refl)))
]
