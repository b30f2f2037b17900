-- ===== src/Arm/V6/Machine.antt =====
-- What the Armv6-M manual says of the data-processing instructions, on a machine of numbers: the
-- description that symex/src/general_assembly/arch/arm/v6/decoder.rs is held against.
use Prim.Native.String.{String}
use symex.Common.{
  ℕ, ◌+◌, ◌-◌, ◌*◌, ◌%◌, ◌^◌, Bool, true, false, name_eq, leb, ◌==◌, if◌then◌else◌, bit, bit_and,
  bit_or, bit_xor,
}
use symex.Smt.Words.{half, add_overflows, sub_overflows, sign_extended}
use symex.Arm.V6.Instructions.{Register, sp, ArmOperation}
use symex.Arm.V6.Registers.{register_name}

pub record ArmState : Type 0 where
  pub reg : String → ℕ
  pub n : Bool
  pub z : Bool
  pub c : Bool
  pub v : Bool

abbrev pub read_reg : Register → ArmState → ℕ
read_reg r s = s.reg (register_name r)

abbrev pub write_reg : Register → ℕ → ArmState → ArmState
write_reg d x s = record s {
  reg = λ name. if name_eq (register_name d) name then x else s.reg name;
}

abbrev pub set_nz : ℕ → ArmState → ArmState
set_nz x s = record s { n = leb (half 32) x; z = x == 0 }

-- The flags of `x + y`.
abbrev pub add_nzcv : ℕ → ℕ → ArmState → ArmState
add_nzcv x y s = record s {
  n = leb (half 32) ((x + y) % 2 ^ 32);
  z = (x + y) % 2 ^ 32 == 0;
  c = leb (2 ^ 32) (x + y);
  v = add_overflows (half 32) x y 0;
}

-- The flags of `x + y + carry`.
abbrev pub adc_nzcv : ℕ → ℕ → Bool → ArmState → ArmState
adc_nzcv x y carry s = record s {
  n = leb (half 32) ((x + y + bit carry) % 2 ^ 32);
  z = (x + y + bit carry) % 2 ^ 32 == 0;
  c = leb (2 ^ 32) (x + y + bit carry);
  v = add_overflows (half 32) x y (bit carry);
}

-- The flags of `x - y`.
abbrev pub compare_nzcv : ℕ → ℕ → ArmState → ArmState
compare_nzcv x y s = record s {
  n = leb (half 32) ((x + 2 ^ 32 - y) % 2 ^ 32);
  z = (x + 2 ^ 32 - y) % 2 ^ 32 == 0;
  c = leb y x;
  v = sub_overflows (half 32) x y;
}

abbrev pub write_nz : Register → ℕ → ArmState → ArmState
write_nz d x s = set_nz x (write_reg d x s)

-- The data-processing instructions; the others leave the state as it is.
abbrev pub arm_step : ArmOperation → ArmState → ArmState
arm_step (ArmOperation.add_imm imm n d) s =
    let y = imm % 2 ^ 32 in add_nzcv (read_reg n s) y (write_reg d ((read_reg n s + y) % 2 ^ 32) s)
arm_step (ArmOperation.add_reg m n d) s =
    add_nzcv (read_reg n s) (read_reg m s) (write_reg d ((read_reg n s + read_reg m s) % 2 ^ 32) s)
arm_step (ArmOperation.adc_reg m n d) s =
    adc_nzcv (read_reg n s) (read_reg m s) s.c
      (write_reg d ((read_reg n s + read_reg m s + bit s.c) % 2 ^ 32) s)
arm_step (ArmOperation.sbc_reg m dn) s =
    let y = 2 ^ 32 - 1 - read_reg m s in
    adc_nzcv (read_reg dn s) y s.c (write_reg dn ((read_reg dn s + y + bit s.c) % 2 ^ 32) s)
arm_step (ArmOperation.add_imm_sp d imm) s = write_reg d ((read_reg sp s + imm % 2 ^ 32) % 2 ^ 32) s
arm_step (ArmOperation.add_reg_sp d m) s = write_reg d ((read_reg sp s + read_reg m s) % 2 ^ 32) s
arm_step (ArmOperation.sub_imm_sp imm) s =
    write_reg sp ((read_reg sp s + 2 ^ 32 - imm % 2 ^ 32) % 2 ^ 32) s
arm_step (ArmOperation.sub_imm imm n d) s =
    let y = imm % 2 ^ 32 in
    compare_nzcv (read_reg n s) y (write_reg d ((read_reg n s + 2 ^ 32 - y) % 2 ^ 32) s)
arm_step (ArmOperation.sub_reg m n d) s =
    compare_nzcv (read_reg n s) (read_reg m s)
      (write_reg d ((read_reg n s + 2 ^ 32 - read_reg m s) % 2 ^ 32) s)
arm_step (ArmOperation.rsb_imm n d) s =
    compare_nzcv 0 (read_reg n s) (write_reg d ((0 + 2 ^ 32 - read_reg n s) % 2 ^ 32) s)
arm_step (ArmOperation.cmp_imm n imm) s = compare_nzcv (read_reg n s) (imm % 2 ^ 32) s
arm_step (ArmOperation.cmp_reg m n) s = compare_nzcv (read_reg n s) (read_reg m s) s
arm_step (ArmOperation.cmn_reg m n) s = add_nzcv (read_reg n s) (read_reg m s) s
arm_step (ArmOperation.mul n dm) s = write_nz dm (read_reg n s * read_reg dm s % 2 ^ 32) s
arm_step (ArmOperation.and_reg m dn) s = write_nz dn (bit_and (read_reg dn s) (read_reg m s)) s
arm_step (ArmOperation.orr_reg m dn) s = write_nz dn (bit_or (read_reg dn s) (read_reg m s)) s
arm_step (ArmOperation.eor_reg m dn) s = write_nz dn (bit_xor (read_reg dn s) (read_reg m s)) s
arm_step (ArmOperation.mvn_reg m d) s = write_nz d (2 ^ 32 - 1 - read_reg m s) s
arm_step (ArmOperation.tst_reg m n) s = set_nz (bit_and (read_reg n s) (read_reg m s)) s
arm_step (ArmOperation.mov_imm d imm) s = write_nz d (imm % 2 ^ 32) s
arm_step (ArmOperation.mov_reg m d true) s = write_nz d (read_reg m s) s
arm_step (ArmOperation.mov_reg m d false) s = write_reg d (read_reg m s) s
arm_step (ArmOperation.uxtb m d) s = write_reg d (read_reg m s % 2 ^ 8) s
arm_step (ArmOperation.uxth m d) s = write_reg d (read_reg m s % 2 ^ 16) s
arm_step (ArmOperation.sxtb m d) s = write_reg d (sign_extended 8 24 (read_reg m s % 2 ^ 8)) s
arm_step (ArmOperation.sxth m d) s = write_reg d (sign_extended 16 16 (read_reg m s % 2 ^ 16)) s
arm_step _ s = s
