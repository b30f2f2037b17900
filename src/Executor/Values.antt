-- ===== src/Executor/Values.antt =====
-- The values that the operations of symex/src/general_assembly/executor.rs compute from those of
-- their operands, one function for each group of arms of `execute_operation`.
use symex.Common.{
  ℕ, ◌+◌, ◌-◌, ◌^◌, Bool, true, false, ltb, ◌==◌, if◌then◌else◌, Outcome, ok, panic, ◌>>=◌,
}
use symex.Errors.{GaError}
use symex.Smt.Boolector.{Boolector}
use symex.Smt.Expr
use symex.Smt.Expr.{
  DExpr, from_u64, zero_ext, sign_ext, resize_unsigned, not_expr, or, and, sll, srl, sra, simplify,
  zero_expr,
}
use symex.Ga.Operation.{Shift, lsl, lsr, asr, rrx, ror}
use symex.State.{GaState}
use symex.State.Flags.{get_flag}
use symex.Executor.Adder.{add_with_carry}

module _ ⦃b : Boolector⦄ (word_size : ℕ) where
  -- `Operation::Shift`.
  unfoldable pub shift_value : Shift → DExpr → DExpr → GaState → Outcome GaError DExpr
  shift_value lsl value shift_amount s = ok (sll value shift_amount)
  shift_value lsr value shift_amount s = ok (srl value shift_amount)
  shift_value asr value shift_amount s = ok (sra value shift_amount)
  shift_value rrx value shift_amount s = do
    below ← Expr.sub shift_amount (from_u64 1 32)
    let ret = simplify (srl (and value below) (from_u64 1 32))
    carry ← get_flag "C" s
    above ← Expr.add shift_amount (from_u64 1 32)
    ok (or ret (sll carry above))
  shift_value ror value shift_amount s = do
    rest ← Expr.sub (from_u64 word_size word_size) shift_amount
    ok (or (srl value shift_amount) (srl value rest))

  -- `Operation::Sror`.
  unfoldable pub sror_value : DExpr → DExpr → Outcome GaError DExpr
  sror_value value shift_operand = do
    shift ← Expr.srem shift_operand (from_u64 word_size word_size)
    rest ← Expr.sub (from_u64 word_size word_size) shift
    ok (or (srl value shift) (sll value rest))

  -- `Operation::SetNFlag`: the shift amount has 32 bits, whatever the word size.
  unfoldable pub n_flag_value : DExpr → Outcome GaError DExpr
  n_flag_value value = resize_unsigned (srl value (from_u64 (word_size - 1) 32)) 1

  -- `Operation::SetZFlag`.
  unfoldable pub z_flag_value : DExpr → Outcome GaError DExpr
  z_flag_value value = Expr.eq value (zero_expr word_size)

  -- `Operation::SetCFlag`, for `sub` and `carry`.
  unfoldable pub c_flag_value : Bool → Bool → DExpr → DExpr → GaState → Outcome GaError DExpr
  c_flag_value true true op1 op2 s = do
    carry_in ← get_flag "C" s
    let op2 = not_expr op2
    c2 ← Expr.uaddo op2 (from_u64 1 word_size)
    op2 ← Expr.add op2 (from_u64 1 word_size)
    r ← add_with_carry op1 op2 carry_in word_size
    ok (or r.carry_out c2)
  c_flag_value true false op1 op2 s = do
    r ← add_with_carry op1 (not_expr op2) (from_u64 1 word_size) word_size
    ok r.carry_out
  c_flag_value false true op1 op2 s = do
    carry_in ← get_flag "C" s
    r ← add_with_carry op1 op2 carry_in word_size
    ok r.carry_out
  c_flag_value false false op1 op2 s = Expr.uaddo op1 op2

  -- `Operation::SetVFlag`, for `sub` and `carry`.
  unfoldable pub v_flag_value : Bool → Bool → DExpr → DExpr → GaState → Outcome GaError DExpr
  v_flag_value true true op1 op2 s = do
    carry_in ← get_flag "C" s
    op2 ← Expr.add (not_expr op2) (from_u64 1 word_size)
    r ← add_with_carry op1 op2 carry_in word_size
    ok r.overflow
  v_flag_value true false op1 op2 s = do
    r ← add_with_carry op1 (not_expr op2) (from_u64 1 word_size) word_size
    ok r.overflow
  v_flag_value false true op1 op2 s = do
    carry_in ← get_flag "C" s
    r ← add_with_carry op1 op2 carry_in word_size
    ok r.overflow
  v_flag_value false false op1 op2 s = Expr.saddo op1 op2

  -- `Operation::Adc`.
  unfoldable pub adc_value : DExpr → DExpr → GaState → Outcome GaError DExpr
  adc_value op1 op2 s = do
    flag ← get_flag "C" s
    carry ← zero_ext flag word_size
    r ← add_with_carry op1 op2 carry word_size
    ok r.result

  -- `Operation::ZeroExtend`.
  unfoldable pub zero_extend_value : DExpr → ℕ → ℕ → Outcome GaError DExpr
  zero_extend_value op bits target_bits = do
    valid_bits ← resize_unsigned op bits
    zero_ext valid_bits target_bits

  -- `Operation::SignExtend`.
  unfoldable pub sign_extend_value : DExpr → ℕ → Outcome GaError DExpr
  sign_extend_value op bits = do valid_bits ← resize_unsigned op bits; sign_ext valid_bits word_size

  -- The operand and the shift of the carry flags of shifts, one bit wider.
  unfoldable pub c_flag_shift_left_value : DExpr → DExpr → Outcome GaError DExpr
  c_flag_shift_left_value operand shift = do
    op ← zero_ext operand (1 + word_size)
    shift ← zero_ext shift (1 + word_size)
    let result = sll op shift
    resize_unsigned (srl result (from_u64 word_size (word_size + 1))) 1

  unfoldable pub c_flag_srl_value : DExpr → DExpr → Outcome GaError DExpr
  c_flag_srl_value operand shift = do
    wide ← zero_ext operand (1 + word_size)
    let op = sll wide (from_u64 1 (1 + word_size))
    shift ← zero_ext shift (1 + word_size)
    resize_unsigned (srl op shift) 1

  unfoldable pub c_flag_sra_value : DExpr → DExpr → Outcome GaError DExpr
  c_flag_sra_value operand shift = do
    wide ← zero_ext operand (1 + word_size)
    let op = sll wide (from_u64 1 (1 + word_size))
    shift ← zero_ext shift (1 + word_size)
    resize_unsigned (sra op shift) 1

  -- `Operation::SetCFlagRor`.
  unfoldable pub c_flag_ror_value : DExpr → Outcome GaError DExpr
  c_flag_ror_value result = resize_unsigned (srl result (from_u64 (word_size - 1) word_size)) 1

  -- `(1 << (stop - start + 1)) - 1` on `u64`: a shift by 64 or more panics.
  unfoldable pub field_mask : ℕ → ℕ → Outcome GaError ℕ
  field_mask start_bit stop_bit =
      if start_bit == stop_bit
      then ok 1
      else if ltb (stop_bit - start_bit + 1) 64
      then ok (2 ^ (stop_bit - start_bit + 1) - 1)
      else panic

  -- `Operation::BitFieldExtract`, after its assert.
  unfoldable pub bit_field_value : DExpr → ℕ → ℕ → Outcome GaError DExpr
  unfolding field_mask
  bit_field_value operand start_bit stop_bit = do
    mask ← field_mask start_bit stop_bit
    ok (simplify (and (srl operand (from_u64 start_bit word_size)) (from_u64 mask word_size)))
