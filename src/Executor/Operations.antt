-- ===== src/Executor/Operations.antt =====
-- `execute_operation` of symex/src/general_assembly/executor.rs.
use Prim.Native.String.{String}
use symex.Common.{◌+◌, Bool, true, false, none, some, leb, if◌then◌else◌, Outcome, ok, err}
use symex.Errors.{GaError, SolverError}
use symex.Smt.Boolector.{Boolector}
use symex.Smt.Expr
use symex.Smt.Expr.{DExpr, get_constant_bool, not_expr, simplify, resize_unsigned}
use symex.Smt.Solver.{is_sat_with_constraint}
use symex.Ga.Operand.{Operand}
use symex.Ga.Operation.{Operation, Condition}
use symex.State.{GaState}
use symex.State.Flags.{get_expr, set_flag, add_instruction_conditions}
use symex.State.Counters.{set_has_jumped}
use symex.State.Registers.{get_register, set_register}
use symex.Project.{Project, get_word_size}
use symex.Executor.Monad.{
  Exec, ◌>>=◌, ◌>>◌, return, call, on_machine, get_state, update_state, ask, assert_on_path, fork,
}
use symex.Executor.Operands.{
  Locals, panics, get_operand_value, set_operand_value, save_continuation,
}
use symex.Executor.Values.{
  shift_value, sror_value, n_flag_value, z_flag_value, c_flag_value, v_flag_value, adc_value,
  zero_extend_value, sign_extend_value, c_flag_shift_left_value, c_flag_srl_value, c_flag_sra_value,
  c_flag_ror_value, bit_field_value,
}
use symex.Executor.Count

module _ ⦃b : Boolector⦄ (p : Project) where
  -- `is_sat_with_constraint(..)?`, with the error of the executor.
  unfoldable pub possible : DExpr → Exec Bool
  possible c = ask (λ s. elim (is_sat_with_constraint s c) [
    | ok t ↦ ok t
    | err e ↦ err (GaError.solver e)
    | Outcome.panic ↦ Outcome.panic
  ])

  -- An operation of two operands: both are read, in order, and the result is stored.
  unfoldable pub binary_operation :
      (DExpr → DExpr → Outcome GaError DExpr) → Operand → Operand → Operand → Locals → Exec Locals
  binary_operation f destination operand1 operand2 locals = do
    op1 ← get_operand_value p operand1 locals
    op2 ← get_operand_value p operand2 locals
    result ← call (f op1 op2)
    set_operand_value p destination result locals

  -- An operation of one operand.
  unfoldable pub unary_operation :
      (DExpr → Outcome GaError DExpr) → Operand → Operand → Locals → Exec Locals
  unary_operation f destination operand locals = do
    op ← get_operand_value p operand locals
    result ← call (f op)
    set_operand_value p destination result locals

  -- An operation that sets a flag from one operand.
  unfoldable pub flag_operation :
      String → (DExpr → Outcome GaError DExpr) → Operand → Locals → Exec Locals
  flag_operation name f operand locals = do
    value ← get_operand_value p operand locals
    result ← call (f value)
    update_state (set_flag name result)
    return locals

  -- An operation that sets a flag from two operands and the state.
  unfoldable pub flag_operation2 :
      String
      → (DExpr → DExpr → GaState → Outcome GaError DExpr)
      → Operand
      → Operand
      → Locals
      → Exec Locals
  flag_operation2 name f operand1 operand2 locals = do
    op1 ← get_operand_value p operand1 locals
    op2 ← get_operand_value p operand2 locals
    s ← get_state
    result ← call (f op1 op2 s)
    update_state (set_flag name result)
    return locals

  jump_to : DExpr → Exec (Unit {0})
  jump_to destination = on_machine (set_register p "PC" destination)

  -- A condition that depends on the path: jump, do not jump, or both.
  unfoldable pub symbolic_jump : DExpr → DExpr → Locals → Exec (Unit {0})
  unfolding possible jump_to
  symbolic_jump c dest_value locals = do
    true_possible ← possible c
    false_possible ← possible (not_expr c)
    if true_possible
        then (if false_possible
            then (do
              λ x. save_continuation (x.current_operation_index + 1) locals x
              fork (not_expr c)
              assert_on_path c
              update_state set_has_jumped
              jump_to dest_value)
            else (do update_state set_has_jumped; jump_to dest_value))
        else (if false_possible
            then (do pc ← on_machine (get_register p "PC"); jump_to pc)
            else call (err (GaError.solver SolverError.unsat)))

  -- `Operation::ConditionalJump`.
  unfoldable pub conditional_jump : Operand → Condition → Locals → Exec (Unit {0})
  unfolding symbolic_jump
  conditional_jump destination condition locals = do
    dest_value ← get_operand_value p destination locals
    s ← get_state
    e ← call (get_expr condition s)
    let c = simplify e
    constant ← call (get_constant_bool c)
    elim constant [
      | some true ↦ do update_state set_has_jumped; jump_to dest_value
      | some false ↦ return tt
      | none ↦ symbolic_jump c dest_value locals
    ]

  -- One operation. The locals are returned; `Adc` and `Shift` read the carry flag of the state.
  unfoldable pub execute_operation : Operation → Locals → Exec Locals
  unfolding binary_operation unary_operation flag_operation flag_operation2 conditional_jump
  execute_operation Operation.nop l = return l
  execute_operation (Operation.move destination source) l = do
    value ← get_operand_value p source l
    set_operand_value p destination (simplify value) l
  execute_operation (Operation.add d o1 o2) l = binary_operation Expr.add d o1 o2 l
  execute_operation (Operation.sub d o1 o2) l = binary_operation Expr.sub d o1 o2 l
  execute_operation (Operation.mul d o1 o2) l = binary_operation Expr.mul d o1 o2 l
  execute_operation (Operation.udiv d o1 o2) l = binary_operation Expr.udiv d o1 o2 l
  execute_operation (Operation.sdiv d o1 o2) l = binary_operation Expr.sdiv d o1 o2 l
  execute_operation (Operation.and d o1 o2) l =
      binary_operation (λ x y. ok (Expr.and x y)) d o1 o2 l
  execute_operation (Operation.or d o1 o2) l = binary_operation (λ x y. ok (Expr.or x y)) d o1 o2 l
  execute_operation (Operation.xor d o1 o2) l =
      binary_operation (λ x y. ok (Expr.xor x y)) d o1 o2 l
  execute_operation (Operation.not_op d o) l = unary_operation (λ x. ok (not_expr x)) d o l
  execute_operation (Operation.shift d o shift_n shift_t) l = do
    value ← get_operand_value p o l
    shift_amount ← get_operand_value p shift_n l
    s ← get_state
    result ← call (shift_value (get_word_size p) shift_t value shift_amount s)
    set_operand_value p d result l
  execute_operation (Operation.sl d o n) l = binary_operation (λ x y. ok (Expr.sll x y)) d o n l
  execute_operation (Operation.srl d o n) l = binary_operation (λ x y. ok (Expr.srl x y)) d o n l
  execute_operation (Operation.sra d o n) l = binary_operation (λ x y. ok (Expr.sra x y)) d o n l
  execute_operation (Operation.sror d o n) l =
      binary_operation (sror_value (get_word_size p)) d o n l
  execute_operation (Operation.conditional_jump d condition) l = do
    conditional_jump d condition l
    return l
  execute_operation (Operation.conditional_execution conditions) l = do
    update_state (add_instruction_conditions conditions)
    return l
  execute_operation (Operation.set_n_flag o) l =
      flag_operation "N" (n_flag_value (get_word_size p)) o l
  execute_operation (Operation.set_z_flag o) l =
      flag_operation "Z" (z_flag_value (get_word_size p)) o l
  execute_operation (Operation.set_c_flag o1 o2 sub carry) l =
      flag_operation2 "C" (c_flag_value (get_word_size p) sub carry) o1 o2 l
  execute_operation (Operation.set_v_flag o1 o2 sub carry) l =
      flag_operation2 "V" (v_flag_value (get_word_size p) sub carry) o1 o2 l
  execute_operation (Operation.for_each operands operations) l = panics
  execute_operation (Operation.zero_extend d o bits target_bits) l =
      unary_operation (λ x. zero_extend_value (get_word_size p) x bits target_bits) d o l
  execute_operation (Operation.sign_extend d o bits) l =
      unary_operation (λ x. sign_extend_value (get_word_size p) x bits) d o l
  execute_operation (Operation.resize d o bits) l =
      unary_operation (λ x. resize_unsigned x bits) d o l
  execute_operation (Operation.adc d o1 o2) l = do
    op1 ← get_operand_value p o1 l
    op2 ← get_operand_value p o2 l
    s ← get_state
    result ← call (adc_value (get_word_size p) op1 op2 s)
    set_operand_value p d result l
  execute_operation (Operation.set_c_flag_shift_left o n) l =
      flag_operation2 "C" (λ x y s. c_flag_shift_left_value (get_word_size p) x y) o n l
  execute_operation (Operation.set_c_flag_srl o n) l =
      flag_operation2 "C" (λ x y s. c_flag_srl_value (get_word_size p) x y) o n l
  execute_operation (Operation.set_c_flag_sra o n) l =
      flag_operation2 "C" (λ x y s. c_flag_sra_value (get_word_size p) x y) o n l
  execute_operation (Operation.set_c_flag_ror o) l =
      flag_operation "C" (c_flag_ror_value (get_word_size p)) o l
  execute_operation (Operation.count_ones d o) l =
      unary_operation (λ x. Count.count_ones x (get_word_size p)) d o l
  execute_operation (Operation.count_zeroes d o) l =
      unary_operation (λ x. Count.count_zeroes x (get_word_size p)) d o l
  execute_operation (Operation.count_leading_ones d o) l =
      unary_operation (λ x. Count.count_leading_ones x (get_word_size p)) d o l
  execute_operation (Operation.count_leading_zeroes d o) l =
      unary_operation (λ x. Count.count_leading_zeroes x (get_word_size p)) d o l
  execute_operation (Operation.bit_field_extract d o start_bit stop_bit) l =
      if leb start_bit stop_bit
      then unary_operation (λ x. bit_field_value (get_word_size p) x start_bit stop_bit) d o l
      else panics
