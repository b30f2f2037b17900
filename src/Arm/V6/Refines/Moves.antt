-- ===== src/Arm/V6/Refines/Moves.antt =====
-- Complements, tests, moves and extensions of symex/src/general_assembly/arch/arm/v6/decoder.rs
-- carry out what the manual says.
use symex.Common.{
  ℕ, ◌-◌, ◌%◌, ◌^◌, ◌≡◌, refl, [], Bool, true, false, insert, lookup-insert, ok, ◌<◌, ◌≤◌, Returns,
  Returns-bind, arith,
}
use symex.Smt.Words.{sign_extended}
use symex.Smt.Boolector.{Boolector}
use symex.Smt.Expr
use symex.Smt.Expr.{DExpr, not_expr}
use symex.Smt.Means.{Means, and-Means}
use symex.Smt.Resize.{not_expr-Means, resize_unsigned-Means, zero_ext-Means}
use symex.Ga.Operand.{local}
use symex.Project.{Project, get_word_size}
use symex.Executor.Values.{zero_extend_value, sign_extend_value}
use symex.Executor.Operations.{execute_operation}
use symex.Executor.Shifts.{sign_extend_value-extends}
use symex.Executor.Steps.{
  at_index, operations-cons, operations-nil, move-Returns, binary_operation-Returns,
  unary_operation-Returns,
}
use symex.Arm.V6.Instructions.{Register, ArmOperation}
use symex.Arm.V6.Registers.{arm_register_to_ga_operand, word}
use symex.Arm.V6.Timing.{is_pc}
use symex.Arm.V6.Decoder.Logic.{mvn_reg, tst_reg, mov_imm, mov_reg, uxtb, uxth, sxtb, sxth}
use symex.Arm.V6.Refines.{IsPlain, Refines-Holds, Refines-write_reg, register-Writable}
use symex.Arm.V6.Refines.Results.{CarriesOut, word-Holds, ends_with_nz}
use symex.Arm.V6.Refines.Logic.{nz_of, unary}

module _ ⦃b : Boolector⦄ (p : Project) (plain : IsPlain p) where
  pub mov_imm-CarriesOut :
      (d : Register) (imm : ℕ)
      → is_pc d ≡ false
      → CarriesOut p (ArmOperation.mov_imm d imm) (mov_imm d imm)
  unfolding mov_imm
  mov_imm-CarriesOut d imm hd s x old = operations-cons p _ _ 0 [] x (
      move-Returns p [] (at_index 0 x) (arm_register_to_ga_operand d) (word imm)
        (word-Holds p imm [] x.state) (register-Writable p plain d hd)
        (nz_of p plain s x old d hd _))

  zero_extended :
      (bits : ℕ) {f : b.Env → ℕ} (y : DExpr)
      → 0 < bits
      → bits ≤ 32
      → Means 32 f y
      → Returns (zero_extend_value (get_word_size p) y bits 32) (Means 32 (λ e. f e % 2 ^ bits))
  unfolding zero_extend_value
  zero_extended bits y pos le my =
      Returns-bind _ (resize_unsigned-Means my bits pos) λ r mr. zero_ext-Means mr 32 le

  sign_extended_to :
      (bits : ℕ) {f : b.Env → ℕ} (y : DExpr)
      → 0 < bits
      → bits < 32
      → Means 32 f y
      → Returns
          (sign_extend_value (get_word_size p) y bits)
          (Means 32 (λ e. sign_extended bits (32 - bits) (f e % 2 ^ bits)))
  sign_extended_to bits y pos less my =
      rw plain.word_size (sign_extend_value-extends (omega arith) my bits pos less)

  module _ (m d : Register) (hm : is_pc m ≡ false) (hd : is_pc d ≡ false) where
    pub mvn_reg-CarriesOut : CarriesOut p (ArmOperation.mvn_reg m d) (mvn_reg m d)
    unfolding execute_operation mvn_reg
    mvn_reg-CarriesOut s x old = operations-cons p _ _ 0 [] x (
        unary_operation-Returns p [] (at_index 0 x) (λ y. ok (not_expr y))
          (arm_register_to_ga_operand d) (arm_register_to_ga_operand m)
          (λ y my. (_, refl, not_expr-Means my)) (Refines-Holds p plain m [] old hm)
          (register-Writable p plain d hd) (nz_of p plain s x old d hd _))

    pub mov_reg-CarriesOut :
        (set_flags : Bool)
        → CarriesOut p (ArmOperation.mov_reg m d set_flags) (mov_reg m d set_flags)
    unfolding mov_reg
    mov_reg-CarriesOut true s x old = operations-cons p _ _ 0 [] x (
        move-Returns p [] (at_index 0 x) (arm_register_to_ga_operand d)
          (arm_register_to_ga_operand m) (Refines-Holds p plain m [] old hm)
          (register-Writable p plain d hd) (nz_of p plain s x old d hd _))
    mov_reg-CarriesOut false s x old = operations-cons p _ _ 0 [] x (
        move-Returns p [] (at_index 0 x) (arm_register_to_ga_operand d)
          (arm_register_to_ga_operand m) (Refines-Holds p plain m [] old hm)
          (register-Writable p plain d hd)
          λ r mr. operations-nil p 1 [] _ (Refines-write_reg d old mr, (refl, refl, refl, refl)))

    -- Here `d` is the first operand.
    pub tst_reg-CarriesOut : CarriesOut p (ArmOperation.tst_reg m d) (tst_reg m d)
    unfolding execute_operation tst_reg
    tst_reg-CarriesOut s x old = operations-cons p _ _ 0 [] x (
        binary_operation-Returns p [] (at_index 0 x) (λ y z. ok (Expr.and y z)) (local "result")
          (arm_register_to_ga_operand d) (arm_register_to_ga_operand m)
          (λ y z my mz. (_, refl, and-Means my mz)) (Refines-Holds p plain d [] old hd)
          (Refines-Holds p plain m [] old hm) tt
          λ r mr.
            ends_with_nz p plain 1 (insert "result" r []) (at_index 0 x) s old _ (local "result")
              (r, lookup-insert "result" "result" r [], mr))

    pub uxtb-CarriesOut : CarriesOut p (ArmOperation.uxtb m d) (uxtb m d)
    unfolding execute_operation uxtb
    uxtb-CarriesOut s x old =
        unary p plain s x old d hd _ (λ y. zero_extend_value (get_word_size p) y 8 32) _ _ _
          (λ y my. zero_extended 8 y (omega arith) (omega arith) my)
          (Refines-Holds p plain m [] old hm) refl

    pub uxth-CarriesOut : CarriesOut p (ArmOperation.uxth m d) (uxth m d)
    unfolding execute_operation uxth
    uxth-CarriesOut s x old =
        unary p plain s x old d hd _ (λ y. zero_extend_value (get_word_size p) y 16 32) _ _ _
          (λ y my. zero_extended 16 y (omega arith) (omega arith) my)
          (Refines-Holds p plain m [] old hm) refl

    pub sxtb-CarriesOut : CarriesOut p (ArmOperation.sxtb m d) (sxtb m d)
    unfolding execute_operation sxtb
    sxtb-CarriesOut s x old =
        unary p plain s x old d hd _ (λ y. sign_extend_value (get_word_size p) y 8) _ _ _
          (λ y my. sign_extended_to 8 y (omega arith) (omega arith) my)
          (Refines-Holds p plain m [] old hm) refl

    pub sxth-CarriesOut : CarriesOut p (ArmOperation.sxth m d) (sxth m d)
    unfolding execute_operation sxth
    sxth-CarriesOut s x old =
        unary p plain s x old d hd _ (λ y. sign_extend_value (get_word_size p) y 16) _ _ _
          (λ y my. sign_extended_to 16 y (omega arith) (omega arith) my)
          (Refines-Holds p plain m [] old hm) refl
