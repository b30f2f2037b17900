-- ===== src/Arm/V6/Refines/Sums.antt =====
-- Sums, differences and comparisons of symex/src/general_assembly/arch/arm/v6/decoder.rs carry out
-- what the manual says.
use symex.Common.{
  ℕ, ◌+◌, ◌%◌, ◌^◌, ◌≡◌, refl, ◌∙◌, [], ◌∷◌, false, insert, lookup-insert, Returns, lookup, some,
}
use symex.Smt.Boolector.{Boolector}
use symex.Smt.Expr
use symex.Smt.Expr.{DExpr}
use symex.Smt.Means.{add-Means}
use symex.Ga.Operand.{Operand, local}
use symex.Ga.Operation.{Operation}
use symex.Executor.Monad.{GaExecutor}
use symex.Executor.Instructions.{execute_operations}
use symex.Project.{Project}
use symex.Executor.Operations.{execute_operation}
use symex.Executor.Steps.{
  Holds, at_index, operations-cons, operations-nil, move-Returns, binary_operation-Returns,
}
use symex.Arm.V6.Instructions.{Register, sp, ArmOperation}
use symex.Arm.V6.Registers.{arm_register_to_ga_operand, word}
use symex.Arm.V6.Timing.{is_pc}
use symex.Arm.V6.Decoder.Arithmetic.{add_imm, add_reg, add_imm_sp, add_reg_sp, cmn_reg}
use symex.Arm.V6.Machine.{ArmState, write_reg}
use symex.Arm.V6.Refines.{
  IsPlain, Refines, Refines-Holds, Refines-write_reg, register-Writable, written-Holds,
}
use symex.Arm.V6.Refines.Results.{CarriesOut, word-Holds, ends_with_add, Becomes}

module _ ⦃b : Boolector⦄ (p : Project) (plain : IsPlain p) where
  pub add_imm-CarriesOut :
      (imm : ℕ) (n d : Register)
      → is_pc n ≡ false
      → is_pc d ≡ false
      → CarriesOut p (ArmOperation.add_imm imm n d) (add_imm imm n d)
  unfolding execute_operation add_imm
  add_imm-CarriesOut imm n d hn hd m x old =
      let dest = arm_register_to_ga_operand d in
      let nreg = arm_register_to_ga_operand n in
      operations-cons p _ _ 0 [] x (
        move-Returns p [] (at_index 0 x) (local "op") nreg (Refines-Holds p plain n [] old hn) tt
          λ v mv.
            let l = insert "op" v [] in
            operations-cons p _ _ 1 l _ (
              binary_operation-Returns p l (at_index 1 x) Expr.add dest nreg (word imm)
                (λ y z my mz. add-Means my mz) (Refines-Holds p plain n l old hn)
                (word-Holds p imm l x.state) (register-Writable p plain d hd)
                λ r mr.
                  ends_with_add p plain 2 l _ _ (Refines-write_reg d old mr) _ _ dest (local "op")
                    (word imm) (written-Holds p plain d l x.state hd mr)
                    (v, lookup-insert "op" "op" v [], mv) (word-Holds p imm l x.state)))

  pub add_reg-CarriesOut :
      (m n d : Register)
      → is_pc m ≡ false
      → is_pc n ≡ false
      → is_pc d ≡ false
      → CarriesOut p (ArmOperation.add_reg m n d) (add_reg m n d)
  unfolding execute_operation add_reg
  add_reg-CarriesOut m n d hm hn hd s x old =
      let dest = arm_register_to_ga_operand d in
      let mreg = arm_register_to_ga_operand m in
      let nreg = arm_register_to_ga_operand n in
      operations-cons p _ _ 0 [] x (
        move-Returns p [] (at_index 0 x) (local "m") mreg (Refines-Holds p plain m [] old hm) tt
          λ vm mm.
            let l = insert "m" vm [] in
            operations-cons p _ _ 1 l _ (
              move-Returns p l (at_index 1 x) (local "n") nreg (Refines-Holds p plain n l old hn) tt
                λ vn mn.
                  let l = insert "n" vn l in
                  operations-cons p _ _ 2 l _ (
                    binary_operation-Returns p l (at_index 2 x) Expr.add dest nreg mreg
                      (λ y z my mz. add-Means my mz) (Refines-Holds p plain n l old hn)
                      (Refines-Holds p plain m l old hm) (register-Writable p plain d hd)
                      λ r mr.
                        ends_with_add p plain 3 l _ _ (Refines-write_reg d old mr) _ _ dest
                          (local "n") (local "m") (written-Holds p plain d l x.state hd mr)
                          (vn, lookup-insert "n" "n" vn (insert "m" vm []), mn)
                          (vm, in_turn vm vn, mm))))
    where
      in_turn : (vm vn : DExpr) → lookup "m" (insert "n" vn (insert "m" vm [])) ≡ some vm
      in_turn vm vn = lookup-insert "n" "m" vn (insert "m" vm []) ∙ lookup-insert "m" "m" vm []

  -- Sums and differences of registers and constants that set no flags.
  module _ (s : b.Env → ArmState) (x : GaExecutor) (old : Refines s x.state) (d : Register)
      (hd : is_pc d ≡ false) where
    plain_sum :
        (f g : b.Env → ℕ) (o1 o2 : Operand)
        → Holds p 32 f o1 [] x.state
        → Holds p 32 g o2 [] x.state
        → Returns
            (execute_operations p (Operation.add (arm_register_to_ga_operand d) o1 o2 ∷ []) 0 [] x)
            (Becomes (λ e. write_reg d ((f e + g e) % 2 ^ 32) (s e)) x)
    unfolding execute_operation
    plain_sum f g o1 o2 h1 h2 = operations-cons p _ _ 0 [] x (
        binary_operation-Returns p [] (at_index 0 x) Expr.add (arm_register_to_ga_operand d) o1 o2
          (λ y z my mz. add-Means my mz) h1 h2 (register-Writable p plain d hd)
          λ r mr. operations-nil p 1 [] _ (Refines-write_reg d old mr, (refl, refl, refl, refl)))

  pub add_imm_sp-CarriesOut :
      (d : Register) (imm : ℕ)
      → is_pc d ≡ false
      → CarriesOut p (ArmOperation.add_imm_sp d imm) (add_imm_sp d imm)
  unfolding add_imm_sp is_pc
  add_imm_sp-CarriesOut d imm hd s x old =
      plain_sum s x old d hd _ _ _ _ (Refines-Holds p plain sp [] old refl)
        (word-Holds p imm [] x.state)

  pub add_reg_sp-CarriesOut :
      (d m : Register)
      → is_pc d ≡ false
      → is_pc m ≡ false
      → CarriesOut p (ArmOperation.add_reg_sp d m) (add_reg_sp d m)
  unfolding add_reg_sp is_pc
  add_reg_sp-CarriesOut d m hd hm s x old =
      plain_sum s x old d hd _ _ _ _ (Refines-Holds p plain sp [] old refl)
        (Refines-Holds p plain m [] old hm)

  pub cmn_reg-CarriesOut :
      (m n : Register)
      → is_pc m ≡ false
      → is_pc n ≡ false
      → CarriesOut p (ArmOperation.cmn_reg m n) (cmn_reg m n)
  unfolding execute_operation cmn_reg
  cmn_reg-CarriesOut m n hm hn s x old =
      let mreg = arm_register_to_ga_operand m in
      let nreg = arm_register_to_ga_operand n in
      operations-cons p _ _ 0 [] x (
        binary_operation-Returns p [] (at_index 0 x) Expr.add (local "result") nreg mreg
          (λ y z my mz. add-Means my mz) (Refines-Holds p plain n [] old hn)
          (Refines-Holds p plain m [] old hm) tt
          λ r mr.
            let l = insert "result" r [] in
            ends_with_add p plain 1 l _ s old _ _ (local "result") nreg mreg
              (r, lookup-insert "result" "result" r [], mr) (Refines-Holds p plain n l old hn)
              (Refines-Holds p plain m l old hm))
