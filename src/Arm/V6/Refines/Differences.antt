-- ===== src/Arm/V6/Refines/Differences.antt =====
-- Differences and comparisons of symex/src/general_assembly/arch/arm/v6/decoder.rs carry out what
-- the manual says, where the number that is taken away is not the least one.
use symex.Common.{
  ℕ, ◌%◌, ◌^◌, ◌≡◌, ◌≢◌, refl, [], ◌∷◌, true, false, name_eq, insert, lookup-insert, Returns,
}
use symex.Smt.Words.{half}
use symex.Smt.Boolector.{Boolector}
use symex.Smt.Expr
use symex.Smt.Expr.{DExpr}
use symex.Smt.Means.{sub-Means}
use symex.Ga.Operand.{Operand, local}
use symex.Ga.Operation.{Operation}
use symex.Project.{Project}
use symex.Executor.Monad.{GaExecutor}
use symex.Executor.Operands.{Locals}
use symex.Executor.Operations.{execute_operation}
use symex.Executor.Instructions.{execute_operations}
use symex.Executor.Steps.{
  Holds, at_index, operations-cons, operations-nil, move-Returns, binary_operation-Returns,
}
use symex.Arm.V6.Instructions.{Register, sp, ArmOperation}
use symex.Arm.V6.Registers.{register_name, arm_register_to_ga_operand, word}
use symex.Arm.V6.Timing.{is_pc}
use symex.Arm.V6.Decoder.Arithmetic.{sub_imm, sub_reg, rsb_imm, cmp_imm, cmp_reg, sub_imm_sp}
use symex.Arm.V6.Machine.{ArmState, read_reg, compare_nzcv, arm_step}
use symex.Arm.V6.Refines.{
  IsPlain, Refines, Refines-Holds, Refines-write_reg, register-Writable, written-Holds, kept-Holds,
}
use symex.Arm.V6.Refines.Results.{Becomes, CarriesOut, word-Holds, ends_with_sub}

module _ ⦃b : Boolector⦄ (p : Project) (plain : IsPlain p) where
  pub sub_imm-CarriesOut :
      (imm : ℕ) (n d : Register)
      → is_pc n ≡ false
      → is_pc d ≡ false
      → imm % 2 ^ 32 ≢ half 32
      → CarriesOut p (ArmOperation.sub_imm imm n d) (sub_imm imm n d)
  unfolding execute_operation sub_imm
  sub_imm-CarriesOut imm n d hn hd ne m x old =
      let dest = arm_register_to_ga_operand d in
      let nreg = arm_register_to_ga_operand n in
      operations-cons p _ _ 0 [] x (
        move-Returns p [] (at_index 0 x) (local "n") nreg (Refines-Holds p plain n [] old hn) tt
          λ v mv.
            let l = insert "n" v [] in
            operations-cons p _ _ 1 l _ (
              binary_operation-Returns p l (at_index 1 x) Expr.sub dest nreg (word imm)
                (λ y z my mz. sub-Means my mz) (Refines-Holds p plain n l old hn)
                (word-Holds p imm l x.state) (register-Writable p plain d hd)
                λ r mr.
                  ends_with_sub p plain 2 l _ _ (Refines-write_reg d old mr) _ _ dest (local "n")
                    (word imm) (written-Holds p plain d l x.state hd mr)
                    (v, lookup-insert "n" "n" v [], mv) (word-Holds p imm l x.state) (λ e. ne)))

  -- The second operand is read again after the first is overwritten.
  pub sub_reg-CarriesOut :
      (m n d : Register)
      → is_pc m ≡ false
      → is_pc n ≡ false
      → is_pc d ≡ false
      → name_eq (register_name d) (register_name m) ≡ false
      → (s : b.Env → ArmState) (x : GaExecutor) → ((e : b.Env) → read_reg m (s e) ≢ half 32)
      → Refines s x.state
      → Returns
          (execute_operations p (sub_reg m n d) 0 [] x)
          (Becomes (λ e. arm_step (ArmOperation.sub_reg m n d) (s e)) x)
  unfolding execute_operation sub_reg
  sub_reg-CarriesOut m n d hm hn hd other s x ne old =
      let dest = arm_register_to_ga_operand d in
      let nreg = arm_register_to_ga_operand n in
      let mreg = arm_register_to_ga_operand m in
      operations-cons p _ _ 0 [] x (
        move-Returns p [] (at_index 0 x) (local "n") nreg (Refines-Holds p plain n [] old hn) tt
          λ v mv.
            let l = insert "n" v [] in
            operations-cons p _ _ 1 l _ (
              binary_operation-Returns p l (at_index 1 x) Expr.sub dest nreg mreg
                (λ y z my mz. sub-Means my mz) (Refines-Holds p plain n l old hn)
                (Refines-Holds p plain m l old hm) (register-Writable p plain d hd)
                λ r mr.
                  ends_with_sub p plain 2 l _ _ (Refines-write_reg d old mr) _ _ dest (local "n")
                    mreg (written-Holds p plain d l x.state hd mr)
                    (v, lookup-insert "n" "n" v [], mv)
                    (kept-Holds p plain r d m l x.state old hm other) ne))

  pub rsb_imm-CarriesOut :
      (n d : Register)
      → is_pc n ≡ false
      → is_pc d ≡ false
      → (s : b.Env → ArmState) (x : GaExecutor) → ((e : b.Env) → read_reg n (s e) ≢ half 32)
      → Refines s x.state
      → Returns
          (execute_operations p (rsb_imm n d) 0 [] x)
          (Becomes (λ e. arm_step (ArmOperation.rsb_imm n d) (s e)) x)
  unfolding execute_operation rsb_imm
  rsb_imm-CarriesOut n d hn hd s x ne old =
      let dest = arm_register_to_ga_operand d in
      let nreg = arm_register_to_ga_operand n in
      operations-cons p _ _ 0 [] x (
        move-Returns p [] (at_index 0 x) (local "n") nreg (Refines-Holds p plain n [] old hn) tt
          λ v mv.
            let l = insert "n" v [] in
            operations-cons p _ _ 1 l _ (
              binary_operation-Returns p l (at_index 1 x) Expr.sub dest (word 0) nreg
                (λ y z my mz. sub-Means my mz) (word-Holds p 0 l x.state)
                (Refines-Holds p plain n l old hn) (register-Writable p plain d hd)
                λ r mr.
                  ends_with_sub p plain 2 l _ _ (Refines-write_reg d old mr) _ _ dest (word 0)
                    (local "n") (written-Holds p plain d l x.state hd mr) (word-Holds p 0 l x.state)
                    (v, lookup-insert "n" "n" v [], mv) ne))

  -- A comparison leaves its difference in a local.
  compares :
      (f g : b.Env → ℕ) (o1 o2 : Operand) (s : b.Env → ArmState) (x : GaExecutor)
      → ((l : Locals) → Holds p 32 f o1 l x.state)
      → ((l : Locals) → Holds p 32 g o2 l x.state)
      → ((e : b.Env) → g e ≢ half 32)
      → Refines s x.state
      → Returns
          (execute_operations p
            (Operation.sub (local "result") o1 o2
              ∷ Operation.set_n_flag (local "result")
              ∷ Operation.set_z_flag (local "result")
              ∷ Operation.set_c_flag o1 o2 true false
              ∷ Operation.set_v_flag o1 o2 true false
              ∷ [])
            0
            []
            x)
          (Becomes (λ e. compare_nzcv (f e) (g e) (s e)) x)
  unfolding execute_operation
  compares f g o1 o2 s x h1 h2 ne old = operations-cons p _ _ 0 [] x (
      binary_operation-Returns p [] (at_index 0 x) Expr.sub (local "result") o1 o2
        (λ y z my mz. sub-Means my mz) (h1 []) (h2 []) tt
        λ r mr.
          let l = insert "result" r [] in
          ends_with_sub p plain 1 l (at_index 0 x) s old f g (local "result") o1 o2
            (r, lookup-insert "result" "result" r [], mr) (h1 l) (h2 l) ne)

  pub cmp_imm-CarriesOut :
      (n : Register) (imm : ℕ)
      → is_pc n ≡ false
      → imm % 2 ^ 32 ≢ half 32
      → CarriesOut p (ArmOperation.cmp_imm n imm) (cmp_imm n imm)
  unfolding cmp_imm
  cmp_imm-CarriesOut n imm hn ne s x old =
      compares _ _ _ _ s x (λ l. Refines-Holds p plain n l old hn) (λ l. word-Holds p imm l x.state)
        (λ e. ne) old

  pub cmp_reg-CarriesOut :
      (m n : Register)
      → is_pc m ≡ false
      → is_pc n ≡ false
      → (s : b.Env → ArmState) (x : GaExecutor) → ((e : b.Env) → read_reg m (s e) ≢ half 32)
      → Refines s x.state
      → Returns
          (execute_operations p (cmp_reg m n) 0 [] x)
          (Becomes (λ e. arm_step (ArmOperation.cmp_reg m n) (s e)) x)
  unfolding cmp_reg
  cmp_reg-CarriesOut m n hm hn s x ne old =
      compares _ _ _ _ s x (λ l. Refines-Holds p plain n l old hn)
        (λ l. Refines-Holds p plain m l old hm) ne old

  pub sub_imm_sp-CarriesOut :
      (imm : ℕ) → CarriesOut p (ArmOperation.sub_imm_sp imm) (sub_imm_sp imm)
  unfolding execute_operation sub_imm_sp is_pc
  sub_imm_sp-CarriesOut imm s x old =
      let stack = arm_register_to_ga_operand sp in
      operations-cons p _ _ 0 [] x (
        binary_operation-Returns p [] (at_index 0 x) Expr.sub stack stack (word imm)
          (λ y z my mz. sub-Means my mz) (Refines-Holds p plain sp [] old refl)
          (word-Holds p imm [] x.state) (register-Writable p plain sp refl)
          λ r mr. operations-nil p 1 [] _ (Refines-write_reg sp old mr, (refl, refl, refl, refl)))
