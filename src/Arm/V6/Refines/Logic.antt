-- ===== src/Arm/V6/Refines/Logic.antt =====
-- Bitwise operations, products, moves and extensions of
-- symex/src/general_assembly/arch/arm/v6/decoder.rs carry out what the manual says.
use symex.Common.{ℕ, ◌≡◌, refl, [], ◌∷◌, false, Outcome, ok, Returns}
use symex.Errors.{GaError}
use symex.Smt.Boolector.{Boolector}
use symex.Smt.Expr
use symex.Smt.Expr.{DExpr, not_expr}
use symex.Smt.Means.{Means, mul-Means, and-Means, or-Means, xor-Means}
use symex.Ga.Operand.{Operand}
use symex.Ga.Operation.{Operation}
use symex.Project.{Project}
use symex.Executor.Monad.{GaExecutor}
use symex.Executor.Operations.{execute_operation, binary_operation, unary_operation}
use symex.Executor.Instructions.{execute_operations}
use symex.Executor.Steps.{
  Holds, at_index, operations-cons, operations-nil, binary_operation-Returns,
  unary_operation-Returns, stored,
}
use symex.Arm.V6.Instructions.{Register, ArmOperation}
use symex.Arm.V6.Registers.{arm_register_to_ga_operand}
use symex.Arm.V6.Timing.{is_pc}
use symex.Arm.V6.Decoder.Arithmetic.{mul}
use symex.Arm.V6.Decoder.Logic.{and_reg, orr_reg, eor_reg}
use symex.Arm.V6.Machine.{ArmState, write_reg, write_nz}
use symex.Arm.V6.Refines.{
  IsPlain, Refines, Refines-Holds, Refines-write_reg, register-Writable, written-Holds,
}
use symex.Arm.V6.Refines.Results.{Becomes, CarriesOut, ends_with_nz}

module _ ⦃b : Boolector⦄ (p : Project) (plain : IsPlain p) where
  -- An operation into a register, and the flags N and Z of it.
  module _ (s : b.Env → ArmState) (x : GaExecutor) (old : Refines s x.state) (d : Register)
      (hd : is_pc d ≡ false) where
    pub nz_of :
        (h : b.Env → ℕ) (r : DExpr)
        → Means 32 h r
        → Returns
            (execute_operations p
              (Operation.set_n_flag (arm_register_to_ga_operand d)
                ∷ Operation.set_z_flag (arm_register_to_ga_operand d)
                ∷ [])
              1
              []
              (stored [] (at_index 0 x) (arm_register_to_ga_operand d) r).1)
            (Becomes (λ e. write_nz d (h e) (s e)) x)
    nz_of h r mr =
        ends_with_nz p plain 1 [] (stored [] (at_index 0 x) (arm_register_to_ga_operand d) r).1 _
          (Refines-write_reg d old mr) h (arm_register_to_ga_operand d)
          (written-Holds p plain d [] x.state hd mr)

    pub binary_nz :
        (op : Operation) (F : DExpr → DExpr → Outcome GaError DExpr) (f g h : b.Env → ℕ)
        (o1 o2 : Operand)
        → ((y z : DExpr) → Means 32 f y → Means 32 g z → Returns (F y z) (Means 32 h))
        → Holds p 32 f o1 [] x.state
        → Holds p 32 g o2 [] x.state
        → execute_operation p op [] (at_index 0 x)
          ≡ binary_operation p F (arm_register_to_ga_operand d) o1 o2 [] (at_index 0 x)
        → Returns
            (execute_operations p
              (op
                ∷ Operation.set_n_flag (arm_register_to_ga_operand d)
                ∷ Operation.set_z_flag (arm_register_to_ga_operand d)
                ∷ [])
              0
              []
              x)
            (Becomes (λ e. write_nz d (h e) (s e)) x)
    binary_nz op F f g h o1 o2 sem h1 h2 is = operations-cons p _ _ 0 [] x (
        rw is (
          binary_operation-Returns p [] (at_index 0 x) F (arm_register_to_ga_operand d) o1 o2 sem h1
            h2 (register-Writable p plain d hd) (nz_of h)))

    pub unary :
        (op : Operation) (F : DExpr → Outcome GaError DExpr) (f h : b.Env → ℕ) (o : Operand)
        → ((y : DExpr) → Means 32 f y → Returns (F y) (Means 32 h))
        → Holds p 32 f o [] x.state
        → execute_operation p op [] (at_index 0 x)
          ≡ unary_operation p F (arm_register_to_ga_operand d) o [] (at_index 0 x)
        → Returns (execute_operations p (op ∷ []) 0 [] x) (Becomes (λ e. write_reg d (h e) (s e)) x)
    unary op F f h o sem h1 is = operations-cons p _ _ 0 [] x (
        rw is (
          unary_operation-Returns p [] (at_index 0 x) F (arm_register_to_ga_operand d) o sem h1
            (register-Writable p plain d hd)
            λ r mr. operations-nil p 1 [] _ (Refines-write_reg d old mr, (refl, refl, refl, refl))))

  module _ (m dn : Register) (hm : is_pc m ≡ false) (hdn : is_pc dn ≡ false) where
    pub and_reg-CarriesOut : CarriesOut p (ArmOperation.and_reg m dn) (and_reg m dn)
    unfolding execute_operation and_reg
    and_reg-CarriesOut s x old =
        binary_nz s x old dn hdn _ (λ y z. ok (Expr.and y z)) _ _ _ _ _
          (λ y z my mz. (_, refl, and-Means my mz)) (Refines-Holds p plain dn [] old hdn)
          (Refines-Holds p plain m [] old hm) refl

    pub orr_reg-CarriesOut : CarriesOut p (ArmOperation.orr_reg m dn) (orr_reg m dn)
    unfolding execute_operation orr_reg
    orr_reg-CarriesOut s x old =
        binary_nz s x old dn hdn _ (λ y z. ok (Expr.or y z)) _ _ _ _ _
          (λ y z my mz. (_, refl, or-Means my mz)) (Refines-Holds p plain dn [] old hdn)
          (Refines-Holds p plain m [] old hm) refl

    pub eor_reg-CarriesOut : CarriesOut p (ArmOperation.eor_reg m dn) (eor_reg m dn)
    unfolding execute_operation eor_reg
    eor_reg-CarriesOut s x old =
        binary_nz s x old dn hdn _ (λ y z. ok (Expr.xor y z)) _ _ _ _ _
          (λ y z my mz. (_, refl, xor-Means my mz)) (Refines-Holds p plain dn [] old hdn)
          (Refines-Holds p plain m [] old hm) refl

    -- Here `m` is the first operand.
    pub mul-CarriesOut : CarriesOut p (ArmOperation.mul m dn) (mul m dn)
    unfolding execute_operation mul
    mul-CarriesOut s x old =
        binary_nz s x old dn hdn _ Expr.mul _ _ _ _ _ (λ y z my mz. mul-Means my mz)
          (Refines-Holds p plain m [] old hm) (Refines-Holds p plain dn [] old hdn) refl
