-- ===== src/Arm/V6/Refines/Reversal.antt =====
-- REV of symex/src/general_assembly/arch/arm/v6/decoder.rs, where a register is reversed in place:
-- the destination is cleared before the operand is read.
use Prim.Native.String.{String}
use symex.Common.{
  ℕ, ◌+◌, ◌%◌, ◌^◌, ◌≡◌, refl, ◌∙◌, List, [], ◌∷◌, false, some, name_eq, lookup, insert,
  lookup-insert, Bool-cases, inl, inr, ok, Outcome, Returns,
}
use symex.Errors.{GaError}
use symex.Smt.Boolector.{Boolector}
use symex.Smt.Expr
use symex.Smt.Expr.{DExpr}
use symex.Smt.Means.{Means, and-Means, or-Means, sll-Means, srl-Means}
use symex.Ga.Operand.{Operand, local}
use symex.Ga.Operation.{Operation}
use symex.Project.{Project}
use symex.Executor.Monad.{GaExecutor}
use symex.Executor.Operands.{Locals}
use symex.Executor.Operations.{execute_operation, binary_operation}
use symex.Executor.Instructions.{execute_operations}
use symex.Executor.Steps.{
  Holds, at_index, put_state, with_state, operations-cons, operations-nil, move-Returns,
  binary_operation-Returns,
}
use symex.Arm.V6.Instructions.{Register}
use symex.Arm.V6.Registers.{arm_register_to_ga_operand, word}
use symex.Arm.V6.Timing.{is_pc}
use symex.Arm.V6.Decoder.Bytes.{rev}
use symex.Arm.V6.Machine.{ArmState, write_reg}
use symex.Arm.V6.Refines.{
  IsPlain, Refines, Refines-write_reg, Refines-rewrite_reg, register-Writable, written-Holds,
}
use symex.Arm.V6.Refines.Results.{Becomes, Same, word-Holds}

module _ ⦃b : Boolector⦄ (p : Project) where
  -- The local is zero.
  abbrev IsZero : Locals → String → Type 0
  IsZero l k = (v : DExpr) × (lookup k l ≡ some v) × Means 32 (λ e. 0) v

  insert-IsZero :
      (l : Locals) (k j : String) (r : DExpr)
      → Means 32 (λ e. 0) r
      → IsZero l j
      → IsZero (insert k r l) j
  insert-IsZero l k j r mr (v, at, mv) = elim (Bool-cases (name_eq k j)) [
    | inl same ↦ (r, lookup-insert k j r l ∙ rw same refl, mr)
    | inr other ↦ (v, lookup-insert k j r l ∙ rw other at, mv)
  ]

  -- The four bytes.
  abbrev AllZero : Locals → Type 0
  AllZero l = IsZero l "b1" × IsZero l "B2" × IsZero l "B3" × IsZero l "B4"

  insert-AllZero :
      (l : Locals) (k : String) (r : DExpr)
      → Means 32 (λ e. 0) r
      → AllZero l
      → AllZero (insert k r l)
  insert-AllZero l k r mr (z1, z2, z3, z4) = (
    insert-IsZero l k "b1" r mr z1,
    insert-IsZero l k "B2" r mr z2,
    insert-IsZero l k "B3" r mr z3,
    insert-IsZero l k "B4" r mr z4,
  )

  -- The operations into locals and into the register, all of zeroes.
  module _ (plain : IsPlain p) (d : Register) (hd : is_pc d ≡ false) (m : b.Env → ArmState)
      (x0 : GaExecutor) where
    -- The register is zero, and all else is as at the start.
    abbrev Cleared : GaExecutor → Type 0
    Cleared x =
        Holds p 32 (λ e. 0) (arm_register_to_ga_operand d) [] x.state
        × Refines (λ e. write_reg d 0 (m e)) x.state
        × Same x0 x

    abbrev Ends : List Operation → ℕ → Locals → GaExecutor → Type 0
    Ends os n l x = Returns (execute_operations p os n l x) (Becomes (λ e. write_reg d 0 (m e)) x0)

    into_local :
        (op : Operation) (F : DExpr → DExpr → Outcome GaError DExpr) (k : String) (o1 : Operand)
        (c : ℕ) (os : List Operation) (n : ℕ) (l : Locals) (x : GaExecutor)
        → ((y z : DExpr)
            → Means 32 (λ e. 0) y
            → Means 32 (λ e. c % 2 ^ 32) z
            → Returns (F y z) (Means 32 (λ e. 0)))
        → execute_operation p op l (at_index n x)
          ≡ binary_operation p F (local k) o1 (word c) l (at_index n x)
        → Holds p 32 (λ e. 0) o1 l x.state
        → Cleared x
        → ((r : DExpr)
            → Means 32 (λ e. 0) r
            → Cleared (at_index n x)
            → Ends os (n + 1) (insert k r l) (at_index n x))
        → Ends (op ∷ os) n l x
    into_local op F k o1 c os n l x sem is h clear rest = operations-cons p op os n l x (
        rw is (
          binary_operation-Returns p l (at_index n x) F (local k) o1 (word c) sem h
            (word-Holds p c l x.state) tt (λ r mr. rest r mr clear)))

    into_register :
        (k : String) (os : List Operation) (n : ℕ) (l : Locals) (x : GaExecutor)
        → IsZero l k
        → Cleared x
        → ((x : GaExecutor) → Cleared x → Ends os (n + 1) l x)
        → Ends
            (Operation.or (arm_register_to_ga_operand d) (arm_register_to_ga_operand d) (local k)
              ∷ os)
            n
            l
            x
    unfolding execute_operation
    into_register k os n l x zero clear rest =
        let dest = arm_register_to_ga_operand d in
        operations-cons p _ os n l x (
          binary_operation-Returns p l (at_index n x) (λ y z. ok (Expr.or y z)) dest dest (local k)
            (λ y z my mz. (_, refl, or-Means my mz)) clear.0 zero (register-Writable p plain d hd)
            λ r mr. rest _ (
              written-Holds p plain d [] x.state hd mr,
              Refines-rewrite_reg m (λ e. 0) d clear.1 mr,
              clear.2,
            ))

    -- The four bytes are cut out of the cleared register.
    cuts :
        (os : List Operation) (x : GaExecutor)
        → Cleared x
        → ((l : Locals) (x : GaExecutor) → AllZero l → Cleared x → Ends os 5 l x)
        → Ends
            (Operation.and (local "b1") (arm_register_to_ga_operand d) (word 0xff)
              ∷ Operation.and (local "B2") (arm_register_to_ga_operand d) (word 0xff00)
              ∷ Operation.and (local "B3") (arm_register_to_ga_operand d) (word 0xff0000)
              ∷ Operation.and (local "B4") (arm_register_to_ga_operand d) (word 0xff000000)
              ∷ os)
            1
            []
            x
    unfolding execute_operation lookup insert
    cuts os x clear rest =
        let dest = arm_register_to_ga_operand d in
        let masks : (y z : DExpr) → Outcome GaError DExpr = λ y z. ok (Expr.and y z) in
        into_local _ masks "b1" dest 0xff _ 1 _ x (λ y z my mz. (_, refl, and-Means my mz)) refl
          clear.0 clear
          λ r1 z1 clear.
            into_local _ masks "B2" dest 0xff00 _ 2 _ _ (λ y z my mz. (_, refl, and-Means my mz))
              refl clear.0 clear
              λ r2 z2 clear.
                into_local _ masks "B3" dest 0xff0000 _ 3 _ _
                  (λ y z my mz. (_, refl, and-Means my mz)) refl clear.0 clear
                  λ r3 z3 clear.
                    into_local _ masks "B4" dest 0xff000000 _ 4 _ _
                      (λ y z my mz. (_, refl, and-Means my mz)) refl clear.0 clear
                      λ r4 z4 clear.
                        rest _ _ ((r1, refl, z1), (r2, refl, z2), (r3, refl, z3), (r4, refl, z4))
                          clear

    -- They are shifted.
    shifts :
        (os : List Operation) (l : Locals) (x : GaExecutor)
        → AllZero l
        → Cleared x
        → ((l : Locals) (x : GaExecutor) → AllZero l → Cleared x → Ends os 9 l x)
        → Ends
            (Operation.sl (local "b1") (local "b1") (word 24)
              ∷ Operation.sl (local "B2") (local "B2") (word 8)
              ∷ Operation.srl (local "B3") (local "B3") (word 8)
              ∷ Operation.srl (local "B4") (local "B4") (word 24)
              ∷ os)
            5
            l
            x
    unfolding execute_operation
    shifts os l x zero clear rest =
        let ups : (y z : DExpr) → Outcome GaError DExpr = λ y z. ok (Expr.sll y z) in
        let downs : (y z : DExpr) → Outcome GaError DExpr = λ y z. ok (Expr.srl y z) in
        into_local _ ups "b1" (local "b1") 24 _ 5 l x (λ y z my mz. (_, refl, sll-Means my mz)) refl
          zero.0 clear
          λ r m clear.
            let zero = insert-AllZero l "b1" r m zero in
            into_local _ ups "B2" (local "B2") 8 _ 6 _ _ (λ y z my mz. (_, refl, sll-Means my mz))
              refl zero.1 clear
              λ r m clear.
                let zero = insert-AllZero _ "B2" r m zero in
                into_local _ downs "B3" (local "B3") 8 _ 7 _ _
                  (λ y z my mz. (_, refl, srl-Means my mz)) refl zero.2 clear
                  λ r m clear.
                    let zero = insert-AllZero _ "B3" r m zero in
                    into_local _ downs "B4" (local "B4") 24 _ 8 _ _
                      (λ y z my mz. (_, refl, srl-Means my mz)) refl zero.3 clear
                      λ r m clear. rest _ _ (insert-AllZero _ "B4" r m zero) clear

    -- And they are put together.
    joins :
        (l : Locals) (x : GaExecutor)
        → AllZero l
        → Cleared x
        → let dest = arm_register_to_ga_operand d in
          Ends
            (Operation.or dest dest (local "b1")
              ∷ Operation.or dest dest (local "B2")
              ∷ Operation.or dest dest (local "B3")
              ∷ Operation.or dest dest (local "B4")
              ∷ [])
            9
            l
            x
    joins l x (z1, z2, z3, z4) clear = into_register "b1" _ 9 l x z1 clear λ x clear.
        into_register "B2" _ 10 l x z2 clear λ x clear.
          into_register "B3" _ 11 l x z3 clear λ x clear.
            into_register "B4" _ 12 l x z4 clear
              λ x clear. operations-nil p 13 l x (clear.1, clear.2)

  -- REV of a register into itself gives zero, whatever the register holds.
  pub rev-clears :
      (plain : IsPlain p) (d : Register) (m : b.Env → ArmState) (x : GaExecutor)
      → is_pc d ≡ false
      → Refines m x.state
      → Returns (execute_operations p (rev d d) 0 [] x) (Becomes (λ e. write_reg d 0 (m e)) x)
  unfolding rev
  rev-clears plain d m x hd old =
      let dest = arm_register_to_ga_operand d in
      operations-cons p _ _ 0 [] x (
        move-Returns p [] (at_index 0 x) dest (word 0) (word-Holds p 0 [] x.state)
          (register-Writable p plain d hd)
          λ r mr.
            let x1 = with_state (at_index 0 x) (put_state dest r x.state) in
            cuts plain d hd m x _ x1
              (
                written-Holds p plain d [] x.state hd mr,
                Refines-write_reg d old mr,
                (refl, refl, refl, refl),
              )
              λ l x2 zero clear. shifts plain d hd m x _ l x2 zero clear (joins plain d hd m x))
