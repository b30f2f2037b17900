-- ===== src/Arm/V6/Refines/Flags.antt =====
-- The operations that end an instruction of symex/src/general_assembly/arch/arm/v6/decoder.rs: the
-- flags of a result, of a sum and of a difference.
use Prim.Native.String.{String}
use symex.Common.{
  ℕ, ◌+◌, ◌^◌, ◌≡◌, ◌≢◌, refl, List, [], ◌∷◌, false, true, bit, leb, ◌==◌, insert, arith, Outcome,
  Returns,
}
use symex.Errors.{GaError}
use symex.Smt.Words.{half, add_overflows, sub_overflows}
use symex.Smt.Boolector.{Boolector}
use symex.Smt.Expr.{DExpr}
use symex.Smt.Means.{Means, uaddo-Means, saddo-Means}
use symex.Ga.Operand.{Operand}
use symex.Ga.Operation.{Operation}
use symex.Project.{Project, get_word_size}
use symex.Executor.Monad.{GaExecutor}
use symex.Executor.Operands.{Locals}
use symex.Executor.Values.{n_flag_value, z_flag_value, c_flag_value, v_flag_value}
use symex.Executor.Operations.{execute_operation}
use symex.Executor.Instructions.{execute_operations}
use symex.State.{GaState}
use symex.Smt.Resize.{not_expr-Means, from_u64-Means}
use symex.Executor.Adder.{add_with_carry-IsSum}
use symex.Executor.Shifts.{n_flag_value-top, z_flag_value-zero}
use symex.Executor.Subtract.{c_flag_value-sub, v_flag_value-sub}
use symex.Executor.Steps.{
  Holds, Holds-flags, at_index, with_state, operations-cons, flag_operation-Returns,
  flag_operation2-Returns,
}
use symex.Arm.V6.Refines.{IsPlain}

module _ ⦃b : Boolector⦄ where
  -- A value that is known under each assignment by itself is known under all.
  pub pointwise-Means :
      {E : Type 0} {w : ℕ} {f g : b.Env → ℕ} (o : Outcome E DExpr)
      → Returns o (Means w f)
      → ((e : b.Env) → Returns o (λ r. b.value e r ≡ g e))
      → Returns o (Means w g)
  pointwise-Means o (r, p, m) h = (
    r,
    p,
    record {
      has_width = m.has_width;
      has_value = λ e. let (r', p', v) = h e in let same : r ≡ r' = cc in rw same v;
    },
  )

  v_flag-Means :
      {f g : b.Env → ℕ} (y z : DExpr) (my : Means 32 f y) (mz : Means 32 g z) (s : GaState)
      → ((e : b.Env) → g e ≢ half 32)
      → Returns
          (v_flag_value 32 true false y z s)
          (Means 1 (λ e. bit (sub_overflows (half 32) (f e) (g e))))
  unfolding v_flag_value
  v_flag-Means y z my mz s ne =
      let (r, p, sum) =
        add_with_carry-IsSum {E = GaError} (omega arith) my (not_expr-Means mz)
          (from_u64-Means 1 32) in
      pointwise-Means (v_flag_value 32 true false y z s) (_, rw p refl, sum.overflow_means)
        (λ e. v_flag_value-sub (omega arith) my mz s e (ne e))

  -- The executor with flags put in, of the index `n`.
  abbrev pub flags_set : ℕ → GaExecutor → List (String × DExpr) → GaExecutor
  flags_set n x [] = at_index n x
  flags_set n x ((name, v) ∷ fs) =
      let x' = flags_set n x fs in
      with_state x' (record x'.state { flags = insert name v x'.state.flags })

module _ {ℓ} ⦃b : Boolector⦄ (p : Project) (plain : IsPlain p) {Q : Locals × GaExecutor → Type ℓ}
    (n : ℕ) (l : Locals) (x : GaExecutor) where
  -- `SetNFlag` and `SetZFlag` of one operand.
  pub nz_flags-Returns :
      (f : b.Env → ℕ) (o : Operand) (os : List Operation)
      → Holds p 32 f o l x.state
      → ((vn vz : DExpr)
          → Means 1 (λ e. bit (leb (half 32) (f e))) vn
          → Means 1 (λ e. bit (f e == 0)) vz
          → Returns
              (execute_operations p os
                (n + 1 + 1)
                l
                (flags_set (n + 1) x (("Z", vz) ∷ ("N", vn) ∷ [])))
              Q)
      → Returns
          (execute_operations p (Operation.set_n_flag o ∷ Operation.set_z_flag o ∷ os) n l x)
          Q
  unfolding execute_operation
  nz_flags-Returns f o os h k =
      let n_means : (y : DExpr)
          → Means 32 f y
          → Returns (n_flag_value (get_word_size p) y) (Means 1 (λ e. bit (leb (half 32) (f e)))) =
        λ y my. rw plain.word_size (n_flag_value-top my) in
      let z_means : (y : DExpr)
          → Means 32 f y
          → Returns (z_flag_value (get_word_size p) y) (Means 1 (λ e. bit (f e == 0))) =
        λ y my. rw plain.word_size (z_flag_value-zero (omega arith) my) in
      operations-cons p _ _ n l x (
        flag_operation-Returns p l (at_index n x) "N" _ o n_means h λ vn mn.
          operations-cons p _ _ (n + 1) l _ (
            flag_operation-Returns p l _ "Z" _ o z_means (Holds-flags p 32 f o l x.state _ h)
              λ vz mz. k vn vz mn mz))

  -- `SetCFlag` and `SetVFlag` of a sum.
  pub add_cv_flags-Returns :
      (f g : b.Env → ℕ) (o1 o2 : Operand) (os : List Operation)
      → Holds p 32 f o1 l x.state
      → Holds p 32 g o2 l x.state
      → ((vc vv : DExpr)
          → Means 1 (λ e. bit (leb (2 ^ 32) (f e + g e))) vc
          → Means 1 (λ e. bit (add_overflows (half 32) (f e) (g e) 0)) vv
          → Returns
              (execute_operations p os
                (n + 1 + 1)
                l
                (flags_set (n + 1) x (("V", vv) ∷ ("C", vc) ∷ [])))
              Q)
      → Returns
          (execute_operations p
            (Operation.set_c_flag o1 o2 false false ∷ Operation.set_v_flag o1 o2 false false ∷ os)
            n
            l
            x)
          Q
  unfolding execute_operation c_flag_value v_flag_value
  add_cv_flags-Returns f g o1 o2 os h1 h2 k = operations-cons p _ _ n l x (
      flag_operation2-Returns p l (at_index n x) "C" _ o1 o2 (λ y z my mz. uaddo-Means my mz) h1 h2
        λ vc mc. operations-cons p _ _ (n + 1) l _ (
          flag_operation2-Returns p l _ "V" _ o1 o2 (λ y z my mz. saddo-Means my mz)
            (Holds-flags p 32 f o1 l x.state _ h1) (Holds-flags p 32 g o2 l x.state _ h2)
            λ vv mv. k vc vv mc mv))

  -- `SetCFlag` and `SetVFlag` of a difference, where the second operand is not the least number.
  pub sub_cv_flags-Returns :
      (f g : b.Env → ℕ) (o1 o2 : Operand) (os : List Operation)
      → Holds p 32 f o1 l x.state
      → Holds p 32 g o2 l x.state
      → ((e : b.Env) → g e ≢ half 32)
      → ((vc vv : DExpr)
          → Means 1 (λ e. bit (leb (g e) (f e))) vc
          → Means 1 (λ e. bit (sub_overflows (half 32) (f e) (g e))) vv
          → Returns
              (execute_operations p os
                (n + 1 + 1)
                l
                (flags_set (n + 1) x (("V", vv) ∷ ("C", vc) ∷ [])))
              Q)
      → Returns
          (execute_operations p
            (Operation.set_c_flag o1 o2 true false ∷ Operation.set_v_flag o1 o2 true false ∷ os)
            n
            l
            x)
          Q
  unfolding execute_operation
  sub_cv_flags-Returns f g o1 o2 os h1 h2 ne k =
      let c_means : (s : GaState) (y z : DExpr)
          → Means 32 f y
          → Means 32 g z
          → Returns (c_flag_value (get_word_size p) true false y z s)
              (Means 1 (λ e. bit (leb (g e) (f e)))) =
        λ s y z my mz. rw plain.word_size (c_flag_value-sub (omega arith) my mz s) in
      let v_means : (s : GaState) (y z : DExpr)
          → Means 32 f y
          → Means 32 g z
          → Returns (v_flag_value (get_word_size p) true false y z s)
              (Means 1 (λ e. bit (sub_overflows (half 32) (f e) (g e)))) =
        λ s y z my mz. rw plain.word_size (v_flag-Means y z my mz s ne) in
      operations-cons p _ _ n l x (
        flag_operation2-Returns p l (at_index n x) "C" _ o1 o2 (c_means x.state) h1 h2 λ vc mc.
          operations-cons p _ _ (n + 1) l _ (
            flag_operation2-Returns p l _ "V" _ o1 o2 (v_means _)
              (Holds-flags p 32 f o1 l x.state _ h1) (Holds-flags p 32 g o2 l x.state _ h2)
              λ vv mv. k vc vv mc mv))
