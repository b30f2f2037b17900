-- ===== src/Arm/V6/Refines/Results.antt =====
-- The ends of the data-processing instructions of
-- symex/src/general_assembly/arch/arm/v6/decoder.rs: after its flags are set, the state stands for
-- the machines of the manual.
use symex.Common.{ℕ, ◌+◌, ◌-◌, ◌%◌, ◌^◌, ◌≡◌, ◌≢◌, refl, List, [], ◌∷◌, false, true, Returns}
use symex.Smt.Words.{half}
use symex.Smt.Boolector.{Boolector}
use symex.Smt.Resize.{from_u64-Means}
use symex.Ga.Operand.{Operand}
use symex.Ga.Operation.{Operation}
use symex.State.{GaState}
use symex.State.Registers.{dexpr_of_dataword}
use symex.Project.{Project}
use symex.Executor.Monad.{GaExecutor}
use symex.Executor.Operands.{Locals}
use symex.Executor.Instructions.{execute_operations}
use symex.Executor.Steps.{Holds, operations-nil, Holds-flags}
use symex.Arm.V6.Instructions.{ArmOperation}
use symex.Arm.V6.Registers.{word}
use symex.Arm.V6.Machine.{ArmState, set_nz, add_nzcv, compare_nzcv, arm_step}
use symex.Arm.V6.Refines.{Refines, Refines-set_nz, Refines-set_cv, IsPlain}
use symex.Arm.V6.Refines.Flags.{nz_flags-Returns, add_cv_flags-Returns, sub_cv_flags-Returns}

module _ ⦃b : Boolector⦄ where
  -- The waiting paths, the solver, the memory and the PC are the same.
  abbrev pub Same : GaExecutor → GaExecutor → Type 0
  Same x x' =
      (x'.paths ≡ x.paths)
      × (x'.solver ≡ x.solver)
      × (x'.state.memory ≡ x.state.memory)
      × (x'.state.pc_register ≡ x.state.pc_register)

  -- The executor has come to stand for the machines `m`.
  abbrev pub Becomes : (b.Env → ArmState) → GaExecutor → Locals × GaExecutor → Type 0
  Becomes m x r = Refines m r.1.state × Same x r.1

  -- The operations carry out `o` on the machines that the state stands for.
  abbrev pub CarriesOut : Project → ArmOperation → List Operation → Type 0
  CarriesOut p o os =
      (m : b.Env → ArmState) (x : GaExecutor)
      → Refines m x.state
      → Returns (execute_operations p os 0 [] x) (Becomes (λ e. arm_step o (m e)) x)

  pub word-Holds :
      (p : Project) (v : ℕ) (l : Locals) (s : GaState) → Holds p 32 (λ e. v % 2 ^ 32) (word v) l s
  unfolding dexpr_of_dataword
  word-Holds p v l s = from_u64-Means v 32

module _ ⦃b : Boolector⦄ (p : Project) (plain : IsPlain p) (n : ℕ) (l : Locals) (x : GaExecutor)
    (m : b.Env → ArmState) (old : Refines m x.state) where
  pub ends_with_nz :
      (f : b.Env → ℕ) (o : Operand)
      → Holds p 32 f o l x.state
      → Returns
          (execute_operations p (Operation.set_n_flag o ∷ Operation.set_z_flag o ∷ []) n l x)
          (Becomes (λ e. set_nz (f e) (m e)) x)
  ends_with_nz f o h = nz_flags-Returns p plain n l x f o [] h λ vn vz mn mz.
      operations-nil p (n + 1 + 1) l _ (Refines-set_nz old mn mz, (refl, refl, refl, refl))

  pub ends_with_add :
      (f g : b.Env → ℕ) (o o1 o2 : Operand)
      → Holds p 32 (λ e. (f e + g e) % 2 ^ 32) o l x.state
      → Holds p 32 f o1 l x.state
      → Holds p 32 g o2 l x.state
      → Returns
          (execute_operations p
            (Operation.set_n_flag o
              ∷ Operation.set_z_flag o
              ∷ Operation.set_c_flag o1 o2 false false
              ∷ Operation.set_v_flag o1 o2 false false
              ∷ [])
            n
            l
            x)
          (Becomes (λ e. add_nzcv (f e) (g e) (m e)) x)
  ends_with_add f g o o1 o2 h h1 h2 = nz_flags-Returns p plain n l x _ o _ h λ vn vz mn mz.
      add_cv_flags-Returns p plain (n + 1 + 1) l _ f g o1 o2 []
        (Holds-flags p 32 f o1 l x.state _ h1) (Holds-flags p 32 g o2 l x.state _ h2)
        λ vc vv mc mv.
          operations-nil p (n + 1 + 1 + 1 + 1) l _
            (Refines-set_cv (Refines-set_nz old mn mz) mc mv, (refl, refl, refl, refl))

  pub ends_with_sub :
      (f g : b.Env → ℕ) (o o1 o2 : Operand)
      → Holds p 32 (λ e. (f e + 2 ^ 32 - g e) % 2 ^ 32) o l x.state
      → Holds p 32 f o1 l x.state
      → Holds p 32 g o2 l x.state
      → ((e : b.Env) → g e ≢ half 32)
      → Returns
          (execute_operations p
            (Operation.set_n_flag o
              ∷ Operation.set_z_flag o
              ∷ Operation.set_c_flag o1 o2 true false
              ∷ Operation.set_v_flag o1 o2 true false
              ∷ [])
            n
            l
            x)
          (Becomes (λ e. compare_nzcv (f e) (g e) (m e)) x)
  ends_with_sub f g o o1 o2 h h1 h2 ne = nz_flags-Returns p plain n l x _ o _ h λ vn vz mn mz.
      sub_cv_flags-Returns p plain (n + 1 + 1) l _ f g o1 o2 []
        (Holds-flags p 32 f o1 l x.state _ h1) (Holds-flags p 32 g o2 l x.state _ h2) ne
        λ vc vv mc mv.
          operations-nil p (n + 1 + 1 + 1 + 1) l _
            (Refines-set_cv (Refines-set_nz old mn mz) mc mv, (refl, refl, refl, refl))
