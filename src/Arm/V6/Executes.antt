-- ===== src/Arm/V6/Executes.antt =====
-- A whole instruction: what `execute_instruction` of symex/src/general_assembly/executor.rs makes of
-- the translation of symex/src/general_assembly/arch/arm/v6/decoder.rs, with the PC moved on.
use symex.Common.{ℕ, ◌≡◌, [], none, some, lookup, ok}
use symex.Errors.{GaError}
use symex.Smt.Boolector.{Boolector}
use symex.Smt.Expr
use symex.Smt.Expr.{DExpr, get_constant, from_u64}
use symex.Project.{Project, get_register_read_hook, get_register_write_hook, get_ptr_size}
use symex.Executor.Monad.{GaExecutor}
use symex.Arm.V6.Machine.{ArmState}
use symex.Arm.V6.Refines.{Refines}

module _ ⦃b : Boolector⦄ (p : Project) where
  -- The PC before an instruction of `size` bytes, and after it: constants, at `c` and `c'`. That
  -- the sum of constants is one is the simplification that Boolector does.
  pub record PcAt (size : ℕ) (c c' : ℕ) (x : GaExecutor) : Type 0 where
    pub no_read_hook : get_register_read_hook p "PC" ≡ none
    pub no_write_hook : get_register_write_hook p "PC" ≡ none
    pub before : DExpr
    pub after : DExpr
    pub found : lookup "PC" x.state.registers ≡ some before
    pub constant : get_constant {E = GaError} before ≡ ok (some c)
    pub sum : Expr.add {E = GaError} before (from_u64 size (get_ptr_size p)) ≡ ok after
    pub next_constant : get_constant {E = GaError} after ≡ ok (some c')
    pub no_block : x.state.instruction_conditions ≡ []

  -- What an instruction leaves: the machines after it, the PC at `c'`, and the rest as it was.
  abbrev pub Executed : (b.Env → ArmState) → ℕ → GaExecutor → Unit {0} × GaExecutor → Type 0
  Executed m c' x r =
      Refines m r.1.state
      × (r.1.state.pc_register ≡ c')
      × (r.1.paths ≡ x.paths)
      × (r.1.solver ≡ x.solver)
      × (r.1.state.memory ≡ x.state.memory)
