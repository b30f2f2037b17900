-- ===== src/Executor/Jumps.antt =====
-- A jump whose condition depends on the path: the last part of `ConditionalJump` in
-- symex/src/general_assembly/executor.rs, against the assignments of the path.
use symex.Common.{
  ℕ, ◌≡◌, ◌≢◌, refl, true, List, ◌∷◌, Option, none, some, length, ltb, lookup, Bool-cases, ok, inl,
  inr,
}
use symex.Errors.{GaError}
use symex.Smt.Boolector.{Boolector}
use symex.Smt.Expr.{DExpr, get_constant, not_expr}
use symex.Smt.Solver.{asserted}
use symex.Smt.Solver.Laws.{Decides, Satisfies}
use symex.Ga.Operation.{Operation}
use symex.State.{Instruction, ContinueInsideInstruction}
use symex.State.Counters.{set_has_jumped}
use symex.State.Registers.{set_register}
use symex.PathSelection.{SavedPath}
use symex.Project.{Project, get_register_write_hook, get_register_read_hook}
use symex.Executor.Monad.{GaExecutor, Exec, ◌>>◌, on_machine, update_state, fork, assert_on_path}
use symex.Executor.Operands.{Locals, save_continuation}

module _ ⦃b : Boolector⦄ (p : Project) where
  pub save_continuation-only :
      (index : ℕ) (locals : Locals) (x : GaExecutor) (i : Instruction) (o : Operation)
      (operations : List Operation)
      → x.state.current_instruction ≡ some i
      → i.operations ≡ o ∷ operations
      → (k : Option ContinueInsideInstruction) × (save_continuation index locals x
          ≡ ok (tt, record x { state = record x.state { continue_in_instruction = k } }))
  unfolding save_continuation
  save_continuation-only index locals x i o operations here some_operations =
      elim (Bool-cases (ltb x.current_operation_index (length operations))) [
        | inl before ↦ (
          some (record { instruction = i; index = index; local = locals }),
          rw (save_continuation, here, some_operations, before) refl,
        )
        | inr last ↦ (
          x.state.continue_in_instruction,
          rw (save_continuation, here, some_operations, last) refl,
        )
      ]

  -- The path jumped to `v`: it keeps the assignments that satisfy the condition, and the others
  -- go on in a saved path that has not jumped.
  pub record Jumped (c : DExpr) (v : ℕ) (x x' : GaExecutor) : Type 0 where
    pub target : x'.state.pc_register ≡ v
    pub has_jumped : x'.state.has_jumped ≡ true
    pub only :
        (e : b.Env)
        → Satisfies e (asserted x'.solver)
        → (b.value e c ≡ 1) × Satisfies e (asserted x.solver)
    pub kept :
        (e : b.Env)
        → Satisfies e (asserted x.solver)
        → b.value e c ≡ 1
        → Satisfies e (asserted x'.solver)
    pub saved :
        (e : b.Env)
        → Satisfies e (asserted x.solver)
        → b.value e c ≢ 1
        → (path : SavedPath) × (x'.paths ≡ path ∷ x.paths)
          × (path.state.pc_register ≡ x.state.pc_register)
          × Satisfies e path.constraints

  -- The path did not jump: no assignment satisfies the condition.
  pub record Stayed (c : DExpr) (u : ℕ) (x x' : GaExecutor) : Type 0 where
    pub target : x'.state.pc_register ≡ u
    pub same_paths : x'.paths ≡ x.paths
    pub same_solver : x'.solver ≡ x.solver
    pub none_satisfies : (e : b.Env) → Satisfies e (asserted x.solver) → b.value e c ≢ 1

  module _ (decides : Decides) (c dest pc : DExpr) (v u : ℕ) (locals : Locals) (x : GaExecutor)
      (i : Instruction) (o : Operation) (operations : List Operation)
      (no_write : get_register_write_hook p "PC" ≡ none)
      (no_read : get_register_read_hook p "PC" ≡ none)
      (dest_constant : get_constant {E = GaError} dest ≡ ok (some v))
      (pc_constant : get_constant {E = GaError} pc ≡ ok (some u))
      (pc_found : lookup "PC" x.state.registers ≡ some pc)
      (here : x.state.current_instruction ≡ some i)
      (some_operations : i.operations ≡ o ∷ operations) (one_bit : b.width c ≡ 1) where
    -- Both are possible: the other assignments are saved first.
    fork_and_jump : Exec (Unit {0})
    fork_and_jump = do
      fork (not_expr c)
      assert_on_path c
      update_state set_has_jumped
      on_machine (set_register p "PC" dest)
