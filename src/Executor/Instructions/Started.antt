-- ===== src/Executor/Instructions/Started.antt =====
-- The start of `execute_instruction` of symex/src/general_assembly/executor.rs: the PC moves on before
-- the operations run.
use symex.Common.{ℕ, ◌+◌, ◌/◌, ◌≡◌, refl, true, false, [], none, some, lookup, insert, ok, Returns}
use symex.Errors.{GaError}
use symex.Smt.Boolector.{Boolector}
use symex.Smt.Expr
use symex.Smt.Expr.{DExpr, get_constant, from_u64}
use symex.State.{Instruction, GaState, Machine}
use symex.State.Flags.{get_next_instruction_condition_expression}
use symex.State.Counters.{reset_has_jumped, increment_instruction_count}
use symex.State.Registers.{get_register, set_register}
use symex.State.Registers.Laws.{get_register-found, set_register-pc}
use symex.Project.{Project, get_register_read_hook, get_register_write_hook, get_ptr_size}
use symex.Executor.Monad.{GaExecutor, Exec, ◌>>=◌, return, call, on_machine}
use symex.Executor.Instructions.{
  execute_operations, execute_instruction, should_run, next_condition,
}
use symex.Executor.Instructions.Conditions.{step, called, on_machine-ok}

module _ ⦃b : Boolector⦄ (p : Project) where
  -- The executor when the operations of an instruction begin, at `c`, with the PC at `next`.
  abbrev pub started : Instruction → ℕ → DExpr → ℕ → GaExecutor → GaExecutor
  started i c next c' x = record x {
    state = record x.state {
      last_pc = c;
      registers = insert "PC" next x.state.registers;
      pc_register = c';
      has_jumped = false;
      instruction_counter = x.state.instruction_counter + 1;
      current_instruction = some i;
    };
  }

  abbrev pub run_operations : Instruction → Exec (Unit {0})
  run_operations i = do _ ← execute_operations p i.operations 0 []; return tt

  no_condition :
      (s : GaState)
      → s.instruction_conditions ≡ []
      → get_next_instruction_condition_expression s ≡ ok (none, s)
  unfolding get_next_instruction_condition_expression
  no_condition s h = rw (get_next_instruction_condition_expression, h) refl

  next_condition-none :
      (x : GaExecutor) → x.state.instruction_conditions ≡ [] → next_condition p x ≡ ok (none, x)
  unfolding next_condition
  next_condition-none x h = rw (next_condition, no_condition x.state h) refl

  -- An instruction that stands in no IT block.
  should_run-always :
      (x : GaExecutor) → x.state.instruction_conditions ≡ [] → should_run p x ≡ ok (true, x)
  unfolding should_run
  should_run-always x h = rw (should_run, ◌>>=◌, next_condition-none x h) refl

  -- Where the PC is a constant and the instruction stands in no IT block, its operations run from
  -- the state with the PC moved on.
  pub execute_instruction-started :
      {Q : Unit {0} × GaExecutor → Type 0} (i : Instruction) (x : GaExecutor) (pc next : DExpr)
      (c c' : ℕ)
      → get_register_read_hook p "PC" ≡ none
      → get_register_write_hook p "PC" ≡ none
      → lookup "PC" x.state.registers ≡ some pc
      → get_constant {E = GaError} pc ≡ ok (some c)
      → Expr.add {E = GaError} pc (from_u64 (i.instruction_size / 8) (get_ptr_size p)) ≡ ok next
      → get_constant {E = GaError} next ≡ ok (some c')
      → x.state.instruction_conditions ≡ []
      → Returns (run_operations i (started i c next c' x)) Q
      → Returns (execute_instruction p i x) Q
  unfolding execute_instruction reset_has_jumped increment_instruction_count
  execute_instruction-started i x pc next c c' no_read no_write found constant sum constant' plain
        run =
      let here : Machine = record { state = x.state; solver = x.solver } in
      step (on_machine (get_register p "PC")) _
        (on_machine-ok (get_register p "PC") x pc here
          (get_register-found p "PC" pc here no_read found))
        (step (call (get_constant pc)) _ (called constant) (
          step (call (Expr.add pc (from_u64 (i.instruction_size / 8) (get_ptr_size p)))) _
            (called sum)
            (step (on_machine (set_register p "PC" next)) _
              (on_machine-ok (set_register p "PC" next) _ tt _ (
                set_register-pc p next c'
                  (record { state = record x.state { last_pc = c }; solver = x.solver }) no_write
                  constant'))
              (step (should_run p) _ (should_run-always (started i c next c' x) plain) run))))
