-- ===== src/Vm.antt =====
-- symex/src/general_assembly/vm.rs: the waiting paths of a run, and the run of the next one.
use Prim.Native.String.{String}
use symex.Common.{
  ℕ, List, [], ◌∷◌, Option, none, some, insert, Outcome, ok, err, ◌>>=◌, true, false,
}
use symex.Errors.{GaError, entry_function_not_found, project, unable_to_parse_elf}
use symex.Smt.Boolector.{Boolector}
use symex.Smt.Expr.{DExpr, from_u64, unconstrained}
use symex.Smt.Solver.{Solver, assert_constraint}
use symex.Memory.Array
use symex.State.{GaState, Arch}
use symex.PathSelection.{SavedPath, Waiting, new_path, save_path, get_path}
use symex.Project.{Project, get_symbol_address, get_ptr_size}
use symex.Executor.Monad.{GaExecutor}
use symex.Executor.Instructions.{PathResult, resume_execution}

module _ ⦃b : Boolector⦄ where
  -- The symbols that a state needs, or the error.
  required : {A : Type 0} → Option A → GaError → Outcome GaError A
  required (some a) e = ok a
  required none e = err e

  -- `GAState::new`.
  unfoldable pub new_state : Project → String → ℕ → Outcome GaError GaState
  unfolding required
  new_state p function end_address = do
    pc_reg ← required (get_symbol_address p function) (entry_function_not_found function)
    sp_reg ←
        required (get_symbol_address p "_stack_start")
          (project (unable_to_parse_elf "start of stack not found"))
    let ptr_size = get_ptr_size p
    let registers =
        insert "LR" (from_u64 end_address ptr_size)
          (insert "SP" (from_u64 sp_reg ptr_size) (insert "PC" (from_u64 pc_reg ptr_size) []))
    let flags = insert "V" (unconstrained 1 "flags.V") (
        insert "C" (unconstrained 1 "flags.C")
          (insert "Z" (unconstrained 1 "flags.Z") (insert "N" (unconstrained 1 "flags.N") [])))
    ok (record {
      marked_symbolic = [];
      memory = Array.new ptr_size p.endianness;
      count_cycles = true;
      cycle_count = 0;
      cycle_laps = [];
      last_instruction = none;
      last_pc = pc_reg;
      registers = registers;
      continue_in_instruction = none;
      current_instruction = none;
      inital_sp = sp_reg;
      pc_register = pc_reg;
      flags = flags;
      instruction_counter = 0;
      has_jumped = false;
      instruction_conditions = [];
    })

  -- `DSolver::new`.
  abbrev pub new_solver : Solver
  new_solver = record { base = []; frames = [] }

  -- `VM::new_with_state`.
  unfoldable pub new_with_state : GaState → Solver → Waiting
  new_with_state s solver = save_path (new_path s none) (record { paths = []; solver = solver })

  -- `VM::new`.
  unfoldable pub new : Project → String → ℕ → Outcome GaError Waiting
  unfolding new_with_state
  new p fn_name end_pc = do s ← new_state p fn_name end_pc; ok (new_with_state s new_solver)

  -- `for constraint in path.constraints`.
  unfoldable pub assert_all : List DExpr → Solver → Solver
  assert_all [] s = s
  assert_all (c ∷ cs) s = assert_all cs (assert_constraint s c)

  -- The executor that a path is resumed in.
  unfoldable pub executor_of : SavedPath → Waiting → GaExecutor
  executor_of path w = record {
    paths = w.paths;
    state = path.state;
    solver = assert_all path.constraints w.solver;
    current_operation_index = 0;
  }

  -- The result of a run, with the state it ended in; `none` where no path waits. The executor
  -- is given so many rounds.
  unfoldable pub run :
      Project
      → Arch
      → ℕ
      → Waiting
      → Outcome GaError (Option (Option PathResult × GaState) × Waiting)
  unfolding executor_of
  run p a fuel w = do
    (next, w') ← get_path w
    elim next [
      | none ↦ ok (none, w')
      | some path ↦ do
        (result, x) ← resume_execution p a fuel (executor_of path w')
        ok (some (result, x.state), record { paths = x.paths; solver = x.solver })
    ]
