-- ===== src/Executor/Instructions.antt =====
-- `execute_instruction`, `continue_executing_instruction` and `resume_execution` of
-- symex/src/general_assembly/executor.rs.
pub mod Started
pub mod Conditions
use Prim.Native.String.{String}
use symex.Common.{
  ℕ, zero, suc, ◌+◌, ◌/◌, Bool, true, false, List, [], ◌∷◌, drop, Option, none, some, if◌then◌else◌,
  Outcome, unwrap,
}
use symex.Smt.Boolector.{Boolector}
use symex.Smt.Expr
use symex.Smt.Expr.{DExpr, get_constant, get_constant_bool, from_u64, not_expr}
use symex.Ga.Operation.{Operation}
use symex.State.{Instruction, ContinueInsideInstruction, Arch}
use symex.State.Flags.{get_next_instruction_condition_expression}
use symex.State.Counters.{
  reset_has_jumped, increment_instruction_count, increment_cycle_count, set_last_instruction,
}
use symex.State.Registers.{
  get_register, set_register, get_next_instruction, HookOrInstruction, pc_hook, instruction,
}
use symex.Project.{
  Project, PcHook, continue, end_success, end_failure, intrinsic, suppress, get_ptr_size,
}
use symex.Executor.Monad.{
  Exec, ◌>>=◌, ◌>>◌, return, call, on_machine, get_state, update_state, assert_on_path, fork,
}
use symex.Executor.Operands.{Locals}
use symex.Executor.Operations.{execute_operation, possible}

pub data PathResult : Type 0 where
  success : PathResult
  failure : String → PathResult
  assumption_unsat : PathResult
  suppressed : PathResult

module _ ⦃b : Boolector⦄ (p : Project) where
  abbrev set_index : ℕ → Exec (Unit {0})
  set_index i x = Outcome.ok (tt, record x { current_operation_index = i })

  -- The operations of an instruction, from the one with index `n` on.
  unfoldable pub execute_operations : List Operation → ℕ → Locals → Exec Locals
  execute_operations [] n locals = return locals
  execute_operations (operation ∷ operations) n locals = do
    let rest = execute_operations operations (n + 1)
    set_index n
    locals ← execute_operation p operation locals
    rest locals

  -- An instruction that a forked path was left in, from the saved operation on.
  unfoldable pub continue_executing_instruction : ContinueInsideInstruction → Exec (Unit {0})
  unfolding execute_operations
  continue_executing_instruction c = do
    update_state (λ s. record s { current_instruction = some c.instruction })
    _ ← execute_operations (drop c.index c.instruction.operations) c.index c.local
    return tt

  next_condition : Exec (Option DExpr)
  next_condition x =
      (do
        s ← get_state
        (expr, s') ← call (get_next_instruction_condition_expression s)
        update_state (λ _. s')
        return expr)
        x

  -- Whether the instruction runs: its condition, if it stands in an IT block.
  unfoldable pub should_run : Exec Bool
  unfolding next_condition
  should_run = do
    condition ← next_condition
    elim condition [
      | none ↦ return true
      | some c ↦ do
        constant ← call (get_constant_bool c)
        elim constant [
          | some constant_c ↦ return constant_c
          | none ↦ do
            true_possible ← possible p c
            false_possible ← possible p (not_expr c)
            if true_possible
                then (if false_possible
                    then (do fork (not_expr c); assert_on_path c; return true)
                    else return true)
                else return false
        ]
    ]

  -- The PC moves on before the operations run.
  unfoldable pub execute_instruction : Instruction → Exec (Unit {0})
  unfolding execute_operations should_run
  execute_instruction i = do
    new_pc ← on_machine (get_register p "PC")
    constant ← call (get_constant new_pc)
    last_pc ← call (unwrap constant)
    update_state (λ s. record s { last_pc = last_pc })
    next_pc ← call (Expr.add new_pc (from_u64 (i.instruction_size / 8) (get_ptr_size p)))
    on_machine (set_register p "PC" next_pc)
    update_state reset_has_jumped
    update_state increment_instruction_count
    update_state (λ s. record s { current_instruction = some i })
    run ← should_run
    if run then (do _ ← execute_operations i.operations 0 []; return tt) else return tt

  -- What one round of the loop of `resume_execution` comes to: a result, or another round.
  pub data Round : Type 0 where
    finished : PathResult → Round
    go_on : Round

  -- `unwrap` on what a method of the state returns.
  unwrapped : {A : Type 0} → Exec A → Exec A
  unwrapped m x = elim (m x) [ Outcome.ok r ↦ Outcome.ok r | _ ↦ Outcome.panic ]

  count_last : Arch → Exec (Unit {0})
  count_last a = do
    s ← get_state
    counted ← call (increment_cycle_count a s)
    update_state (λ _. counted)

  run_hook : Arch → PcHook → Exec Round
  unfolding unwrapped count_last
  run_hook a continue = do
    lr ← unwrapped (on_machine (get_register p "LR"))
    on_machine (set_register p "PC" lr)
    return go_on
  run_hook a end_success = do count_last a; return (finished success)
  run_hook a (end_failure reason) = do count_last a; return (finished (failure reason))
  run_hook a suppress = do count_last a; return (finished suppressed)
  run_hook a (intrinsic f) = do
    on_machine f
    update_state (λ s. record s { last_instruction = none })
    return go_on

  run_next : Arch → HookOrInstruction → Exec Round
  unfolding run_hook count_last
  run_next a (pc_hook hook) = run_hook a hook
  run_next a (instruction i) = do
    count_last a
    execute_instruction i
    update_state (set_last_instruction i)
    return go_on

  -- One round of the loop.
  unfoldable pub round : Arch → Exec Round
  unfolding run_next
  round a = do s ← get_state; next ← call (get_next_instruction a p s); run_next a next

  finish_instruction : Option ContinueInsideInstruction → Exec (Unit {0})
  finish_instruction none = return tt
  finish_instruction (some c) = do
    continue_executing_instruction c
    update_state (λ s. record s { continue_in_instruction = none })
    update_state (set_last_instruction c.instruction)

  -- The loop, for so many rounds; no result where they do not suffice.
  unfoldable pub rounds : Arch → ℕ → Exec (Option PathResult)
  rounds a zero = return none
  rounds a (suc fuel) = do
    let rest = rounds a fuel
    r ← round a
    elim r [ finished result ↦ return (some result) | go_on ↦ rest ]

  unfoldable pub resume_execution : Arch → ℕ → Exec (Option PathResult)
  unfolding finish_instruction rounds
  resume_execution a fuel = do
    s ← get_state
    finish_instruction s.continue_in_instruction
    rounds a fuel
