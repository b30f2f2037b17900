-- ===== src/Tests/Jumps.antt =====
-- A jump on the carry, to an address, and a symbolic address of two values.
use symex.Common.{ℕ, false, [], ◌∷◌, some}
use symex.Smt.Sample.{two_worlds, Term, term}
use symex.Ga.Operation.{Operation}
use symex.State.{Instruction, CycleCount}
use symex.Executor.Monad.{GaExecutor}
use symex.Tests.Samples.{empty_solver, state}

abbrev word : ℕ → Term
word v = term 32 (λ e. v)

abbrev jump : Instruction
jump = record {
  instruction_size = 16;
  operations = Operation.nop ∷ [];
  max_cycle = CycleCount.value 1;
  memory_access = false;
}

abbrev jumping : GaExecutor
jumping = record {
  paths = [];
  state = record state { registers = ("PC", word 100) ∷ []; current_instruction = some jump };
  solver = empty_solver;
  current_operation_index = 0;
}
