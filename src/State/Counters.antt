-- ===== src/State/Counters.antt =====
-- The counters of symex/src/general_assembly/state.rs.
use symex.Common.{
  ℕ, ◌+◌, Bool, true, false, not, Option, none, some, if◌then◌else◌, List, [], ◌∷◌, Outcome, ok,
  ◌>>=◌,
}
use symex.Errors.{GaError}
use symex.Smt.Boolector.{Boolector}
use symex.Ga.Operation.{Condition}
use symex.State.{GaState, Instruction, value, function, Arch}

module _ ⦃b : Boolector⦄ where
  unfoldable pub reset_has_jumped : GaState → GaState
  reset_has_jumped s = record s { has_jumped = false }

  unfoldable pub set_has_jumped : GaState → GaState
  set_has_jumped s = record s { has_jumped = true }

  unfoldable pub increment_instruction_count : GaState → GaState
  increment_instruction_count s = record s { instruction_counter = s.instruction_counter + 1 }

  unfoldable pub set_last_instruction : Instruction → GaState → GaState
  set_last_instruction i s = record s { last_instruction = some i }

  is_empty : List Condition → Bool
  is_empty [] = true
  is_empty (c ∷ cs) = false

  unfoldable pub get_in_conditional_block : GaState → Bool
  unfolding is_empty
  get_in_conditional_block s = not (is_empty s.instruction_conditions)

  -- The cycles of the last instruction, read in the present state.
  unfoldable pub last_cycles : Arch → GaState → Option Instruction → Outcome GaError ℕ
  last_cycles arch s none = ok 0
  last_cycles arch s (some i) = elim i.max_cycle [ value v ↦ ok v | function f ↦ arch.cycles f s ]

  unfoldable pub increment_cycle_count : Arch → GaState → Outcome GaError GaState
  unfolding last_cycles
  increment_cycle_count arch s = if not s.count_cycles then ok s else (do
    cycles ← last_cycles arch s s.last_instruction
    ok (record s { cycle_count = s.cycle_count + cycles }))
