-- ===== src/State.antt =====
-- symex/src/general_assembly/state.rs and instruction.rs: the state of one path. The fields that
-- never change (`project`, `ctx`, `architecture`) are arguments instead, and the solver, which all
-- states share, is kept beside the state.
pub mod Flags
pub mod Counters
pub mod Registers
use Prim.Native.String.{String}
use symex.Common.{ℕ, Bool, List, Option, Dict, Outcome}
use symex.Errors.{GaError, ArchError}
use symex.Smt.Boolector.{Boolector}
use symex.Smt.Expr.{DExpr}
use symex.Smt.Solver.{Solver}
use symex.Memory.Array.{ArrayMemory}
use symex.Ga.Operation.{Operation, Condition}

-- A cycle count may be a function of the state: it is named by a number, which `Arch` reads.
pub data CycleCount : Type 0 where
  value : ℕ → CycleCount
  function : ℕ → CycleCount

pub record Instruction : Type 0 where
  pub instruction_size : ℕ
  pub operations : List Operation
  pub max_cycle : CycleCount
  pub memory_access : Bool

module _ ⦃b : Boolector⦄ where
  pub record ContinueInsideInstruction : Type 0 where
    pub instruction : Instruction
    pub index : ℕ
    pub local : Dict DExpr

  -- `Variable`, of an integer type with `bits` bits.
  pub record Variable : Type 0 where
    pub name : String
    pub value : DExpr
    pub bits : ℕ

  pub record GaState : Type 0 where
    pub marked_symbolic : List Variable
    pub memory : ArrayMemory
    pub count_cycles : Bool
    pub cycle_count : ℕ
    pub cycle_laps : List (ℕ × String)
    pub last_instruction : Option Instruction
    pub last_pc : ℕ
    pub registers : Dict DExpr
    pub continue_in_instruction : Option ContinueInsideInstruction
    pub current_instruction : Option Instruction
    pub inital_sp : ℕ
    pub pc_register : ℕ
    pub flags : Dict DExpr
    pub instruction_counter : ℕ
    pub has_jumped : Bool
    pub instruction_conditions : List Condition

  -- A state with the solver that it shares.
  pub record Machine : Type 0 where
    pub state : GaState
    pub solver : Solver

  -- Code that works on a state.
  abbrev pub Action {ℓ} : Type ℓ → Type ℓ
  Action A = Machine → Outcome GaError (A × Machine)

  -- The trait `Arch`: the translator from machine code and the cycle counts of its instructions.
  pub record Arch : Type 0 where
    pub translate : List ℕ → GaState → Outcome ArchError Instruction
    pub cycles : ℕ → GaState → Outcome GaError ℕ
