-- ===== src/State/Registers.antt =====
-- Registers, the next instruction and words of memory: the methods of
-- symex/src/general_assembly/state.rs that go by the project.
pub mod Laws
use Prim.Native.String.{String}
use symex.Common.{
  ℕ, zero, suc, ◌+◌, ◌-◌, ◌%◌, Bool, true, false, List, [], ◌∷◌, ◌++◌, Option, none, some, name_eq,
  lookup, insert, if◌then◌else◌, Outcome, ok, err, panic, ◌>>=◌, map_err,
}
use symex.Errors.{GaError, project, memory, writing_to_static_memory_prohibited}
use symex.Smt.Boolector.{Boolector}
use symex.Smt.Expr.{DExpr, get_constant, unconstrained, from_u64}
use symex.Smt.Solver.{Solver}
use symex.Memory.Array
use symex.Ga.Operand.{DataWord, word64, word32, word16, word8}
use symex.State.{GaState, Machine, Action, Arch, Instruction}
use symex.Project.{
  Project, PcHook, get_register_read_hook, get_register_write_hook, get_word_size, get_pc_hook,
}
use symex.Project.Words.{address_in_range, get_word, get_instruction}

module _ ⦃b : Boolector⦄ where
  abbrev pub with_state : Machine → GaState → Machine
  with_state m s = record m { state = s }

  -- A PC that is not concrete ends in a `todo!`, after its values were listed for the trace.
  unfoldable pub set_pc : String → DExpr → Machine → Outcome GaError Machine
  set_pc register expr m =
      if name_eq register "PC"
      then (do
        constant ← get_constant expr
        elim constant [
          | some v ↦ ok (with_state m (record m.state { pc_register = v }))
          | none ↦ panic
        ])
      else ok m

  unfoldable pub set_register : Project → String → DExpr → Action (Unit {0})
  unfolding set_pc
  set_register p register expr m = do
    m ← set_pc register expr m
    elim (get_register_write_hook p register) [
      | some hook ↦ hook expr m
      | none ↦
          ok (
            tt,
            with_state m (record m.state { registers = insert register expr m.state.registers }),
          )
    ]

  -- A register that is read before it is written gets a fresh value, which is recorded.
  unfoldable pub fresh_register : Project → String → Action DExpr
  fresh_register p register m =
      let value = unconstrained (get_word_size p) register in
      ok (
        value,
        with_state m (record m.state {
          marked_symbolic =
              m.state.marked_symbolic
              ++ record { name = register; value = value; bits = get_word_size p } ∷ [];
          registers = insert register value m.state.registers;
        }),
      )

  unfoldable pub get_register : Project → String → Action DExpr
  unfolding fresh_register
  get_register p register m = elim (get_register_read_hook p register) [
    | some hook ↦ hook m
    | none ↦ elim (lookup register m.state.registers) [
      | some v ↦ ok (v, m)
      | none ↦ fresh_register p register m
    ]
  ]

  pub data HookOrInstruction : Type 0 where
    pc_hook : PcHook → HookOrInstruction
    instruction : Instruction → HookOrInstruction

  -- The lowest bit of the PC is masked off.
  unfoldable pub get_next_instruction : Arch → Project → GaState → Outcome GaError HookOrInstruction
  get_next_instruction a p s =
      let pc = s.pc_register - s.pc_register % 2 in
      elim (get_pc_hook p pc) [
        | some hook ↦ ok (pc_hook hook)
        | none ↦ do i ← map_err project (get_instruction a p pc s); ok (instruction i)
      ]

  -- A word of the image as a constant.
  unfoldable pub dexpr_of_dataword : DataWord → DExpr
  dexpr_of_dataword (word64 v) = from_u64 v 64
  dexpr_of_dataword (word32 v) = from_u64 v 32
  dexpr_of_dataword (word16 v) = from_u64 v 16
  dexpr_of_dataword (word8 v) = from_u64 v 8

  unfoldable pub read_word_no_static : Project → DExpr → GaState → Outcome GaError DExpr
  read_word_no_static p address s = map_err memory (Array.read s.memory address (get_word_size p))

  unfoldable pub write_word_no_static : DExpr → DExpr → GaState → Outcome GaError GaState
  write_word_no_static address value s = do
    m ← map_err memory (Array.write s.memory address value)
    ok (record s { memory = m })

  unfoldable pub read_word_from_memory : Project → DExpr → GaState → Outcome GaError DExpr
  unfolding dexpr_of_dataword read_word_no_static
  read_word_from_memory p address s = do
    constant ← get_constant address
    elim constant [
      | some address_const ↦ do
        static ← address_in_range p address_const
        if static
            then (map_err project (get_word p address_const) >>= λ w. ok (dexpr_of_dataword w))
            else read_word_no_static p address s
      | none ↦ read_word_no_static p address s
    ]

  unfoldable pub write_word_to_memory : Project → DExpr → DExpr → GaState → Outcome GaError GaState
  unfolding write_word_no_static
  write_word_to_memory p address value s = do
    constant ← get_constant address
    elim constant [
      | some address_const ↦ do
        static ← address_in_range p address_const
        if static
            then err writing_to_static_memory_prohibited
            else write_word_no_static address value s
      | none ↦ write_word_no_static address value s
    ]
