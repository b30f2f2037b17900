-- ===== src/Executor/Operands.antt =====
-- Operands of symex/src/general_assembly/executor.rs: memory, the resolving of symbolic addresses,
-- reading and writing what an operand stands for.
use Prim.Native.String.{String}
use symex.Common.{
  ℕ, ◌/◌, List, [], ◌∷◌, length, Option, none, some, Dict, lookup, insert, ltb, ◌==◌, if◌then◌else◌,
  Outcome, ok, err, panic, unwrap, map_err,
}
use symex.Errors.{
  GaError, project, memory, SolverError, too_many_solutions, writing_to_static_memory_prohibited,
}
use symex.Smt.Boolector.{Boolector}
use symex.Smt.Expr
use symex.Smt.Expr.{DExpr, get_constant, from_u64, resize_unsigned, simplify}
use symex.Smt.Solver.{exactly, at_least, get_values}
use symex.Memory.Array
use symex.Ga.Operand.{
  Operand, register, immediate, address_in_local, address_with_offset, local, flag, from_half_word,
}
use symex.State.{Instruction}
use symex.State.Flags.{get_flag, set_flag}
use symex.State.Registers.{get_register, set_register, dexpr_of_dataword}
use symex.Project.{
  Project, get_memory_read_hook, get_memory_write_hook, get_word_size, get_ptr_size,
}
use symex.Project.Words.{address_in_range, get_word, get_half_word, get_byte}
use symex.Executor.Monad.{
  Exec, ◌>>=◌, ◌>>◌, return, call, on_machine, get_state, update_state, assert_on_path, fork,
}

module _ ⦃b : Boolector⦄ where
  abbrev pub Locals : Type 0
  Locals = Dict DExpr

  abbrev pub panics {ℓ} : {A : Type ℓ} → Exec A
  panics x = panic

  -- The memory of the image, by the width that is asked for.
  unfoldable pub get_static : Project → ℕ → ℕ → Exec DExpr
  get_static p address bits =
      if bits == get_word_size p
      then (do w ← call (map_err project (get_word p address)); return (dexpr_of_dataword w))
      else if bits == get_word_size p / 2
      then (do
        w ← call (map_err project (get_half_word p address))
        return (dexpr_of_dataword (from_half_word w)))
      else if bits == 8
      then (do v ← call (map_err project (get_byte p address)); return (from_u64 v 8))
      else panics

  unfoldable pub get_memory : Project → ℕ → ℕ → Exec DExpr
  unfolding get_static
  get_memory p address bits = elim (get_memory_read_hook p address) [
    | some hook ↦ on_machine (hook address)
    | none ↦ do
      static ← call (address_in_range p address)
      if static then get_static p address bits else (do
        s ← get_state
        call (map_err memory (Array.read s.memory (from_u64 address (get_ptr_size p)) bits)))
  ]

  unfoldable pub set_memory : Project → DExpr → ℕ → ℕ → Exec (Unit {0})
  set_memory p value address bits = elim (get_memory_write_hook p address) [
    | some hook ↦ on_machine (hook address value bits)
    | none ↦ do
      static ← call (address_in_range p address)
      if static then call (err writing_to_static_memory_prohibited) else (do
        s ← get_state
        resized ← call (resize_unsigned value bits)
        m ← call (
            map_err memory
              (Array.write s.memory (from_u64 address (get_ptr_size p)) (simplify resized)))
        update_state (λ s. record s { memory = m }))
  ]

  -- `current_instruction.as_ref().unwrap().operations.len() - 1`, which panics at no operations.
  last_operation : Option Instruction → Outcome GaError ℕ
  last_operation none = panic
  last_operation (some i) = elim i.operations [
    | [] ↦ panic
    | o ∷ operations ↦ ok (length operations)
  ]

  -- The continuation that a forked path resumes with, if operations are left.
  unfoldable pub save_continuation : ℕ → Locals → Exec (Unit {0})
  unfolding last_operation
  save_continuation index locals x =
      (do
        s ← get_state
        last ← call (last_operation s.current_instruction)
        i ← call (unwrap s.current_instruction)
        if ltb x.current_operation_index last
            then update_state (λ s. record s {
              continue_in_instruction =
                  some (record { instruction = i; index = index; local = locals });
            })
            else return tt)
        x

  -- `for addr in &addresses[1..]`.
  unfoldable pub fork_addresses : DExpr → Locals → List DExpr → Exec (Unit {0})
  unfolding save_continuation
  fork_addresses address locals [] = return tt
  fork_addresses address locals (addr ∷ addresses) = do
    let rest = fork_addresses address locals addresses
    λ x. save_continuation x.current_operation_index locals x
    constraint ← call (Expr.eq address addr)
    fork constraint
    rest

  constant_of : DExpr → Exec ℕ
  constant_of x = do c ← call (get_constant x); call (unwrap c)

  -- What follows the search for the possible addresses.
  unfoldable pub choose_address : DExpr → Locals → List DExpr → Exec ℕ
  unfolding fork_addresses constant_of
  choose_address address locals [] = call (err (GaError.solver SolverError.unsat))
  choose_address address locals (addr ∷ []) = constant_of addr
  choose_address address locals (addr ∷ addr' ∷ addresses) = do
    fork_addresses address locals (addr' ∷ addresses)
    constraint ← call (Expr.eq address addr)
    assert_on_path constraint
    constant_of addr

  possible_addresses : DExpr → Exec (List DExpr)
  possible_addresses address x = elim (get_values x.solver address 255) [
    | ok (exactly addresses, s) ↦ ok (addresses, record x { solver = s })
    | ok (at_least _, s) ↦ err (GaError.solver too_many_solutions)
    | err e ↦ err (GaError.solver e)
    | panic ↦ panic
  ]

  unfoldable pub resolve_address : DExpr → Locals → Exec ℕ
  unfolding choose_address possible_addresses
  resolve_address address locals = do
    constant ← call (get_constant address)
    elim constant [
      | some addr ↦ return addr
      | none ↦ do addresses ← possible_addresses address; choose_address address locals addresses
    ]

  unfoldable pub get_local : String → Locals → Exec DExpr
  get_local k locals = call (unwrap (lookup k locals))

  unfoldable pub get_operand_value : Project → Operand → Locals → Exec DExpr
  unfolding get_local
  get_operand_value p (register name) locals = on_machine (get_register p name)
  get_operand_value p (immediate v) locals = return (dexpr_of_dataword v)
  get_operand_value p (Operand.address a width) locals = do
    addr ← resolve_address (dexpr_of_dataword a) locals
    get_memory p addr width
  get_operand_value p (address_with_offset a offset_reg width) locals = panics
  get_operand_value p (local k) locals = get_local k locals
  get_operand_value p (address_in_local k width) locals = do
    a ← get_local k locals
    addr ← resolve_address a locals
    get_memory p addr width
  get_operand_value p (flag f) locals = do
    s ← get_state
    value ← call (get_flag f s)
    call (resize_unsigned value (get_word_size p))

  -- The locals are returned, with the new value of a local.
  unfoldable pub set_operand_value : Project → Operand → DExpr → Locals → Exec Locals
  unfolding get_local
  set_operand_value p (register v) value locals = do
    on_machine (set_register p v value)
    return locals
  set_operand_value p (immediate v) value locals = panics
  set_operand_value p (address_in_local k width) value locals = do
    a ← get_local k locals
    addr ← resolve_address a locals
    set_memory p (simplify value) addr width
    return locals
  set_operand_value p (Operand.address a width) value locals = do
    addr ← resolve_address (dexpr_of_dataword a) locals
    set_memory p (simplify value) addr width
    return locals
  set_operand_value p (address_with_offset a offset_reg width) value locals = panics
  set_operand_value p (local k) value locals = return (insert k value locals)
  set_operand_value p (flag f) value locals = do
    bit ← call (resize_unsigned value 1)
    update_state (set_flag f (simplify bit))
    return locals
