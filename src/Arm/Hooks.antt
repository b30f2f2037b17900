-- ===== src/Arm/Hooks.antt =====
-- The hooks that `add_hooks` of symex/src/general_assembly/arch/arm/v6.rs and v7.rs put into a
-- configuration. A hook works on the project of its state (`state.project`), which is an argument.
pub mod Laws
pub mod Symbolic
use Prim.Native.String.{String, ◌++◌ as push_str}
use symex.Common.{
  ℕ, zero, suc, ◌+◌, ◌*◌, ◌/◌, ◌%◌, ◌^◌, Bool, List, [], ◌∷◌, ◌++◌, length, Option, none, some, ltb,
  if◌then◌else◌, Outcome, ok, err, panic, ◌>>=◌, map_err, unwrap, to_string,
}
use symex.Errors.{GaError, memory}
use symex.Smt.Boolector.{Boolector}
use symex.Smt.Expr.{DExpr, add, and, from_u64, get_constant, simplify, unconstrained}
use symex.Memory.Array
use symex.State.{GaState, Machine, Action}
use symex.State.Registers.{get_register, set_register, with_state}
use symex.Project.{
  Project, intrinsic, get_word_size, RegisterReadHook, RegisterWriteHook, MemoryReadHook,
}
use symex.Project.Config.{RunConfig, single, set_hooks, default}

module _ ⦃b : Boolector⦄ where
  -- A number of bytes as bits, on `u64`.
  unfoldable pub bits_of_size : ℕ → Outcome GaError ℕ
  bits_of_size size = if ltb (size * 8) (2 ^ 64) then ok (size * 8) else panic

  module _ (p : Project) where
    -- The intrinsic for `symbolic_size`: the memory at R0, of R1 bytes, becomes unconstrained.
    unfoldable pub symbolic_sized : Action (Unit {0})
    unfolding bits_of_size
    symbolic_sized m = do
      (value_ptr, m) ← get_register p "R0" m
      (size, m) ← get_register p "R1" m
      constant ← get_constant size
      size ← unwrap constant
      size ← bits_of_size size
      let name = push_str "any" (to_string (length m.state.marked_symbolic))
      let symb_value = unconstrained (size % 2 ^ 32) name
      let m = with_state m (record m.state {
        marked_symbolic =
            m.state.marked_symbolic ++ record { name = name; value = symb_value; bits = size } ∷ [];
      })
      written ← map_err memory (Array.write m.state.memory value_ptr symb_value)
      let m = with_state m (record m.state { memory = written })
      (lr, m) ← get_register p "LR" m
      set_register p "PC" lr m

    -- `unwrap` on a result.
    unfoldable pub unwrapped {ℓ} : {A : Type ℓ} → Outcome GaError A → Outcome GaError A
    unwrapped (ok a) = ok a
    unwrapped (err e) = panic
    unwrapped panic = panic

    -- "PC+" of Armv6-M.
    unfoldable pub read_pc_v6 : RegisterReadHook
    unfolding unwrapped
    read_pc_v6 m = do
      let two = from_u64 1 32
      (pc, m) ← unwrapped (get_register p "PC" m)
      sum ← add pc two
      ok (sum, m)

    unfoldable pub write_pc : RegisterWriteHook
    write_pc value m = set_register p "PC" value m

    -- "PC+" of Armv7-EM.
    unfoldable pub read_pc_v7 : RegisterReadHook
    read_pc_v7 m = ok (simplify (from_u64 (m.state.last_pc + 4) (get_word_size p)), m)

    -- "SP&" of Armv7-EM: the mask is `!0b11`.
    unfoldable pub read_sp : RegisterReadHook
    unfolding unwrapped
    read_sp m = do
      let two = from_u64 0xfffffffc 32
      (sp, m) ← unwrapped (get_register p "SP" m)
      ok (and (simplify sp) two, m)

    unfoldable pub write_sp : RegisterWriteHook
    unfolding unwrapped
    write_sp value m = do
      (_, m) ← set_register p "SP" (and value (from_u64 0xfffffffc 32)) m
      (sp, m) ← unwrapped (get_register p "SP" m)
      set_register p "SP" (simplify sp) m

    unfoldable pub read_reset_done : MemoryReadHook
    read_reset_done addr m = ok (from_u64 0xffffffff 32, m)

    unfoldable pub add_hooks_v6 : RunConfig → RunConfig
    unfolding symbolic_sized read_pc_v6 write_pc read_reset_done
    add_hooks_v6 cfg = record cfg {
      pc_hooks = cfg.pc_hooks ++ ("^symbolic_size<.+>$", intrinsic symbolic_sized) ∷ [];
      register_read_hooks = cfg.register_read_hooks ++ ("PC+", read_pc_v6) ∷ [];
      register_write_hooks = cfg.register_write_hooks ++ ("PC+", write_pc) ∷ [];
      memory_read_hooks = cfg.memory_read_hooks ++ (single 0x4000c008, read_reset_done) ∷ [];
    }

    unfoldable pub add_hooks_v7 : RunConfig → RunConfig
    unfolding symbolic_sized read_pc_v7 write_pc read_sp write_sp read_reset_done
    add_hooks_v7 cfg = record cfg {
      pc_hooks = cfg.pc_hooks ++ ("^symbolic_size<.+>$", intrinsic symbolic_sized) ∷ [];
      register_read_hooks = cfg.register_read_hooks ++ ("PC+", read_pc_v7) ∷ ("SP&", read_sp) ∷ [];
      register_write_hooks = cfg.register_write_hooks ++ ("PC+", write_pc) ∷ ("SP&", write_sp) ∷ [];
      memory_read_hooks = cfg.memory_read_hooks ++ (single 0x4000c008, read_reset_done) ∷ [];
    }
