-- ===== src/Project.antt =====
-- symex/src/general_assembly/project.rs and project/segments.rs: the program image and the hooks.
pub mod Segments
pub mod Words
pub mod Config
use Prim.Native.String.{String}
use symex.Common.{
  ℕ, Bool, true, false, List, [], ◌∷◌, ◌&&◌, Option, none, some, Dict, lookup, lookup_address, ltb,
  leb, if◌then◌else◌, Outcome,
}
use symex.Errors.{GaError}
use symex.Smt.Boolector.{Boolector}
use symex.Smt.Expr.{DExpr}
use symex.Memory.Array.{Endianness}
use symex.State.{GaState, Machine, Action}
use symex.Project.Segments.{Segment}

pub data WordSize : Type 0 where
  bit64 bit32 bit16 bit8 : WordSize

module _ ⦃b : Boolector⦄ where
  -- What happens instead of an instruction at an address.
  pub data PcHook : Type 0 where
    continue : PcHook
    end_success : PcHook
    end_failure : String → PcHook
    intrinsic : Action (Unit {0}) → PcHook
    suppress : PcHook

  abbrev pub RegisterReadHook : Type 0
  RegisterReadHook = Action DExpr

  abbrev pub RegisterWriteHook : Type 0
  RegisterWriteHook = DExpr → Action (Unit {0})

  abbrev pub MemoryReadHook : Type 0
  MemoryReadHook = ℕ → Action DExpr

  abbrev pub MemoryWriteHook : Type 0
  MemoryWriteHook = ℕ → DExpr → ℕ → Action (Unit {0})

  pub record Project : Type 0 where
    pub segments : List Segment
    pub word_size : WordSize
    pub endianness : Endianness
    pub symtab : Dict ℕ
    pub pc_hooks : List (ℕ × PcHook)
    pub reg_read_hooks : Dict RegisterReadHook
    pub reg_write_hooks : Dict RegisterWriteHook
    pub single_memory_read_hooks : List (ℕ × MemoryReadHook)
    pub range_memory_read_hooks : List ((ℕ × ℕ) × MemoryReadHook)
    pub single_memory_write_hooks : List (ℕ × MemoryWriteHook)
    pub range_memory_write_hooks : List ((ℕ × ℕ) × MemoryWriteHook)

  unfoldable pub get_pc_hook : Project → ℕ → Option PcHook
  get_pc_hook p pc = lookup_address pc p.pc_hooks

  unfoldable pub get_register_read_hook : Project → String → Option RegisterReadHook
  get_register_read_hook p register = lookup register p.reg_read_hooks

  unfoldable pub get_register_write_hook : Project → String → Option RegisterWriteHook
  get_register_write_hook p register = lookup register p.reg_write_hooks

  unfoldable pub get_ptr_size : Project → ℕ
  get_ptr_size p = elim p.word_size [ bit64 ↦ 64 | bit32 ↦ 32 | bit16 ↦ 16 | bit8 ↦ 8 ]

  -- The same for now, as the source says.
  unfoldable pub get_word_size : Project → ℕ
  unfolding get_ptr_size
  get_word_size p = get_ptr_size p

  unfoldable pub get_symbol_address : Project → String → Option ℕ
  get_symbol_address p symbol = lookup symbol p.symtab

-- The first range that holds the address.
unfoldable pub first_range {ℓ} : {H : Type ℓ} → ℕ → List ((ℕ × ℕ) × H) → Option H
first_range address [] = none
first_range address (((start, end), hook) ∷ hooks) =
    if leb start address && ltb address end then some hook else first_range address hooks

unfoldable pub hook_at {ℓ} : {H : Type ℓ} → ℕ → List (ℕ × H) → List ((ℕ × ℕ) × H) → Option H
unfolding first_range
hook_at address single ranges = elim (lookup_address address single) [
  | some hook ↦ some hook
  | none ↦ first_range address ranges
]

module _ ⦃b : Boolector⦄ where
  unfoldable pub get_memory_read_hook : Project → ℕ → Option MemoryReadHook
  unfolding hook_at
  get_memory_read_hook p address =
      hook_at address p.single_memory_read_hooks p.range_memory_read_hooks

  unfoldable pub get_memory_write_hook : Project → ℕ → Option MemoryWriteHook
  unfolding hook_at
  get_memory_write_hook p address =
      hook_at address p.single_memory_write_hooks p.range_memory_write_hooks
