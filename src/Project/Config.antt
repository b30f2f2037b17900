-- ===== src/Project/Config.antt =====
-- symex/src/general_assembly/run_config.rs, and the maps of hooks that
-- symex/src/general_assembly/project.rs makes of a configuration.
pub mod Laws
use Prim.Native.String.{String}
use symex.Common.{ℕ, Bool, true, List, [], ◌∷◌, ◌++◌, Dict, insert, ◌==◌, if◌then◌else◌}
use symex.Smt.Boolector.{Boolector}
use symex.Project.{
  Project, PcHook, WordSize, RegisterReadHook, RegisterWriteHook, MemoryReadHook, MemoryWriteHook,
}
use symex.Project.Segments.{from_single_segment}
use symex.Memory.Array.{Endianness}

pub data MemoryHookAddress : Type 0 where
  single : ℕ → MemoryHookAddress
  range : ℕ → ℕ → MemoryHookAddress

-- A hook on the PC stands at the functions whose name fits a pattern of the `regex` crate, kept here
-- as its text.
pub record RunConfig ⦃b : Boolector⦄ : Type 0 where
  pub show_path_results : Bool
  pub pc_hooks : List (String × PcHook)
  pub register_read_hooks : List (String × RegisterReadHook)
  pub register_write_hooks : List (String × RegisterWriteHook)
  pub memory_write_hooks : List (MemoryHookAddress × MemoryWriteHook)
  pub memory_read_hooks : List (MemoryHookAddress × MemoryReadHook)

-- `HashMap<u64, V>::insert`.
unfoldable pub insert_address {ℓ} : {V : Type ℓ} → ℕ → V → List (ℕ × V) → List (ℕ × V)
insert_address address new [] = (address, new) ∷ []
insert_address address new ((key, old) ∷ dict) =
    if key == address then (address, new) ∷ dict else (key, old) ∷ insert_address address new dict

module _ {ℓ} {H : Type ℓ} where
  -- The loop of `construct_register_read_hooks` and `construct_register_write_hooks`.
  unfoldable pub insert_hooks : Dict H → List (String × H) → Dict H
  insert_hooks ret [] = ret
  insert_hooks ret ((register, hook) ∷ hooks) = insert_hooks (insert register hook ret) hooks

  unfoldable pub construct_register_hooks : List (String × H) → Dict H
  unfolding insert_hooks
  construct_register_hooks hooks = insert_hooks [] hooks

  -- The loop of `construct_memory_write` and `construct_memory_read_hooks`.
  unfoldable pub insert_memory_hooks :
      List (ℕ × H)
      → List ((ℕ × ℕ) × H)
      → List (MemoryHookAddress × H)
      → List (ℕ × H) × List ((ℕ × ℕ) × H)
  unfolding insert_address
  insert_memory_hooks single_hooks range_hooks [] = (single_hooks, range_hooks)
  insert_memory_hooks single_hooks range_hooks ((single addr, hook) ∷ hooks) =
      insert_memory_hooks (insert_address addr hook single_hooks) range_hooks hooks
  insert_memory_hooks single_hooks range_hooks ((range start end, hook) ∷ hooks) =
      insert_memory_hooks single_hooks (range_hooks ++ ((start, end), hook) ∷ []) hooks

  unfoldable pub construct_memory_hooks :
      List (MemoryHookAddress × H) → List (ℕ × H) × List ((ℕ × ℕ) × H)
  unfolding insert_memory_hooks
  construct_memory_hooks hooks = insert_memory_hooks [] [] hooks

module _ ⦃b : Boolector⦄ where
  unfoldable pub new : Bool → RunConfig
  new show_path_results = record {
    show_path_results = show_path_results;
    pc_hooks = [];
    register_read_hooks = [];
    register_write_hooks = [];
    memory_write_hooks = [];
    memory_read_hooks = [];
  }

  unfoldable pub default : RunConfig
  unfolding new
  default = new true

  -- The maps of a configuration, as `from_path` and `Project::add_hooks` set them.
  unfoldable pub set_hooks : RunConfig → Project → Project
  unfolding construct_register_hooks construct_memory_hooks
  set_hooks cfg p =
      let writes = construct_memory_hooks cfg.memory_write_hooks in
      let reads = construct_memory_hooks cfg.memory_read_hooks in
      record p {
        reg_read_hooks = construct_register_hooks cfg.register_read_hooks;
        reg_write_hooks = construct_register_hooks cfg.register_write_hooks;
        single_memory_read_hooks = reads.0;
        range_memory_read_hooks = reads.1;
        single_memory_write_hooks = writes.0;
        range_memory_write_hooks = writes.1;
      }

  unfoldable pub add_pc_hook : ℕ → PcHook → Project → Project
  unfolding insert_address
  add_pc_hook pc hook p = record p { pc_hooks = insert_address pc hook p.pc_hooks }
