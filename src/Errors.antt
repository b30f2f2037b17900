-- ===== src/Errors.antt =====
-- The error types: symex/src/smt/mod.rs, symex/src/memory/mod.rs,
-- symex/src/general_assembly/project.rs, arch.rs and mod.rs.
use Prim.Native.String.{String}
use symex.Common.{ℕ}

pub data SolverError : Type 0 where
  unsat unknown too_many_solutions : SolverError

pub data MemoryError : Type 0 where
  zero_sized_allocation : MemoryError
  bits_not_multiple_of_bytes : ℕ → MemoryError
  not_power_of_two : ℕ → MemoryError
  address_space_exhausted : ℕ → MemoryError
  null_pointer : MemoryError
  out_of_bounds : MemoryError
  solver : SolverError → MemoryError

-- The errors of the architectures, whose translators are parameters of the model.
pub data ArchError : Type 0 where
  unsupported_architecture incorrect_file_type malformed_section parsing_error : ArchError
  missing_section implementor_string_error : String → ArchError

pub data ProjectError : Type 0 where
  unable_to_parse_elf : String → ProjectError
  program_memory_error : MemoryError → ProjectError
  unavailable_operation : ProjectError
  arch : ArchError → ProjectError

pub data GaError : Type 0 where
  project : ProjectError → GaError
  memory : MemoryError → GaError
  entry_function_not_found : String → GaError
  writing_to_static_memory_prohibited : GaError
  solver : SolverError → GaError
  arch : ArchError → GaError
