-- ===== src/Project/Words.antt =====
-- Words of the program image: `get_byte`, `get_word`, `get_half_word`, `get_raw_word`,
-- `address_in_range` and `get_instruction` of symex/src/general_assembly/project.rs.
use symex.Common.{
  ℕ, ◌+◌, ◌*◌, Bool, true, false, List, [], ◌∷◌, Option, none, some, Outcome, ok, err, panic, ◌>>=◌,
  map_err,
}
use symex.Errors.{out_of_bounds, ProjectError, program_memory_error, unavailable_operation, arch}
use symex.Smt.Boolector.{Boolector}
use symex.Ga.Operand.{
  DataWord, word64, word32, word16, word8, DataHalfWord, half_word64, half_word32, half_word16,
  RawDataWord, raw64, raw32, raw16, raw8,
}
use symex.Memory.Array.{Endianness, little, big}
use symex.State.{GaState, Instruction, Arch}
use symex.Project.{Project, WordSize, bit64, bit32, bit16, bit8}
use symex.Project.Segments.{read_raw_bytes}

-- `from_le_bytes`.
abbrev pub from_le_bytes : List ℕ → ℕ
from_le_bytes [] = 0
from_le_bytes (v ∷ bytes) = v + 256 * from_le_bytes bytes

-- `from_be_bytes`: the highest byte first.
abbrev pub be_from : ℕ → List ℕ → ℕ
be_from acc [] = acc
be_from acc (v ∷ bytes) = be_from (acc * 256 + v) bytes

unfoldable pub from_bytes : Endianness → List ℕ → ℕ
from_bytes little bytes = from_le_bytes bytes
from_bytes big bytes = be_from 0 bytes

-- `Err(MemoryError::OutOfBounds.into())` where there are no bytes.
abbrev pub or_out_of_bounds {ℓ} : {A : Type ℓ} → Option A → Outcome ProjectError A
or_out_of_bounds (some v) = ok v
or_out_of_bounds none = err (program_memory_error out_of_bounds)

module _ ⦃b : Boolector⦄ where
  unfoldable pub address_in_range : {E : Type 0} → Project → ℕ → Outcome E Bool
  address_in_range p address = do
    bytes ← read_raw_bytes p.segments address 1
    ok (elim bytes [ some _ ↦ true | none ↦ false ])

  -- The bytes at an address, or the error.
  unfoldable pub raw_bytes : Project → ℕ → ℕ → Outcome ProjectError (List ℕ)
  raw_bytes p address bytes = do
    found ← read_raw_bytes p.segments address bytes
    or_out_of_bounds found

  -- `v[0]`.
  first_byte : List ℕ → Outcome ProjectError ℕ
  first_byte [] = panic
  first_byte (v ∷ bytes) = ok v

  unfoldable pub get_byte : Project → ℕ → Outcome ProjectError ℕ
  unfolding first_byte raw_bytes
  get_byte p address = do bytes ← raw_bytes p address 1; first_byte bytes

  unfoldable pub get_word_internal : Project → ℕ → WordSize → Outcome ProjectError DataWord
  unfolding raw_bytes from_bytes get_byte
  get_word_internal p address bit64 = do
    v ← raw_bytes p address 8
    ok (word64 (from_bytes p.endianness v))
  get_word_internal p address bit32 = do
    v ← raw_bytes p address 4
    ok (word32 (from_bytes p.endianness v))
  get_word_internal p address bit16 = do
    v ← raw_bytes p address 2
    ok (word16 (from_bytes p.endianness v))
  get_word_internal p address bit8 = do v ← get_byte p address; ok (word8 v)

  unfoldable pub get_word : Project → ℕ → Outcome ProjectError DataWord
  get_word p address = get_word_internal p address p.word_size

  half_word64_of : DataWord → Outcome ProjectError DataHalfWord
  half_word64_of (word32 d) = ok (half_word64 d)
  half_word64_of _ = panic

  half_word32_of : DataWord → Outcome ProjectError DataHalfWord
  half_word32_of (word16 d) = ok (half_word32 d)
  half_word32_of _ = panic

  half_word16_of : DataWord → Outcome ProjectError DataHalfWord
  half_word16_of (word8 d) = ok (half_word16 d)
  half_word16_of _ = panic

  half_word : Project → ℕ → WordSize → Outcome ProjectError DataHalfWord
  unfolding half_word64_of half_word32_of half_word16_of
  half_word p address bit64 = get_word_internal p address bit32 >>= half_word64_of
  half_word p address bit32 = get_word_internal p address bit16 >>= half_word32_of
  half_word p address bit16 = get_word_internal p address bit8 >>= half_word16_of
  half_word p address bit8 = err unavailable_operation

  unfoldable pub get_half_word : Project → ℕ → Outcome ProjectError DataHalfWord
  unfolding half_word
  get_half_word p address = half_word p address p.word_size

  raw_word : Project → ℕ → WordSize → Outcome ProjectError RawDataWord
  unfolding raw_bytes get_byte
  raw_word p address bit64 = raw_bytes p address 8 >>= λ v. ok (raw64 v)
  raw_word p address bit32 = raw_bytes p address 4 >>= λ v. ok (raw32 v)
  raw_word p address bit16 = raw_bytes p address 2 >>= λ v. ok (raw16 v)
  raw_word p address bit8 = get_byte p address >>= λ v. ok (raw8 (v ∷ []))

  unfoldable pub get_raw_word : Project → ℕ → Outcome ProjectError RawDataWord
  unfolding raw_word
  get_raw_word p address = raw_word p address p.word_size

  translate_raw : Arch → GaState → RawDataWord → Outcome ProjectError Instruction
  translate_raw a s (raw64 d) = map_err arch (a.translate d s)
  translate_raw a s (raw32 d) = map_err arch (a.translate d s)
  translate_raw a s (raw16 d) = map_err arch (a.translate d s)
  translate_raw a s (raw8 d) = panic

  -- `get_instruction`, with `instruction_from_array_ptr` of the project and of the state.
  unfoldable pub get_instruction : Arch → Project → ℕ → GaState → Outcome ProjectError Instruction
  unfolding translate_raw
  get_instruction a p address s = get_raw_word p address >>= translate_raw a s
