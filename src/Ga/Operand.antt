-- ===== src/Ga/Operand.antt =====
-- symex/general_assembly/src/operand.rs.
use Prim.Native.String.{String}
use symex.Common.{ℕ, List}

-- An immediate value, with its width.
pub data DataWord : Type 0 where
  word64 : ℕ → DataWord
  word32 : ℕ → DataWord
  word16 : ℕ → DataWord
  word8 : ℕ → DataWord

-- An immediate in the least significant half of a machine word.
pub data DataHalfWord : Type 0 where
  half_word64 : ℕ → DataHalfWord
  half_word32 : ℕ → DataHalfWord
  half_word16 : ℕ → DataHalfWord

-- `From<DataHalfWord> for DataWord`: the half is widened.
unfoldable pub from_half_word : DataHalfWord → DataWord
from_half_word (half_word64 v) = word64 v
from_half_word (half_word32 v) = word32 v
from_half_word (half_word16 v) = word16 v

-- `From<DataWord> for u64`.
unfoldable pub to_u64 : DataWord → ℕ
to_u64 (word64 v) = v
to_u64 (word32 v) = v
to_u64 (word16 v) = v
to_u64 (word8 v) = v

pub data Operand : Type 0 where
  register : String → Operand
  immediate : DataWord → Operand
  address_in_local : String → ℕ → Operand
  address : DataWord → ℕ → Operand
  address_with_offset : DataWord → String → ℕ → Operand
  local : String → Operand
  flag : String → Operand

-- A word as bytes.
pub data RawDataWord : Type 0 where
  raw64 : List ℕ → RawDataWord
  raw32 : List ℕ → RawDataWord
  raw16 : List ℕ → RawDataWord
  raw8 : List ℕ → RawDataWord
