-- ===== src/Memory/Array.antt =====
-- symex/src/memory/array_memory.rs: byte-addressed memory over a solver array.
pub mod Bytes
pub mod Loops
pub mod Frame
pub mod RoundTrip
use symex.Common.{
  ℕ, zero, suc, ◌+◌, ◌-◌, ◌*◌, ◌/◌, ◌%◌, Bool, List, [], ◌∷◌, ◌++◌, reverse, Option, none, some,
  ltb, ◌==◌, if◌then◌else◌, Outcome, ok, panic, ◌>>=◌, ◌>>◌, assert, unwrap,
}
use symex.Errors.{MemoryError}
use symex.Smt.Boolector.{Boolector}
use symex.Smt.Expr.{DExpr, len, add, slice, zero_ext, concat, from_u64}

pub data Endianness : Type 0 where
  little big : Endianness

-- `BITS_IN_BYTE`.
abbrev pub bits_in_byte : ℕ
bits_in_byte = 8

pub record ArrayMemory ⦃b : Boolector⦄ : Type 0 where
  pub ptr_size : ℕ
  pub memory : b.Arr
  pub endianness : Endianness

module _ ⦃b : Boolector⦄ where
  unfoldable pub new : ℕ → Endianness → ArrayMemory
  new ptr_size endianness = record {
    ptr_size = ptr_size;
    memory = b.array ptr_size bits_in_byte "memory";
    endianness = endianness;
  }

  unfoldable pub read_u8 : ArrayMemory → DExpr → DExpr
  read_u8 m addr = b.read m.memory addr

  unfoldable pub write_u8 : ArrayMemory → DExpr → DExpr → ArrayMemory
  write_u8 m addr val = record m { memory = b.write m.memory addr val }

  -- `for byte in 0..num_bytes`, with `left` rounds left at `byte`.
  unfoldable pub read_bytes : ArrayMemory → DExpr → ℕ → ℕ → ℕ → Outcome MemoryError (List DExpr)
  read_bytes m addr ptr_size zero byte = ok []
  read_bytes m addr ptr_size (suc left) byte = do
    read_addr ← add addr (from_u64 byte ptr_size)
    bytes ← read_bytes m addr ptr_size left (byte + 1)
    ok (read_u8 m read_addr ∷ bytes)

  -- `reduce(|acc, v| v.concat(&acc))`.
  unfoldable pub concat_onto : DExpr → List DExpr → DExpr
  concat_onto acc [] = acc
  concat_onto acc (v ∷ bytes) = concat_onto (concat v acc) bytes

  unfoldable pub reduce_concat : List DExpr → Option DExpr
  unfolding concat_onto
  reduce_concat [] = none
  reduce_concat (v ∷ bytes) = some (concat_onto v bytes)

  unfoldable pub in_read_order : Endianness → List DExpr → List DExpr
  in_read_order little bytes = bytes
  in_read_order big bytes = reverse bytes

  unfoldable pub internal_read : ArrayMemory → DExpr → ℕ → ℕ → Outcome MemoryError DExpr
  unfolding in_read_order
  internal_read m addr bits ptr_size =
      if ltb bits bits_in_byte
      then (if bits == 0 then panic else slice (read_u8 m addr) (bits - 1) 0)
      else (do
        assert (bits % bits_in_byte == 0)
        bytes ← read_bytes m addr ptr_size (bits / bits_in_byte) 0
        unwrap (reduce_concat (in_read_order m.endianness bytes)))

  unfoldable pub read : ArrayMemory → DExpr → ℕ → Outcome MemoryError DExpr
  read m addr bits = do assert (len addr == m.ptr_size); internal_read m addr bits m.ptr_size

  unfoldable pub offset_of : Endianness → ℕ → ℕ → ℕ
  offset_of little num_bytes n = n
  offset_of big num_bytes n = num_bytes - 1 - n

  -- `for n in 0..num_bytes`, with `left` rounds left at `n`.
  unfoldable pub write_bytes :
      ArrayMemory → DExpr → DExpr → ℕ → ℕ → ℕ → ℕ → Outcome MemoryError ArrayMemory
  unfolding offset_of
  write_bytes m addr value ptr_size num_bytes zero n = ok m
  write_bytes m addr value ptr_size num_bytes (suc left) n = do
    byte ← slice value (n * bits_in_byte) ((n + 1) * bits_in_byte - 1)
    addr' ← add addr (from_u64 (offset_of m.endianness num_bytes n) ptr_size)
    write_bytes (write_u8 m addr' byte) addr value ptr_size num_bytes left (n + 1)

  unfoldable pub internal_write : ArrayMemory → DExpr → DExpr → ℕ → Outcome MemoryError ArrayMemory
  internal_write m addr value ptr_size = do
    value ← if ltb (len value) bits_in_byte then zero_ext value bits_in_byte else ok value
    assert (len value % bits_in_byte == 0)
    let num_bytes = len value / bits_in_byte
    write_bytes m addr value ptr_size num_bytes num_bytes 0

  unfoldable pub write : ArrayMemory → DExpr → DExpr → Outcome MemoryError ArrayMemory
  write m addr value = do assert (len addr == m.ptr_size); internal_write m addr value m.ptr_size
