-- ===== src/Memory/Allocator.antt =====
-- symex/src/memory/linear_allocator.rs: the bump allocator. `+` on `u64` panics where it overflows,
-- as in a build with overflow checks.
pub mod Laws
use symex.Common.{
  ℕ, zero, suc, ◌+◌, ◌-◌, ◌/◌, ◌%◌, ◌^◌, Bool, true, false, ◌||◌, bit_and, ltb, ◌==◌, if◌then◌else◌,
  Outcome, ok, err, panic, ◌>>=◌,
}
use symex.Errors.{MemoryError, zero_sized_allocation, not_power_of_two, address_space_exhausted}
use symex.Memory.Array.{bits_in_byte}

pub record LinearAllocator : Type 0 where
  pub cursor : ℕ

-- `LinearAllocator::ALLOC_START`.
abbrev pub alloc_start : ℕ
alloc_start = 268435456

unfoldable pub new : LinearAllocator
new = record { cursor = alloc_start }

-- `u64::is_power_of_two`, one of the powers below `2 ^ k`.
abbrev pub is_power_below : ℕ → ℕ → Bool
is_power_below zero v = false
is_power_below (suc k) v = (v == 2 ^ k) || is_power_below k v

-- `+` on `u64`.
abbrev pub checked_add : ℕ → ℕ → Outcome MemoryError ℕ
checked_add x y = if ltb (x + y) (2 ^ 64) then ok (x + y) else panic

-- `(cursor + align - 1) & !(align - 1)`.
unfoldable pub align_up : ℕ → ℕ → Outcome MemoryError ℕ
align_up cursor align = do
  top ← checked_add cursor align
  ok (bit_and (top - 1) (2 ^ 64 - 1 - (align - 1)))

unfoldable pub bytes_for : ℕ → ℕ
bytes_for bits = if bits % bits_in_byte == 0 then bits / bits_in_byte else bits / bits_in_byte + 1

-- The address and the number of bytes, with the allocator after the call.
unfoldable pub get_address :
    LinearAllocator → ℕ → ℕ → Outcome MemoryError ((ℕ × ℕ) × LinearAllocator)
get_address a bits align =
    if bits == 0
    then err zero_sized_allocation
    else if is_power_below 64 align
    then (do
      start_addr_aligned ← align_up a.cursor align
      let bytes = bytes_for bits
      let next_cursor = (start_addr_aligned + bytes) % 2 ^ 64
      if ltb next_cursor a.cursor
          then err (address_space_exhausted bits)
          else ok ((start_addr_aligned, bytes), record { cursor = next_cursor }))
    else err (not_power_of_two align)
