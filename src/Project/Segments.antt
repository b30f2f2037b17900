-- ===== src/Project/Segments.antt =====
-- symex/src/general_assembly/project/segments.rs.
pub mod Laws
use symex.Common.{
  ℕ, ◌+◌, ◌-◌, Bool, ◌&&◌, List, [], ◌∷◌, length, take, drop, Option, none, some, ltb, leb,
  if◌then◌else◌, Outcome, ok, panic, ◌>>=◌, ◌>>◌, assert,
}

pub record Segment : Type 0 where
  pub data_bytes : List ℕ
  pub start_address : ℕ
  pub end_address : ℕ

abbrev pub Segments : Type 0
Segments = List Segment

unfoldable pub from_single_segment : List ℕ → ℕ → ℕ → Segments
from_single_segment bytes start_addr end_addr =
    record { data_bytes = bytes; start_address = start_addr; end_address = end_addr } ∷ []

-- `&data[offset..(offset + bytes)]`, which panics past the end.
unfoldable pub slice_of : {E : Type 0} → List ℕ → ℕ → ℕ → Outcome E (List ℕ)
slice_of bytes offset count = do
  assert (leb (offset + count) (length bytes))
  ok (take count (drop offset bytes))

-- The bytes at an address, from the first segment that holds it.
unfoldable pub read_raw_bytes : {E : Type 0} → Segments → ℕ → ℕ → Outcome E (Option (List ℕ))
unfolding slice_of
read_raw_bytes [] address bytes = ok none
read_raw_bytes (s ∷ segments) address bytes =
    if leb s.start_address address && ltb address s.end_address
    then (slice_of s.data_bytes (address - s.start_address) bytes >>= λ v. ok (some v))
    else read_raw_bytes segments address bytes
