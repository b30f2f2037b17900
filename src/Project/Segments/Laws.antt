-- ===== src/Project/Segments/Laws.antt =====
-- Reading the bytes of an image of one segment.
use symex.Common.{
  ℕ, zero, suc, ◌+◌, ◌-◌, ◌≤◌, ◌<◌, ◌≡◌, ◌⊎◌, inl, inr, refl, ap, List, [], ◌∷◌, length, take, drop,
  get_elem?, none, some, ok, panic, Returns, leb, ltb, Bool-cases, arith,
}
use symex.Project.Segments.{from_single_segment, slice_of, read_raw_bytes}

length-slice :
    {A : Type 0} (offset count : ℕ) (xs : List A)
    → offset + count ≤ length xs
    → length (take count (drop offset xs)) ≡ count
length-slice zero zero xs h = refl
length-slice zero (suc count) [] h = absurd (omega arith)
length-slice zero (suc count) (x ∷ xs) h = ap suc (length-slice zero count xs (omega arith))
length-slice (suc offset) zero xs h = refl
length-slice (suc offset) (suc count) [] h = absurd (omega arith)
length-slice (suc offset) (suc count) (x ∷ xs) h = length-slice offset (suc count) xs (omega arith)

-- An element of a part of a list.
get_elem?-slice :
    {A : Type 0} (offset count i : ℕ) (xs : List A)
    → i < count
    → get_elem? (take count (drop offset xs)) i ≡ get_elem? xs (offset + i)
get_elem?-slice zero zero i xs h = absurd (omega arith)
get_elem?-slice zero (suc count) i [] h = refl
get_elem?-slice zero (suc count) zero (x ∷ xs) h = refl
get_elem?-slice zero (suc count) (suc i) (x ∷ xs) h =
    let e : 0 + suc i ≡ suc (0 + i) = omega arith in
    rw e (get_elem?-slice zero count i xs (omega arith))
get_elem?-slice (suc offset) zero i xs h = absurd (omega arith)
get_elem?-slice (suc offset) (suc count) i [] h = refl
get_elem?-slice (suc offset) (suc count) i (x ∷ xs) h =
    let e : suc offset + i ≡ suc (offset + i) = omega arith in
    rw e (get_elem?-slice offset (suc count) i xs h)

-- An image of one segment with as many bytes as its bounds say: an address outside of it has no
-- bytes; from an address inside, the bytes that are asked for are those of the segment, in order,
-- and the read panics where they go beyond its end.
pub read_raw_bytes-single :
    {E : Type 0} (bytes : List ℕ) (start address count : ℕ)
    → (address < start ⊎ start + length bytes ≤ address)
        × (read_raw_bytes {E = E}
              (from_single_segment bytes start (start + length bytes))
              address
              count
            ≡ ok none)
      ⊎ (start ≤ address)
        × (address < start + length bytes)
        × (address + count ≤ start + length bytes)
        × Returns {E = E}
            (read_raw_bytes (from_single_segment bytes start (start + length bytes)) address count)
            (λ r.
              (v : List ℕ) × (r ≡ some v)
              × (length v ≡ count)
              × ((i : ℕ) → i < count → get_elem? v i ≡ get_elem? bytes (address - start + i)))
      ⊎ (start ≤ address)
        × (address < start + length bytes)
        × (start + length bytes < address + count)
        × (read_raw_bytes {E = E}
              (from_single_segment bytes start (start + length bytes))
              address
              count
            ≡ panic)
unfolding read_raw_bytes from_single_segment slice_of
read_raw_bytes-single bytes start address count = elim (Bool-cases (leb start address)) [
  | inr below ↦ inl (inl (ground arith), rw below refl)
  | inl above ↦ elim (Bool-cases (ltb address (start + length bytes))) [
    | inr beyond ↦ inl (inr (ground arith), rw (above, beyond) refl)
    | inl inside ↦ elim (Bool-cases (leb (address - start + count) (length bytes))) [
      | inl fits ↦ inr (
          inl (
            ground arith,
            ground arith,
            ground arith,
            rw (above, inside, fits)
                (
                  _,
                  refl,
                  (
                    _,
                    refl,
                    length-slice (address - start) count bytes (ground arith),
                    λ i h. get_elem?-slice (address - start) count i bytes h,
                  ),
                ),
          ))
      | inr crosses ↦
          inr (inr (ground arith, ground arith, ground arith, rw (above, inside, crosses) refl))
    ]
  ]
]
