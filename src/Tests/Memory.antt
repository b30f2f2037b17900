-- ===== src/Tests/Memory.antt =====
-- Memory: the round trip of a word, the allocator and the image.
use symex.Common.{
  ℕ, ◌+◌, ◌-◌, ◌%◌, ◌^◌, ◌≤◌, ◌<◌, ◌≡◌, ◌⊎◌, ◌≢◌, Bool, true, false, refl, List, [], ◌∷◌, length,
  get_elem?, some, none, ok, panic, arith, Returns,
}
use symex.Errors.{ProjectError}
use symex.Smt.Sample.{two_worlds, Term, term, value, Cells}
use symex.Smt.Means.{Means}
use symex.Memory.Array.{
  ArrayMemory, write, read, little, internal_read, read_bytes, reduce_concat, read_u8,
}
use symex.Smt.Expr.{add, from_u64, concat}
use symex.Memory.Array.RoundTrip.{read-write}
use symex.Memory.Array.Loops.{ByteMemory}
use symex.Memory.Array.Frame.{read-write_apart}
use symex.Memory.Allocator.{LinearAllocator, alloc_start}
use symex.Project.Segments.{from_single_segment, read_raw_bytes}
use symex.Project.Segments.Laws.{read_raw_bytes-single}
use symex.Tests.Samples.{memory, byte, byte-Means}

-- Two bytes.
abbrev half_word : Term
half_word = term 16 (λ e. 4660)

half_word-Means : Means 16 (λ e. 4660) half_word
half_word-Means = record { has_width = refl; has_value = λ e. refl }

memory_bytes : ByteMemory 8 little memory
memory_bytes = record { bytes = refl; addresses = refl; order = refl }

read-write_example :
    Returns (write memory byte half_word) (λ m. Returns (read m byte 16) (Means 16 (λ e. 4660)))
read-write_example =
    read-write {num = 2} (λ e. 4660) little byte-Means (omega arith) memory memory_bytes
      (omega arith) half_word-Means

-- The address four bytes on.
abbrev far : Term
far = term 8 (λ e. elim e [ true ↦ 9 | false ↦ 204 ])

abbrev far_at : Bool → ℕ
far_at e = value e far

far-Means : Means 8 far_at far
far-Means = record { has_width = refl; has_value = λ e. refl }

far-apart :
    (e : Bool) (j k : ℕ) → j < 2 → k < 2 → (value e byte + j) % 2 ^ 8 ≢ (far_at e + k) % 2 ^ 8
far-apart true j k h h' q = omega arith
far-apart false j k h h' q = omega arith

-- Each cell holds its own address.
abbrev numbered : ArrayMemory
numbered = record { ptr_size = 8; memory = numbers; endianness = little }
  where
    numbers : Cells
    numbers = record { element = 8; cell = λ e i. i }

numbered_bytes : ByteMemory 8 little numbered
numbered_bytes = record { bytes = refl; addresses = refl; order = refl }

abbrev far_word : Bool → ℕ
far_word e = elim e [ true ↦ 2569 | false ↦ 52684 ]

both_worlds : (P : Bool → Type 0) → P true → P false → (e : Bool) → P e
both_worlds P t f true = t
both_worlds P t f false = f

far-read : Returns (read numbered far 16) (Means 16 far_word)
unfolding read internal_read read_bytes add from_u64 reduce_concat concat read_u8
far-read = (_, refl, record { has_width = refl; has_value = both_worlds _ refl refl })

read-write_apart_example :
    Returns (write numbered byte half_word) (λ m. Returns (read m far 16) (Means 16 far_word))
read-write_apart_example =
    read-write_apart {num = 2} {f = λ e. 4660} little byte-Means (omega arith) half_word-Means
      {num' = 2} far-Means (omega arith) far-apart {g = far_word} numbered numbered_bytes
      (omega arith) (omega arith) far-read

abbrev start : LinearAllocator
start = record { cursor = alloc_start }

abbrev image : List ℕ
image = 10 ∷ 20 ∷ 30 ∷ 40 ∷ []

read_raw_bytes-single_example :
    (101 < 100 ⊎ 100 + length image ≤ 101)
      × (read_raw_bytes {E = ProjectError}
            (from_single_segment image 100 (100 + length image))
            101
            2
          ≡ ok none)
    ⊎ (100 ≤ 101)
      × (101 < 100 + length image)
      × (101 + 2 ≤ 100 + length image)
      × Returns {E = ProjectError}
          (read_raw_bytes (from_single_segment image 100 (100 + length image)) 101 2)
          (λ r.
            (v : List ℕ) × (r ≡ some v)
            × (length v ≡ 2)
            × ((i : ℕ) → i < 2 → get_elem? v i ≡ get_elem? image (101 - 100 + i)))
    ⊎ (100 ≤ 101)
      × (101 < 100 + length image)
      × (100 + length image < 101 + 2)
      × (read_raw_bytes {E = ProjectError}
            (from_single_segment image 100 (100 + length image))
            101
            2
          ≡ panic)
read_raw_bytes-single_example = read_raw_bytes-single image 100 101 2
