-- ===== src/Memory/Objects/RoundTrip.antt =====
-- Allocation, writes and reads of symex/src/memory/object_memory.rs.
use symex.Common.{
  ℕ, ◌+◌, ◌-◌, ◌*◌, ◌/◌, ◌%◌, ◌^◌, ◌≤◌, ◌<◌, ◌≡◌, ◌≢◌, refl, sym, ◌∙◌, true, false, some, ltb,
  arith, inl, inr, ok, Returns, lt→ltb, ==_of_eq, mod-eq_of_lt,
}
use symex.Errors.{MemoryError}
use symex.Smt.Boolector.{Boolector}
use symex.Smt.Expr.{DExpr, get_constant}
use symex.Smt.Means.{Means}
use symex.Smt.Resize.{slice-Means}
use symex.Memory.Objects.{
  MemoryObject, ObjectMemory, insert_object, closest, resolve_address, checked_sub, checked, read,
  write,
}
use symex.Memory.Objects.Laws.{
  IsLaid, closest→At, At→closest, At-IsObject, At-inside, replace-Laid, closest-replaced,
  closest-replacement,
}

module _ ⦃b : Boolector⦄ where
  -- The address is a constant of the width of pointers.
  pub record IsAddress (m : ObjectMemory) (addr : DExpr) (a : ℕ) : Type 0 where
    pub has_width : b.width addr ≡ m.ptr_size
    pub constant : get_constant {E = MemoryError} addr ≡ ok (some a)

  -- The write of a whole object.
  pub write-whole :
      (m : ObjectMemory) (addr value : DExpr) (o : MemoryObject) (start : ℕ)
      → IsAddress m addr start
      → closest start m.objects ≡ some (start, o)
      → o.address ≡ start
      → o.size < 2 ^ 32
      → b.width value ≡ o.size
      → write m addr value
        ≡ ok (record m { objects = insert_object start (record o { bv = value }) m.objects })
  unfolding write resolve_address checked_sub checked
  write-whole m addr value o start is found at small wide =
      let less : ltb start start ≡ false = ground arith in
      let none_off : start - start ≡ 0 = omega arith in
      let same : o.size % 2 ^ 32 ≡ o.size = mod-eq_of_lt small in
      rw
        (
          write,
          ==_of_eq _ _ is.has_width,
          resolve_address,
          is.constant,
          found,
          at,
          less,
          none_off,
          same,
          ==_of_eq _ _ wide,
        )
        refl

  -- A read of bits inside an object.
  pub read-part :
      (m : ObjectMemory) (at : DExpr) (o : MemoryObject) (f : b.Env → ℕ) (start a bits : ℕ)
      → IsAddress m at a
      → closest a m.objects ≡ some (start, o)
      → o.address ≡ start
      → Means o.size f o.bv
      → o.size < 2 ^ 32
      → start ≤ a
      → 0 < bits
      → (a - start) * 8 + bits ≤ o.size
      → Returns (read m at bits) (Means bits (λ e. f e / 2 ^ ((a - start) * 8) % 2 ^ bits))
  unfolding read resolve_address checked_sub checked
  read-part m at o f start a bits is found here mo small h some_bits inside =
      let less : ltb a start ≡ false = ground arith in
      let low : (a - start) % 2 ^ 32 ≡ a - start = mod-eq_of_lt (omega arith) in
      let fits : ltb ((a - start) * 8) (2 ^ 32) ≡ true = lt→ltb _ _ (omega arith) in
      let all_fit : ltb ((a - start) * 8 + bits) (2 ^ 32) ≡ true = lt→ltb _ _ (omega arith) in
      let not_empty : ltb ((a - start) * 8 + bits) 1 ≡ false = ground arith in
      rw
        (
          read,
          ==_of_eq _ _ is.has_width,
          resolve_address,
          is.constant,
          found,
          here,
          less,
          low,
          fits,
          all_fit,
          not_empty,
        )
        (slice-Means mo ((a - start) * 8) ((a - start) * 8 + bits - 1) bits (omega arith)
          (omega arith) (omega arith))

  -- An object whose value is written as a whole is read back, all of it or any bits of it from a
  -- byte on, and the objects stay apart.
  pub read-write_object :
      (m : ObjectMemory) (addr value at : DExpr) (o : MemoryObject) (f : b.Env → ℕ)
      (start a bits : ℕ)
      → IsLaid m
      → IsAddress m addr start
      → closest start m.objects ≡ some (start, o)
      → o.size < 2 ^ 32
      → Means o.size f value
      → IsAddress m at a
      → start ≤ a
      → 0 < bits
      → (a - start) * 8 + bits ≤ o.size
      → Returns (write m addr value) (λ m'.
        IsLaid m'
        × Returns (read m' at bits) (Means bits (λ e. f e / 2 ^ ((a - start) * 8) % 2 ^ bits)))
  read-write_object m addr value at o f start a bits laid is found small mv is_at h some_bits
        inside =
      let place = closest→At start start o m.objects found in
      let known = At-IsObject m.allocator.cursor start start o m.objects laid place in
      let new : MemoryObject = record o { bv = value } in
      let laid' =
        replace-Laid m.allocator.cursor start start o new m.objects laid place known.at_key refl
          mv.has_width in
      (
        _,
        write-whole m addr value o start is found known.at_key small mv.has_width,
        (
          laid',
          read-part (record m { objects = insert_object start new m.objects }) at new f start a bits
              (record { has_width = is_at.has_width; constant = is_at.constant })
              (closest-replacement m.allocator.cursor a start o new m.objects laid
                (At-inside m.allocator.cursor start a o m.objects laid place h (omega arith)))
              known.at_key mv small h some_bits inside,
        ),
      )

  -- What an address finds that does not find the object written reads as before.
  pub read-write_elsewhere :
      (m : ObjectMemory) (addr value at : DExpr) (o other : MemoryObject) (start key a bits : ℕ)
      → IsLaid m
      → IsAddress m addr start
      → closest start m.objects ≡ some (start, o)
      → o.size < 2 ^ 32
      → b.width value ≡ o.size
      → IsAddress m at a
      → closest a m.objects ≡ some (key, other)
      → key ≢ start
      → Returns (write m addr value) (λ m'. read m' at bits ≡ read m at bits)
  unfolding read resolve_address
  read-write_elsewhere m addr value at o other start key a bits laid is found small wide is_at
        elsewhere differ =
      let place = closest→At start start o m.objects found in
      let known = At-IsObject m.allocator.cursor start start o m.objects laid place in
      let new : MemoryObject = record o { bv = value } in
      (
        _,
        write-whole m addr value o start is found known.at_key small wide,
        elim (closest-replaced m.allocator.cursor start start a o new m.objects laid place) [
          | inl (at_start, _) ↦
              let one = At→closest a start o m.objects at_start in
              let two : some (start, o) ≡ some (key, other) = sym one ∙ elsewhere in
              absurd (differ cc)
          | inr q ↦ rw (read, resolve_address, is_at.constant, q) refl
        ],
      )
