-- ===== src/Memory/Objects/Parts.antt =====
-- Writes of a part of an object of symex/src/memory/object_memory.rs.
use native.Mathlib.Nat.{div-one}
use symex.Common.{
  ℕ, ◌+◌, ◌-◌, ◌*◌, ◌%◌, ◌^◌, ◌≤◌, ◌<◌, ◌≡◌, refl, true, false, some, ltb, ◌==◌, arith, Bool-cases,
  inl, inr, ok, Returns, lt→ltb, ==_of_eq, mod-eq_of_lt,
}
use symex.Errors.{MemoryError}
use symex.Smt.Boolector.{Boolector}
use symex.Smt.Expr.{DExpr, replace_part}
use symex.Smt.Means.{Means, Means-congr, Means-lt}
use symex.Smt.Replace.{replaced, replaced-bits, replace_part-Means}
use symex.Memory.Objects.{
  MemoryObject, ObjectMemory, insert_object, closest, resolve_address, checked_sub, checked, read,
  write,
}
use symex.Memory.Objects.Laws.{IsLaid, closest→At, At-IsObject, replace-Laid, closest-replacement}
use symex.Memory.Objects.RoundTrip.{IsAddress, read-part, read-write_object}

module _ ⦃b : Boolector⦄ where
  write-replaced :
      (m : ObjectMemory) (addr value new : DExpr) (o : MemoryObject) (start a n : ℕ)
      → IsAddress m addr a
      → closest a m.objects ≡ some (start, o)
      → o.address ≡ start
      → o.size < 2 ^ 32
      → b.width value ≡ n
      → (n == o.size) ≡ false
      → start ≤ a
      → (a - start) * 8 + n ≤ o.size
      → replace_part {E = MemoryError} o.bv ((a - start) * 8) value ≡ ok new
      → write m addr value
        ≡ ok (record m { objects = insert_object start (record o { bv = new }) m.objects })
  unfolding write resolve_address checked_sub checked
  write-replaced m addr value new o start a n is found here small wide partial h inside replaces =
      let less : ltb a start ≡ false = ground arith in
      let same : o.size % 2 ^ 32 ≡ o.size = mod-eq_of_lt small in
      let fits : ltb ((a - start) * 8) (2 ^ 64) ≡ true = lt→ltb _ _ (omega arith) in
      let low : (a - start) * 8 % 2 ^ 32 ≡ (a - start) * 8 = mod-eq_of_lt (omega arith) in
      rw
        (
          write,
          ==_of_eq _ _ is.has_width,
          resolve_address,
          is.constant,
          found,
          here,
          less,
          fits,
          same,
          wide,
          partial,
          low,
          replaces,
        )
        refl

  -- A value that fits into an object, at the constant address of one of its bytes, is read back from there,
  -- and the objects stay apart.
  pub read-write_part :
      (m : ObjectMemory) (addr value : DExpr) (o : MemoryObject) (g : b.Env → ℕ) (start a n : ℕ)
      → IsLaid m
      → IsAddress m addr a
      → closest a m.objects ≡ some (start, o)
      → o.size < 2 ^ 32
      → Means n g value
      → 0 < n
      → (a - start) * 8 + n ≤ o.size
      → Returns (write m addr value) (λ m'. IsLaid m' × Returns (read m' addr n) (Means n g))
  read-write_part m addr value o g start a n laid is found small mv some_bits inside =
      let place = closest→At a start o m.objects found in
      let known = At-IsObject m.allocator.cursor a start o m.objects laid place in
      elim (Bool-cases (n == o.size)) [
        | inl whole ↦
            let n_size : n ≡ o.size = ground arith in
            let at_start : a ≡ start = omega (arith, known.reached) in
            let none_off : (a - start) * 8 ≡ 0 = omega arith in
            let (m', q, (laid', (r, reads, mr))) =
              read-write_object m addr value addr o g start a n laid (rw at_start at is)
                (rw at_start at found) small (rw n_size at mv) is known.reached some_bits inside in
            (
              m',
              q,
              (
                laid',
                (
                  r,
                  reads,
                  Means-congr mr (λ e. rw (none_off, div-one (g e)) (mod-eq_of_lt (Means-lt mv e))),
                ),
              ),
            )
        | inr partial ↦
            let mo : Means o.size (λ e. b.value e o.bv) o.bv = record {
              has_width = known.has_width;
              has_value = λ e. refl;
            } in
            let (new, q, mn) =
              replace_part-Means ((a - start) * 8) mo mv some_bits inside {E = MemoryError} in
            let object : MemoryObject = record o { bv = new } in
            let (r, reads, mr) =
              read-part (record m { objects = insert_object start object m.objects }) addr object
                (λ e. replaced ((a - start) * 8) n (b.value e o.bv) (g e)) start a n
                (record { has_width = is.has_width; constant = is.constant })
                (closest-replacement m.allocator.cursor a start o object m.objects laid place)
                known.at_key mn small known.reached some_bits inside in
            (
              _,
              write-replaced m addr value new o start a n is found known.at_key small mv.has_width
                  partial known.reached inside q,
              (
                replace-Laid m.allocator.cursor a start o object m.objects laid place known.at_key
                    refl mn.has_width,
                (
                  r,
                  reads,
                  Means-congr mr (λ e.
                      replaced-bits ((a - start) * 8) n (b.value e o.bv) (g e) (Means-lt mv e)),
                ),
              ),
            )
      ]
