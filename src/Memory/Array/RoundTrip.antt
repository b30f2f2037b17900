-- ===== src/Memory/Array/RoundTrip.antt =====
-- Reading a word back from the memory of symex/src/memory/array_memory.rs after writing it.
use symex.Common.{
  ℕ, zero, suc, ◌+◌, ◌-◌, ◌*◌, ◌%◌, ◌^◌, ◌≤◌, ◌<◌, ◌≡◌, ◌≢◌, inl, inr, refl, sym, ap, ◌∙◌, List, [],
  ◌∷◌, length, arith, mod-eq_of_lt, Returns, Returns-bind, ==_of_eq, ==_of_ne, Bool-cases, ◌==◌,
}
use mathlib.Core.List.{reverse_aux}
use symex.Errors.{MemoryError}
use symex.Smt.Boolector.{Boolector}
use symex.Smt.Expr.{DExpr, add, from_u64}
use symex.Smt.Means.{Means, Means-lt, Means-congr, add-Means}
use symex.Smt.Resize.{slice-Means, from_u64-Means}
use symex.Memory.Array.{
  Endianness, little, big, ArrayMemory, read_u8, write_u8, read_bytes, in_read_order, offset_of,
  write_bytes, write, read,
}
use symex.Memory.Array.Loops.{
  ByteMemory, offset-lt, write_u8-ByteMemory, write-write_bytes, read-read_bytes,
}
use symex.Memory.Array.Bytes.{byte_of, apart, Denote, reduce_concat-Means, Denote-reverse_aux}

module _ ⦃b : Boolector⦄ where
  offset-apart :
      (en : Endianness) (num k n : ℕ) → k < n → n < num → offset_of en num n ≢ offset_of en num k
  unfolding offset_of
  offset-apart little num k n h g e = omega arith
  offset-apart big num k n h g e = omega arith

  length-reverse_aux : (xs acc : List DExpr) → length (reverse_aux xs acc) ≡ length xs + length acc
  length-reverse_aux [] acc = omega arith
  length-reverse_aux (x ∷ xs) acc = omega (arith, length-reverse_aux xs (x ∷ acc))

  length-in_read_order :
      (o : Endianness) (xs : List DExpr) → length (in_read_order o xs) ≡ length xs
  unfolding in_read_order
  length-in_read_order little xs = refl
  length-in_read_order big xs = omega (arith, length-reverse_aux xs [])

  module _ {w num : ℕ} {a : b.Env → ℕ} {addr : DExpr} (f : b.Env → ℕ) (en : Endianness)
      (ma : Means w a addr) (room : num ≤ 2 ^ w) where
    -- Byte `k` of the word stands where the byte order puts it.
    abbrev Holds : ArrayMemory → ℕ → Type 0
    Holds m k =
        (e : b.Env) (i : DExpr)
        → b.value e i ≡ (a e + offset_of en num k) % 2 ^ w
        → b.value e (read_u8 m i) ≡ byte_of (f e) k

    -- One byte written, where the bytes before it stand already.
    write_u8-Holds :
        (m : ArrayMemory) (i byte : DExpr) (n : ℕ)
        → ByteMemory w en m
        → n < num
        → Means w (λ e. (a e + offset_of en num n) % 2 ^ w) i
        → Means 8 (λ e. byte_of (f e) n) byte
        → ((k : ℕ) → k < n → Holds m k)
        → (k : ℕ) → k < n + 1
        → Holds (write_u8 m i byte) k
    unfolding write_u8 read_u8
    write_u8-Holds m i byte n bm less mi mbyte before k h e j at_k =
        let law = b.read-write e m.memory i j byte (mbyte.has_width ∙ sym bm.bytes) in
        elim (Bool-cases (k == n)) [
          | inl same ↦
              let k_n : k ≡ n = ground arith in
              let hit : b.value e i ≡ b.value e j = mi.has_value e ∙ sym (at_k ∙ rw k_n refl) in
              law ∙ rw (==_of_eq _ _ hit, k_n) (mbyte.has_value e)
          | inr other ↦
              let earlier : k < n = ground arith in
              let miss : b.value e i ≢ b.value e j = λ q.
                apart (2 ^ w) (a e) (offset_of en num n) (offset_of en num k) (Means-lt ma e)
                  (omega (arith, offset-lt en num n less))
                  (omega (arith, offset-lt en num k (omega arith)))
                  (offset-apart en num k n earlier less) (sym (mi.has_value e) ∙ q ∙ at_k) in
              law ∙ rw (==_of_ne _ _ miss) (before k earlier e j at_k)
        ]

    -- The loop writes them all.
    write_bytes-Holds :
        {x : DExpr} (mx : Means (8 * num) f x) (left n : ℕ) (m : ArrayMemory)
        → n + left ≡ num
        → ByteMemory w en m
        → ((k : ℕ) → k < n → Holds m k)
        → Returns
            (write_bytes m addr x w num left n)
            (λ m'. ByteMemory w en m' × ((k : ℕ) → k < num → Holds m' k))
    unfolding write_bytes
    write_bytes-Holds mx zero n m h bm before = (m, refl, (bm, λ k g. before k (omega arith)))
    write_bytes-Holds mx (suc left) n m h bm before =
        let less : n < num = omega arith in
        let scale : n * 8 ≡ 8 * n = omega arith in
        let off : offset_of en num n % 2 ^ w ≡ offset_of en num n =
          mod-eq_of_lt (omega (arith, offset-lt en num n less)) in
        let place : Returns {E = MemoryError} (add addr (from_u64 (offset_of m.endianness num n) w))
            (Means w (λ e. (a e + offset_of en num n % 2 ^ w) % 2 ^ w)) =
          rw bm.order (add-Means ma (from_u64-Means (offset_of en num n) w)) in
        Returns-bind _
          (slice-Means mx (n * 8) ((n + 1) * 8 - 1) 8 (omega arith) (omega arith) (omega arith))
          λ byte mb. Returns-bind _ place λ i mi.
            write_bytes-Holds mx left (n + 1) (write_u8 m i byte) (omega arith)
              (write_u8-ByteMemory m i byte bm)
              (write_u8-Holds m i byte n bm less (Means-congr mi (λ e. rw off refl))
                (rw scale at mb) before)

    -- The loop that reads gives the bytes by address.
    read_bytes-Denote :
        (g : ℕ → b.Env → ℕ) (left byte : ℕ) (m : ArrayMemory)
        → byte + left ≡ num
        → ByteMemory w en m
        → ((j : ℕ)
            → j < num
            → (e : b.Env) (i : DExpr) → b.value e i ≡ (a e + j) % 2 ^ w
            → b.value e (read_u8 m i) ≡ g j e)
        → Returns (read_bytes m addr w left byte) (λ xs. (length xs ≡ left) × Denote g byte xs)
    unfolding read_bytes read_u8
    read_bytes-Denote g zero byte m h bm holds = ([], refl, (refl, tt))
    read_bytes-Denote g (suc left) byte m h bm holds =
        let off : byte % 2 ^ w ≡ byte = mod-eq_of_lt (omega arith) in
        Returns-bind _ (add-Means ma (from_u64-Means byte w)) λ i mi.
          Returns-bind _ (read_bytes-Denote g left (byte + 1) m (omega arith) bm holds) λ xs d. (
            _,
            refl,
            (
              ap suc d.0,
              (
                record {
                  has_width = b.read-width m.memory i ∙ bm.bytes;
                  has_value = λ e. holds byte (omega arith) e i (mi.has_value e ∙ rw off refl);
                },
                d.1,
              ),
            ),
          )

    -- What the byte order makes of the bytes by address.
    abbrev by_address : Endianness → ℕ → b.Env → ℕ
    by_address little j e = byte_of (f e) j
    by_address big j e = byte_of (f e) (num - 1 - j)

    Holds-by_address :
        (o : Endianness) (m : ArrayMemory)
        → o ≡ en
        → ((k : ℕ) → k < num → Holds m k)
        → (j : ℕ) → j < num
        → (e : b.Env) (i : DExpr) → b.value e i ≡ (a e + j) % 2 ^ w
        → b.value e (read_u8 m i) ≡ by_address o j e
    unfolding offset_of
    Holds-by_address little m o h j lt e i at_j = h j lt e i (rw (← o) at_j)
    Holds-by_address big m o h j lt e i at_j =
        let back : num - 1 - (num - 1 - j) ≡ j = omega arith in
        h (num - 1 - j) (omega arith) e i (rw (← o, back) at_j)

    in_order :
        (o : Endianness) (xs : List DExpr)
        → length xs ≡ num
        → Denote (by_address o) 0 xs
        → Denote (λ j e. byte_of (f e) j) 0 (in_read_order o xs)
    unfolding in_read_order
    in_order little xs h d = d
    in_order big xs h d = Denote-reverse_aux f num 0 xs [] (omega arith) d tt

    read_back :
        (m : ArrayMemory)
        → ByteMemory w en m
        → 0 < num
        → ((e : b.Env) → f e < 2 ^ (8 * num))
        → ((k : ℕ) → k < num → Holds m k)
        → Returns (read m addr (8 * num)) (Means (8 * num) f)
    read_back m bm some_bytes fits holds =
        let start = read-read_bytes m addr bm ma.has_width some_bytes in
        let (xs, p, d) =
          read_bytes-Denote (by_address en) num 0 m (omega arith) bm
            (Holds-by_address en m refl holds) in
        let count = length-in_read_order en xs ∙ d.0 in
        let (r, q, mr) =
          reduce_concat-Means f (in_read_order en xs) (omega arith) (rw count fits)
            (in_order en xs d.0 d.1) in
        (r, start ∙ rw (p, q) refl, rw count at mr)

    -- A word that was written is read back, in either byte order, at the same address, which may
    -- be symbolic.
    pub read-write :
        {x : DExpr} (m : ArrayMemory)
        → ByteMemory w en m
        → 0 < num
        → Means (8 * num) f x
        → Returns (write m addr x) (λ m'. Returns (read m' addr (8 * num)) (Means (8 * num) f))
    read-write {x} m bm some_bytes mx =
        let start = write-write_bytes m addr bm ma.has_width some_bytes x mx.has_width in
        let (m', p, h) =
          write_bytes-Holds mx num 0 m (omega arith) bm (λ k h. absurd (omega arith)) in
        (m', start ∙ p, read_back m' h.0 some_bytes (Means-lt mx) h.1)
