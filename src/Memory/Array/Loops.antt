-- ===== src/Memory/Array/Loops.antt =====
-- The words that the memory of symex/src/memory/array_memory.rs reads and writes, as its loops
-- over their bytes.
use symex.Common.{
  ℕ, ◌*◌, ◌/◌, ◌%◌, ◌<◌, ◌≡◌, refl, sym, ap, ◌∙◌, arith, ==_of_eq, ltb, ◌==◌, true, false, ◌>>=◌,
  unwrap,
}
use symex.Smt.Boolector.{Boolector}
use symex.Smt.Expr.{DExpr, len}
use symex.Memory.Array.{
  Endianness, little, big, ArrayMemory, write_u8, read_bytes, in_read_order, offset_of, write_bytes,
  write, read, internal_read, internal_write, reduce_concat,
}

module _ ⦃b : Boolector⦄ where
  -- A memory of bytes, with so many bits of address.
  pub record ByteMemory (w : ℕ) (en : Endianness) (m : ArrayMemory) : Type 0 where
    pub bytes : b.element m.memory ≡ 8
    pub addresses : m.ptr_size ≡ w
    pub order : m.endianness ≡ en

  pub offset-lt : (en : Endianness) (num k : ℕ) → k < num → offset_of en num k < num
  unfolding offset_of
  offset-lt little num k h = h
  offset-lt big num k h = omega arith

  pub write_u8-ByteMemory :
      {w : ℕ} {en : Endianness} (m : ArrayMemory) (i byte : DExpr)
      → ByteMemory w en m
      → ByteMemory w en (write_u8 m i byte)
  unfolding write_u8
  write_u8-ByteMemory m i byte bm = record {
    bytes = b.write-element m.memory i byte ∙ bm.bytes;
    addresses = bm.addresses;
    order = bm.order;
  }

  -- The guards pass for whole bytes.
  write-loop :
      (m : ArrayMemory) (addr x : DExpr) (num : ℕ)
      → len addr ≡ m.ptr_size
      → len x ≡ 8 * num
      → 0 < num
      → write m addr x ≡ write_bytes m addr x m.ptr_size num num 0
  unfolding write internal_write
  write-loop m addr x num h k pos =
      let wide : ltb (8 * num) 8 ≡ false = ground arith in
      let whole : (8 * num % 8 == 0) ≡ true = ==_of_eq _ _ (omega arith) in
      let count : 8 * num / 8 ≡ num = omega arith in
      rw (write, ==_of_eq _ _ h, internal_write, k, wide, k, whole, count) refl

  read-loop :
      (m : ArrayMemory) (addr : DExpr) (num : ℕ)
      → len addr ≡ m.ptr_size
      → 0 < num
      → read m addr (8 * num) ≡ (
          read_bytes m addr m.ptr_size num 0 >>= λ bytes.
          unwrap (reduce_concat (in_read_order m.endianness bytes)))
  unfolding read internal_read
  read-loop m addr num h pos =
      let wide : ltb (8 * num) 8 ≡ false = ground arith in
      let whole : (8 * num % 8 == 0) ≡ true = ==_of_eq _ _ (omega arith) in
      let count : 8 * num / 8 ≡ num = omega arith in
      rw (read, ==_of_eq _ _ h, internal_read, wide, whole, count) refl

  module _ {w num : ℕ} {en : Endianness} (m : ArrayMemory) (addr : DExpr) (bm : ByteMemory w en m)
      (wide : len addr ≡ w) (pos : 0 < num) where
    pub write-write_bytes :
        (x : DExpr) → len x ≡ 8 * num → write m addr x ≡ write_bytes m addr x w num num 0
    write-write_bytes x k =
        write-loop m addr x num (wide ∙ sym bm.addresses) k pos
        ∙ ap (λ (t : ℕ). write_bytes m addr x t num num 0) bm.addresses

    pub read-read_bytes :
        read m addr (8 * num)
        ≡ (read_bytes m addr w num 0 >>= λ bytes. unwrap (reduce_concat (in_read_order en bytes)))
    read-read_bytes =
        read-loop m addr num (wide ∙ sym bm.addresses) pos
        ∙ ap
            (λ (t : ℕ). read_bytes m addr t num 0 >>= λ bytes.
              unwrap (reduce_concat (in_read_order m.endianness bytes)))
            bm.addresses
        ∙ ap
            (λ (o : Endianness).
              read_bytes m addr w num 0 >>= λ bytes. unwrap (reduce_concat (in_read_order o bytes)))
            bm.order
