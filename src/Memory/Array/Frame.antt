-- ===== src/Memory/Array/Frame.antt =====
-- What a write to the memory of symex/src/memory/array_memory.rs leaves in place.
use symex.Common.{
  ℕ, zero, suc, ◌+◌, ◌-◌, ◌*◌, ◌%◌, ◌^◌, ◌≤◌, ◌<◌, ◌≡◌, ◌≢◌, refl, sym, ap, ◌∙◌, List, [], ◌∷◌,
  arith, mod-eq_of_lt, Returns, Returns-bind, ==_of_ne, unwrap,
}
use mathlib.Core.List.{reverse_aux}
use symex.Errors.{MemoryError}
use symex.Smt.Boolector.{Boolector}
use symex.Smt.Expr.{DExpr, add, concat, from_u64}
use symex.Smt.Means.{Means, add-Means}
use symex.Smt.Resize.{slice-Means, from_u64-Means}
use symex.Memory.Array.{
  Endianness, little, big, ArrayMemory, read_u8, write_u8, read_bytes, in_read_order, offset_of,
  write_bytes, write, read, concat_onto, reduce_concat,
}
use symex.Memory.Array.Loops.{
  ByteMemory, offset-lt, write_u8-ByteMemory, write-write_bytes, read-read_bytes,
}

module _ ⦃b : Boolector⦄ where
  -- Two expressions of one width and one value.
  record Same (x y : DExpr) : Type 0 where
    same_width : b.width x ≡ b.width y
    same_value : (e : b.Env) → b.value e x ≡ b.value e y

  abbrev SameBytes : List DExpr → List DExpr → Type 0
  SameBytes [] [] = Unit
  SameBytes (x ∷ xs) (y ∷ ys) = Same x y × SameBytes xs ys
  SameBytes [] (y ∷ ys) = ⊥
  SameBytes (x ∷ xs) [] = ⊥

  concat-Same : (x x' y y' : DExpr) → Same x x' → Same y y' → Same (concat x y) (concat x' y')
  unfolding concat
  concat-Same x x' y y' p q =
      let (l, v) = b.concat_means x y in
      let (l', v') = b.concat_means x' y' in
      record {
        same_width = l ∙ rw (p.same_width, q.same_width) (sym l');
        same_value = λ e. v e ∙ rw (p.same_value e, q.same_value e, q.same_width) (sym (v' e));
      }

  concat_onto-Same :
      (xs ys : List DExpr) (x y : DExpr)
      → Same x y
      → SameBytes xs ys
      → Same (concat_onto x xs) (concat_onto y ys)
  unfolding concat_onto
  concat_onto-Same [] [] x y h hs = h
  concat_onto-Same (v ∷ xs) (u ∷ ys) x y h hs =
      concat_onto-Same xs ys (concat v x) (concat u y) (concat-Same v u x y hs.0 h) hs.1
  concat_onto-Same [] (u ∷ ys) x y h hs = absurd hs
  concat_onto-Same (v ∷ xs) [] x y h hs = absurd hs

  reverse_aux-Same :
      (xs ys ls ms : List DExpr)
      → SameBytes xs ys
      → SameBytes ls ms
      → SameBytes (reverse_aux xs ls) (reverse_aux ys ms)
  reverse_aux-Same [] [] ls ms h k = k
  reverse_aux-Same (x ∷ xs) (y ∷ ys) ls ms h k =
      reverse_aux-Same xs ys (x ∷ ls) (y ∷ ms) h.1 (h.0, k)
  reverse_aux-Same [] (u ∷ ys) ls ms h k = absurd h
  reverse_aux-Same (v ∷ xs) [] ls ms h k = absurd h

  in_read_order-Same :
      (o : Endianness) (xs ys : List DExpr)
      → SameBytes xs ys
      → SameBytes (in_read_order o xs) (in_read_order o ys)
  unfolding in_read_order
  in_read_order-Same little xs ys h = h
  in_read_order-Same big xs ys h = reverse_aux-Same xs ys [] [] h tt

  -- The same bytes make the same word.
  reduce_concat-Same :
      {v : ℕ} {g : b.Env → ℕ} (xs ys : List DExpr)
      → SameBytes xs ys
      → Returns {E = MemoryError} (unwrap (reduce_concat xs)) (Means v g)
      → Returns {E = MemoryError} (unwrap (reduce_concat ys)) (Means v g)
  unfolding reduce_concat
  reduce_concat-Same [] [] h r = r
  reduce_concat-Same (x ∷ xs) (y ∷ ys) h (a, p, ma) =
      let q : concat_onto x xs ≡ a = cc in
      let s = concat_onto-Same xs ys x y h.0 h.1 in
      (
        _,
        refl,
        record {
          has_width = sym s.same_width ∙ ap b.width q ∙ ma.has_width;
          has_value = λ e. sym (s.same_value e) ∙ ap (b.value e) q ∙ ma.has_value e;
        },
      )
  reduce_concat-Same [] (u ∷ ys) h r = absurd h
  reduce_concat-Same (v ∷ xs) [] h r = absurd h

  module _ {w num : ℕ} {a : b.Env → ℕ} {addr : DExpr} {f : b.Env → ℕ} {x : DExpr} (en : Endianness)
      (ma : Means w a addr) (room : num ≤ 2 ^ w) (mx : Means (8 * num) f x) where
    -- The bytes outside of the word are those of `old`.
    Unmoved : ArrayMemory → ArrayMemory → Type 0
    Unmoved old m =
        (e : b.Env) (i : DExpr)
        → ((j : ℕ) → j < num → (a e + j) % 2 ^ w ≢ b.value e i)
        → b.value e (read_u8 m i) ≡ b.value e (read_u8 old i)

    write_u8-Unmoved :
        (old m : ArrayMemory) (i byte : DExpr) (j : ℕ)
        → ByteMemory w en m
        → j < num
        → Means w (λ e. (a e + j) % 2 ^ w) i
        → b.width byte ≡ 8
        → Unmoved old m
        → Unmoved old (write_u8 m i byte)
    unfolding Unmoved write_u8 read_u8
    write_u8-Unmoved old m i byte j bm less mi eight before e k outside =
        b.read-write e m.memory i k byte (eight ∙ sym bm.bytes)
        ∙ rw (==_of_ne _ _ (λ q. outside j less (sym (mi.has_value e) ∙ q))) (before e k outside)

    write_bytes-Unmoved :
        (old : ArrayMemory) (left n : ℕ) (m : ArrayMemory)
        → n + left ≡ num
        → ByteMemory w en m
        → Unmoved old m
        → Returns (write_bytes m addr x w num left n) (λ m'. ByteMemory w en m' × Unmoved old m')
    unfolding write_bytes
    write_bytes-Unmoved old zero n m h bm before = (m, refl, (bm, before))
    write_bytes-Unmoved old (suc left) n m h bm before =
        let less : n < num = omega arith in
        let there = offset-lt en num n less in
        let off : offset_of en num n % 2 ^ w ≡ offset_of en num n =
          mod-eq_of_lt (omega (arith, there)) in
        let place : Returns {E = MemoryError} (add addr (from_u64 (offset_of m.endianness num n) w))
            (Means w (λ e. (a e + offset_of en num n % 2 ^ w) % 2 ^ w)) =
          rw bm.order (add-Means ma (from_u64-Means (offset_of en num n) w)) in
        Returns-bind _
          (slice-Means mx (n * 8) ((n + 1) * 8 - 1) 8 (omega arith) (omega arith) (omega arith))
          λ byte mb. Returns-bind _ place λ i mi.
            write_bytes-Unmoved old left (n + 1) (write_u8 m i byte) (omega arith)
              (write_u8-ByteMemory m i byte bm)
              (write_u8-Unmoved old m i byte (offset_of en num n) bm there (rw off at mi)
                mb.has_width before)

    module _ {num' : ℕ} {c : b.Env → ℕ} {addr' : DExpr} (mc : Means w c addr')
        (room' : num' ≤ 2 ^ w)
        (apart : (e : b.Env) (j k : ℕ)
          → j < num
          → k < num'
          → (a e + j) % 2 ^ w ≢ (c e + k) % 2 ^ w) where
      -- The loop that reads finds the same bytes in both memories.
      read_bytes-Same :
          (old m : ArrayMemory) (left byte : ℕ)
          → byte + left ≡ num'
          → ByteMemory w en old
          → ByteMemory w en m
          → Unmoved old m
          → Returns
              (read_bytes old addr' w left byte)
              (λ xs. Returns (read_bytes m addr' w left byte) (λ ys. SameBytes xs ys))
      unfolding read_bytes read_u8 Unmoved
      read_bytes-Same old m zero byte h bo bm un = ([], refl, ([], refl, tt))
      read_bytes-Same old m (suc left) byte h bo bm un =
          let off : byte % 2 ^ w ≡ byte = mod-eq_of_lt (omega arith) in
          let place : Returns {E = MemoryError} (add addr' (from_u64 byte w))
              (Means w (λ e. (c e + byte % 2 ^ w) % 2 ^ w)) =
            add-Means mc (from_u64-Means byte w) in
          let (i, p, mi) = place in
          let (xs, q, (ys, q', s)) = read_bytes-Same old m left (byte + 1) (omega arith) bo bm un in
          let same : Same (read_u8 old i) (read_u8 m i) = record {
            same_width =
                b.read-width old.memory i ∙ bo.bytes ∙ sym (b.read-width m.memory i ∙ bm.bytes);
            same_value = λ e. sym (
                un e i (λ j less at_i.
                  apart e j byte less (omega arith) (at_i ∙ mi.has_value e ∙ rw off refl)));
          } in
          (read_u8 old i ∷ xs, rw (p, q) refl, (read_u8 m i ∷ ys, rw (p, q') refl, (same, s)))

      -- Two words of whole bytes, each with no more bytes than the address space, at addresses that
      -- may be symbolic and under no assignment share a byte: after one is written the other reads
      -- as before.
      pub read-write_apart :
          {g : b.Env → ℕ} (m : ArrayMemory)
          → ByteMemory w en m
          → 0 < num
          → 0 < num'
          → Returns (read m addr' (8 * num')) (Means (8 * num') g)
          → Returns (write m addr x) (λ m'. Returns (read m' addr' (8 * num')) (Means (8 * num') g))
      unfolding Unmoved
      read-write_apart {g} m bm pos pos' before =
          let start = write-write_bytes m addr bm ma.has_width pos x mx.has_width in
          let (m', p, (bm', un)) =
            write_bytes-Unmoved m num 0 m (omega arith) bm (λ e i outside. refl) in
          let (xs, q, (ys, q', same)) = read_bytes-Same m m' num' 0 (omega arith) bm bm' un in
          let old : read m addr' (8 * num') ≡ unwrap (reduce_concat (in_read_order en xs)) =
            read-read_bytes m addr' bm mc.has_width pos' ∙ rw q refl in
          let now : read m' addr' (8 * num') ≡ unwrap (reduce_concat (in_read_order en ys)) =
            read-read_bytes m' addr' bm' mc.has_width pos' ∙ rw q' refl in
          let (r, u, mr) = before in
          let (r', u', mr') =
            reduce_concat-Same (in_read_order en xs) (in_read_order en ys)
              (in_read_order-Same en xs ys same) (r, sym old ∙ u, mr) in
          (m', start ∙ p, (r', now ∙ u', mr'))
