-- ===== src/Memory/Array/Bytes.antt =====
-- The bytes of a word, and the concatenation of bytes in
-- symex/src/memory/array_memory.rs, the lowest first.
use symex.Common.{
  ℕ, zero, suc, ◌+◌, ◌-◌, ◌*◌, ◌/◌, ◌%◌, ◌^◌, ◌≤◌, ◌<◌, ◌≡◌, ◌≢◌, ◌⊎◌, inl, inr, refl, sym, ap, ◌∙◌,
  List, [], ◌∷◌, length, arith, Bool-cases, ltb, mod_high, two_pow_add, mod-eq_of_lt, some,
}
use native.Mathlib.Nat.{div-div-eq-div-mul, mod-one, div-one, mod-eq-sub-mod}
use mathlib.Core.List.{reverse_aux}
use symex.Smt.Boolector.{Boolector}
use symex.Smt.Expr.{DExpr, concat}
use symex.Smt.Means.{Means, Means-congr}
use symex.Smt.Resize.{concat-Means}
use symex.Memory.Array.{concat_onto, reduce_concat}

-- The low `j + i` bits: `i` bits above `j`.
mod_split : (i j v : ℕ) → v % 2 ^ (j + i) ≡ v / 2 ^ j % 2 ^ i * 2 ^ j + v % 2 ^ j
mod_split zero j v = let e : j + 0 ≡ j = omega arith in rw (e, mod-one (v / 2 ^ j)) (omega arith)
mod_split (suc i) j v =
    let e : j + suc i ≡ suc (j + i) = omega arith in
    let q : v / 2 ^ (j + i) ≡ v / 2 ^ j / 2 ^ i =
      rw (two_pow_add j i) (sym (div-div-eq-div-mul v (2 ^ j) (2 ^ i))) in
    rw e (
      omega (
        arith,
        mod_high (j + i) v,
        mod_split i j v,
        ap (λ (t : ℕ). t % 2 * 2 ^ (j + i)) q,
        ap (λ (t : ℕ). v / 2 ^ j / 2 ^ i % 2 * t) (two_pow_add j i),
        ap (λ (t : ℕ). t * 2 ^ j) (mod_high i (v / 2 ^ j)),
      ))

-- Byte `k` of a word.
abbrev pub byte_of : ℕ → ℕ → ℕ
byte_of v k = v / 2 ^ (8 * k) % 2 ^ 8

wrap_cases : (p s : ℕ) → s < p + p → (s < p) × (s % p ≡ s) ⊎ (p ≤ s) × (s % p ≡ s - p)
wrap_cases p s h = elim (Bool-cases (ltb s p)) [
  | inl less ↦ inl (ground arith, mod-eq_of_lt (ground arith))
  | inr more ↦ inr (ground arith, mod-eq-sub-mod (ground arith) ∙ mod-eq_of_lt (ground arith))
]

-- Two offsets below the size of the address space lead to different addresses.
pub apart : (p a j k : ℕ) → a < p → j < p → k < p → j ≢ k → (a + j) % p ≢ (a + k) % p
apart p a j k ha hj hk ne h = elim (wrap_cases p (a + j) (omega arith)) [
  | inl (l, e) ↦ elim (wrap_cases p (a + k) (omega arith)) [
    | inl (l', e') ↦ omega arith
    | inr (l', e') ↦ omega arith
  ]
  | inr (l, e) ↦ elim (wrap_cases p (a + k) (omega arith)) [
    | inl (l', e') ↦ omega arith
    | inr (l', e') ↦ omega arith
  ]
]

module _ ⦃b : Boolector⦄ where
  -- The expressions denote `g k`, `g (k + 1)`, ...
  abbrev pub Denote : (ℕ → b.Env → ℕ) → ℕ → List DExpr → Type 0
  Denote g k [] = Unit
  Denote g k (x ∷ xs) = Means 8 (g k) x × Denote g (k + 1) xs

  pub concat_onto-Means :
      (f : b.Env → ℕ) (xs : List DExpr) (acc : DExpr) (k : ℕ)
      → Means (8 * k) (λ e. f e % 2 ^ (8 * k)) acc
      → Denote (λ k e. byte_of (f e) k) k xs
      → Means (8 * (k + length xs)) (λ e. f e % 2 ^ (8 * (k + length xs))) (concat_onto acc xs)
  unfolding concat_onto
  concat_onto-Means f [] acc k m d = let e : k + 0 ≡ k = omega arith in rw e m
  concat_onto-Means f (x ∷ xs) acc k m d =
      let e : 8 + 8 * k ≡ 8 * (k + 1) = omega arith in
      let e' : 8 * k + 8 ≡ 8 * (k + 1) = omega arith in
      let wider : Means (8 * (k + 1)) (λ e. f e % 2 ^ (8 * (k + 1))) (concat x acc) = rw e at (
        Means-congr {g = λ w. f w % 2 ^ (8 * (k + 1))} (concat-Means d.0 m)
          (λ w. rw (← e') (sym (mod_split 8 (8 * k) (f w))))) in
      let all : k + suc (length xs) ≡ k + 1 + length xs = omega arith in
      rw all (concat_onto-Means f xs (concat x acc) (k + 1) wider d.1)

  -- All the bytes together are the word.
  pub reduce_concat-Means :
      (f : b.Env → ℕ) (xs : List DExpr)
      → 0 < length xs
      → ((e : b.Env) → f e < 2 ^ (8 * length xs))
      → Denote (λ k e. byte_of (f e) k) 0 xs
      → (x : DExpr) × (reduce_concat xs ≡ some x) × Means (8 * length xs) f x
  unfolding reduce_concat
  reduce_concat-Means f [] some_bytes fits d = absurd (omega arith)
  reduce_concat-Means f (x ∷ xs) some_bytes fits d =
      let low : Means (8 * 1) (λ e. f e % 2 ^ (8 * 1)) x =
        Means-congr d.0 (λ e. ap (λ (t : ℕ). t % 2 ^ 8) (div-one (f e))) in
      let e : 1 + length xs ≡ suc (length xs) = omega arith in
      let all = concat_onto-Means f xs x 1 low d.1 in
      (_, refl, Means-congr (rw e at all) (λ w. mod-eq_of_lt (fits w)))

  -- The bytes of a big-endian word, read from the highest on and turned round.
  pub Denote-reverse_aux :
      (f : b.Env → ℕ) (n k : ℕ) (xs acc : List DExpr)
      → k + length xs ≡ n
      → Denote (λ j e. byte_of (f e) (n - 1 - j)) k xs
      → Denote (λ j e. byte_of (f e) j) (n - k) acc
      → Denote (λ j e. byte_of (f e) j) 0 (reverse_aux xs acc)
  Denote-reverse_aux f n k [] acc h d da = let e : n - k ≡ 0 = omega arith in rw e at da
  Denote-reverse_aux f n k (x ∷ xs) acc h d da =
      let e : n - 1 - k ≡ n - (k + 1) = omega arith in
      let e' : n - (k + 1) + 1 ≡ n - k = omega arith in
      Denote-reverse_aux f n (k + 1) xs (x ∷ acc) (omega arith) d.1 (rw e at d.0, rw e' da)
