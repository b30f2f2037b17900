-- ===== src/Executor/Count.antt =====
-- `count_ones`, `count_zeroes`, `count_leading_ones` and `count_leading_zeroes` of
-- symex/src/general_assembly/executor.rs: expressions built bit by bit, against the number of
-- ones of a number and the place of its highest one.
pub mod Laws
use native.Mathlib.Nat.{
  div-div-eq-div-mul, add-mod-mod, mod-add-mod, add_assoc, div-lt_iff_lt-mul, add-zero, zero-add,
  div-one,
}
use symex.Common.{
  ℕ, zero, suc, ◌+◌, ◌-◌, ◌*◌, ◌/◌, ◌%◌, ◌^◌, ◌≤◌, ◌<◌, ◌≡◌, refl, sym, ap, ◌∙◌, Bool, true, false,
  ltb, ◌==◌, if◌then◌else◌, bit_and, arith, Outcome, ok, ◌>>=◌, Returns, Returns-bind, Bool-cases,
  inl, inr, pow-pos, mod-eq_of_lt, pow-suc, bit_and-one, ◌⊎◌, bit_and-zero_left,
}
use symex.Smt.Boolector.{Boolector}
use symex.Smt.Expr.{DExpr, add, and, srl, not_expr, from_u64}
use symex.Smt.Means.{Means, Means-lt, Means-congr, add-Means, and-Means, srl-Means}
use symex.Smt.Resize.{from_u64-Means, not_expr-Means}

module _ ⦃b : Boolector⦄ where
  -- `for n in 0..word_size`, with `left` rounds left at `n`.
  count_loop : {E : Type 0} → DExpr → ℕ → DExpr → ℕ → ℕ → DExpr → Outcome E DExpr
  count_loop input word_size mask zero n count = ok count
  count_loop input word_size mask (suc left) n count = do
    let symbolic_n = from_u64 n word_size
    let to_add = and (srl input symbolic_n) mask
    count ← add count to_add
    count_loop input word_size mask left (n + 1) count

  unfoldable pub count_ones : {E : Type 0} → DExpr → ℕ → Outcome E DExpr
  unfolding count_loop
  count_ones input word_size =
      count_loop input word_size (from_u64 1 word_size) word_size 0 (from_u64 0 word_size)

  unfoldable pub count_zeroes : {E : Type 0} → DExpr → ℕ → Outcome E DExpr
  unfolding count_loop
  count_zeroes input word_size =
      count_loop (not_expr input) word_size (from_u64 1 word_size) word_size 0
        (from_u64 0 word_size)

  -- `for n in (0..word_size).rev()`: `left` rounds are left, the next at bit `left - 1`.
  leading_loop : {E : Type 0} → DExpr → ℕ → DExpr → ℕ → DExpr → DExpr → Outcome E DExpr
  leading_loop input word_size mask zero stop_count_mask count = ok count
  leading_loop input word_size mask (suc n) stop_count_mask count = do
    let symbolic_n = from_u64 n word_size
    let to_add = and (and (srl input symbolic_n) mask) stop_count_mask
    count ← add count to_add
    leading_loop input word_size mask n to_add count

  unfoldable pub count_leading_ones : {E : Type 0} → DExpr → ℕ → Outcome E DExpr
  unfolding leading_loop
  count_leading_ones input word_size =
      let one = from_u64 1 word_size in
      leading_loop input word_size one word_size one (from_u64 0 word_size)

  unfoldable pub count_leading_zeroes : {E : Type 0} → DExpr → ℕ → Outcome E DExpr
  unfolding leading_loop
  count_leading_zeroes input word_size =
      let one = from_u64 1 word_size in
      leading_loop (not_expr input) word_size one word_size one (from_u64 0 word_size)

-- The number of ones among the `k` low bits.
abbrev pub popcount : ℕ → ℕ → ℕ
popcount zero v = 0
popcount (suc k) v = v % 2 + popcount k (v / 2)

popcount-le : (k v : ℕ) → popcount k v ≤ k
popcount-le zero v = omega arith
popcount-le (suc k) v = omega (arith, popcount-le k (v / 2))

pub lt-two-pow : (n : ℕ) → n < 2 ^ n
lt-two-pow zero = omega arith
lt-two-pow (suc n) = omega (arith, lt-two-pow n, pow-suc 2 n)

-- The ones at the top of the `k` low bits, before the first zero.
abbrev pub leading_ones : ℕ → ℕ → ℕ
leading_ones zero v = 0
leading_ones (suc n) v = v / 2 ^ n % 2 * (1 + leading_ones n v)

leading_ones-le : (n v : ℕ) → leading_ones n v ≤ n
leading_ones-le zero v = omega arith
leading_ones-le (suc n) v = grind (arith, leading_ones-le n v)

bit_cases : (a : ℕ) → a < 2 → (a ≡ 0) ⊎ (a ≡ 1)
bit_cases zero h = inl refl
bit_cases (suc zero) h = inr refl
bit_cases (suc (suc a)) h = absurd (omega arith)

bit_and-eq-mul : (a s : ℕ) → a < 2 → s < 2 → bit_and a s ≡ a * s
bit_and-eq-mul a s ha hs = elim (bit_cases a ha) [
  | inl p ↦ rw p (omega (arith, bit_and-zero_left s))
  | inr p ↦ elim (bit_cases s hs) [ inl q ↦ rw (p, q) refl | inr q ↦ rw (p, q) refl ]
]

bit_and-lt : (a s : ℕ) → a < 2 → s < 2 → bit_and a s < 2
bit_and-lt a s ha hs = rw (bit_and-eq-mul a s ha hs) (grind arith)

leading_step :
    (c s a k p : ℕ)
    → a < 2
    → s < 2
    → ((c + bit_and a s) % p + bit_and a s * k) % p ≡ (c + s * (a * (1 + k))) % p
leading_step c s a k p ha hs =
    rw (bit_and-eq-mul a s ha hs)
      (mod-add-mod (c + a * s) p (a * s * k) ∙ ap (λ (t : ℕ). t % p) (omega arith))

leading_total :
    (w v : ℕ) → 0 < w → (0 % 2 ^ w + 1 % 2 ^ w * leading_ones w v) % 2 ^ w ≡ leading_ones w v
leading_total w v pos =
    let mask : 1 % 2 ^ w ≡ 1 = mod-eq_of_lt (omega (arith, lt-two-pow w)) in
    let sum : 0 + 1 * leading_ones w v ≡ leading_ones w v = omega arith in
    rw (mod-eq_of_lt (pow-pos w), mask, sum)
      (mod-eq_of_lt (omega (arith, leading_ones-le w v, lt-two-pow w)))

leading_done : (c s p : ℕ) → c < p → (c + s * 0) % p ≡ c
leading_done c s p h = let sum : c + s * 0 ≡ c = omega arith in rw sum (mod-eq_of_lt h)

one_fits : (w : ℕ) → 1 % 2 ^ w < 2
one_fits w = grind (arith, pow-pos w)

total : (w v : ℕ) → (0 % 2 ^ w + popcount w (v / 2 ^ 0)) % 2 ^ w ≡ popcount w v
total w v =
    rw (mod-eq_of_lt (pow-pos w), zero-add, div-one)
      (mod-eq_of_lt (omega (arith, popcount-le w v, lt-two-pow w)))

-- Bit `n`, as the loops compute it.
bit_at : (w n v : ℕ) → n < w → bit_and (v / 2 ^ (n % 2 ^ w)) (1 % 2 ^ w) ≡ v / 2 ^ n % 2
bit_at w n v h =
    let index : n % 2 ^ w ≡ n = mod-eq_of_lt (omega (arith, lt-two-pow w)) in
    let mask : 1 % 2 ^ w ≡ 1 = mod-eq_of_lt (omega (arith, lt-two-pow w)) in
    rw (index, mask) (bit_and-one (v / 2 ^ n))

div-pow-suc : (v n : ℕ) → v / 2 ^ n / 2 ≡ v / 2 ^ (n + 1)
div-pow-suc v n =
    div-div-eq-div-mul v (2 ^ n) 2
    ∙ ap (λ (t : ℕ). v / t) (sym (pow-suc 2 n) ∙ ap (λ (t : ℕ). 2 ^ t) (omega arith))

count_step :
    (c v p left n : ℕ)
    → ((c + v / 2 ^ n % 2) % p + popcount left (v / 2 ^ (n + 1))) % p
      ≡ (c + popcount (suc left) (v / 2 ^ n)) % p
count_step c v p left n =
    mod-add-mod (c + v / 2 ^ n % 2) p (popcount left (v / 2 ^ (n + 1)))
    ∙ rw (div-pow-suc v n) (ap (λ (t : ℕ). t % p) (add_assoc c (v / 2 ^ n % 2) _))

module _ ⦃b : Boolector⦄ where
  bit_at-Means :
      {w : ℕ} {f : b.Env → ℕ} {x : DExpr} (n : ℕ)
      → n < w
      → Means w f x
      → Means w (λ e. f e / 2 ^ n % 2) (and (srl x (from_u64 n w)) (from_u64 1 w))
  bit_at-Means {w} {f} n h m =
      Means-congr (and-Means (srl-Means m (from_u64-Means n w)) (from_u64-Means 1 w))
        (λ e. bit_at w n (f e) h)

  module _ {E : Type 0} {w : ℕ} {f : b.Env → ℕ} {x : DExpr} (mx : Means w f x) where
    count_loop-Means :
        (left n : ℕ) {c : b.Env → ℕ} {count : DExpr}
        → n + left ≡ w
        → Means w c count
        → Returns {E = E}
            (count_loop x w (from_u64 1 w) left n count)
            (Means w (λ e. (c e + popcount left (f e / 2 ^ n)) % 2 ^ w))
    unfolding count_loop
    count_loop-Means zero n h mc =
        (_, refl, Means-congr mc (λ e. sym (rw add-zero (mod-eq_of_lt (Means-lt mc e)))))
    count_loop-Means (suc left) n {c} h mc =
        Returns-bind _ (add-Means mc (bit_at-Means n (omega arith) mx)) λ count' mc'.
          let (r, p, mr) = count_loop-Means left (n + 1) (omega arith) mc' in
          (r, p, Means-congr mr (λ e. count_step (c e) (f e) (2 ^ w) left n))

    count_loop_all :
        Returns {E = E}
          (count_loop x w (from_u64 1 w) w 0 (from_u64 0 w))
          (Means w (λ e. popcount w (f e)))
    count_loop_all =
        let (r, p, mr) = count_loop-Means w 0 (omega arith) (from_u64-Means 0 w) in
        (r, p, Means-congr mr (λ e. total w (f e)))

    leading_loop-Means :
        (n : ℕ) {s c : b.Env → ℕ} {stop count : DExpr}
        → n ≤ w
        → Means w s stop
        → ((e : b.Env) → s e < 2)
        → Means w c count
        → Returns {E = E}
            (leading_loop x w (from_u64 1 w) n stop count)
            (Means w (λ e. (c e + s e * leading_ones n (f e)) % 2 ^ w))
    unfolding leading_loop
    leading_loop-Means zero {s} {c} h ms hs mc =
        (_, refl, Means-congr mc (λ e. sym (leading_done (c e) (s e) (2 ^ w) (Means-lt mc e))))
    leading_loop-Means (suc n) {s} {c} h ms hs mc =
        let mt = and-Means (bit_at-Means n (omega arith) mx) ms in
        Returns-bind _ (add-Means mc mt) λ count' mc'.
          let (r, p, mr) =
            leading_loop-Means n (omega arith) mt (λ e. bit_and-lt _ (s e) (omega arith) (hs e))
              mc' in
          (r, p, Means-congr mr (λ e. leading_step (c e) (s e) _ _ (2 ^ w) (omega arith) (hs e)))

    leading_loop_all :
        0 < w
        → Returns {E = E}
            (leading_loop x w (from_u64 1 w) w (from_u64 1 w) (from_u64 0 w))
            (Means w (λ e. leading_ones w (f e)))
    leading_loop_all pos =
        let (r, p, mr) =
          leading_loop-Means w (omega arith) (from_u64-Means 1 w) (λ e. one_fits w)
            (from_u64-Means 0 w) in
        (r, p, Means-congr mr (λ e. leading_total w (f e) pos))
