-- ===== src/Executor/Count/Laws.antt =====
-- What the four counting functions of symex/src/general_assembly/executor.rs compute.
use native.Mathlib.Nat.{mod-lt}
use symex.Common.{
  ℕ, zero, suc, ◌+◌, ◌-◌, ◌*◌, ◌/◌, ◌%◌, ◌^◌, ◌≤◌, ◌<◌, ◌≡◌, refl, ◌⊎◌, inl, inr, arith, Returns,
  pow-pos, pow-suc, mod-eq_of_lt, mod_high,
}
use symex.Smt.Boolector.{Boolector}
use symex.Smt.Expr.{DExpr}
use symex.Smt.Means.{Means, Means-lt, Means-congr}
use symex.Smt.Resize.{not_expr-Means}
use symex.Executor.Count.{
  count_ones, count_zeroes, count_leading_ones, count_leading_zeroes, popcount, leading_ones,
  bit_cases, count_loop_all, leading_loop_all,
}

-- `k` is the number of ones at the top of the `w` bits of `r`.
abbrev pub IsLeadingOnes : ℕ → ℕ → ℕ → Type 0
IsLeadingOnes w r k =
    (k ≡ w) × (r + 1 ≡ 2 ^ w) ⊎ (k < w) × (2 ^ w ≤ r + 2 ^ (w - k)) × (r + 2 ^ (w - 1 - k) < 2 ^ w)

-- `k` is the number of zeroes at the top of the `w` bits of `r`.
abbrev pub IsLeadingZeroes : ℕ → ℕ → ℕ → Type 0
IsLeadingZeroes w r k = (k ≡ w) × (r ≡ 0) ⊎ (k < w) × (r < 2 ^ (w - k)) × (2 ^ (w - 1 - k) ≤ r)

popcount-complement : (k v : ℕ) → v < 2 ^ k → popcount k (2 ^ k - 1 - v) + popcount k v ≡ k
popcount-complement zero v h = refl
popcount-complement (suc k) v h =
    let e = pow-suc 2 k in
    let half : (2 ^ suc k - 1 - v) / 2 ≡ 2 ^ k - 1 - v / 2 = omega (arith, e, pow-pos k) in
    let rest : popcount k ((2 ^ suc k - 1 - v) / 2) + popcount k (v / 2) ≡ k =
      rw half (popcount-complement k (v / 2) (omega (arith, e))) in
    omega (arith, rest, e, pow-pos k)

none_more : (n r : ℕ) → r < 2 ^ n → IsLeadingOnes (suc n) r 0
none_more n r h =
    let e : suc n - 1 - 0 ≡ n = omega arith in
    let e' : suc n - 0 ≡ suc n = omega arith in
    inr (omega arith, rw e' (omega arith), rw e (omega (arith, pow-suc 2 n)))

one_more : (n r k : ℕ) → IsLeadingOnes n r k → IsLeadingOnes (suc n) (2 ^ n + r) (suc k)
one_more n r k (inl (a, c)) = inl (omega arith, omega (arith, pow-suc 2 n))
one_more n r k (inr (a, c, d)) =
    let e : suc n - suc k ≡ n - k = omega arith in
    let e' : suc n - 1 - suc k ≡ n - 1 - k = omega arith in
    inr (omega arith, rw e (omega (arith, pow-suc 2 n)), rw e' (omega (arith, pow-suc 2 n)))

-- One bit more, at the top.
leading_step-IsLeadingOnes :
    (n a r k : ℕ)
    → a < 2
    → r < 2 ^ n
    → IsLeadingOnes n r k
    → IsLeadingOnes (suc n) (a * 2 ^ n + r) (a * (1 + k))
leading_step-IsLeadingOnes n a r k h fits ones = elim (bit_cases a h) [
  | inl none ↦
      let value : 0 * 2 ^ n + r ≡ r = omega arith in
      let count : 0 * (1 + k) ≡ 0 = omega arith in rw (none, value, count) (none_more n r fits)
  | inr one ↦
      let value : 1 * 2 ^ n + r ≡ 2 ^ n + r = omega arith in
      let count : 1 * (1 + k) ≡ suc k = omega arith in rw (one, value, count) (one_more n r k ones)
]

leading_ones-IsLeadingOnes : (n v : ℕ) → IsLeadingOnes n (v % 2 ^ n) (leading_ones n v)
leading_ones-IsLeadingOnes zero v = inl (refl, omega arith)
leading_ones-IsLeadingOnes (suc n) v = rw (mod_high n v) (
    leading_step-IsLeadingOnes n (v / 2 ^ n % 2) (v % 2 ^ n) _ (omega arith) (mod-lt v (pow-pos n))
      (leading_ones-IsLeadingOnes n v))

complement : (w v k : ℕ) → v < 2 ^ w → IsLeadingOnes w (2 ^ w - 1 - v) k → IsLeadingZeroes w v k
complement w v k h (inl (a, c)) = inl (a, omega arith)
complement w v k h (inr (a, c, d)) = inr (a, omega arith, omega arith)

module _ ⦃b : Boolector⦄ {E : Type 0} {w : ℕ} {f : b.Env → ℕ} {x : DExpr} (mx : Means w f x) where
  -- `count_ones` denotes the number of ones of the word.
  pub count_ones-popcount : Returns {E = E} (count_ones x w) (Means w (λ e. popcount w (f e)))
  unfolding count_ones
  count_ones-popcount = count_loop_all mx

  -- `count_zeroes` denotes the number of the other bits.
  pub count_zeroes-popcount :
      Returns {E = E} (count_zeroes x w) (Means w (λ e. w - popcount w (f e)))
  unfolding count_zeroes
  count_zeroes-popcount =
      let (r, p, mr) = count_loop_all (not_expr-Means mx) in
      (r, p, Means-congr mr (λ e. omega (arith, popcount-complement w (f e) (Means-lt mx e))))

  module _ (pos : 0 < w) (e : b.Env) where
    -- The value of the expression of `count_leading_ones`, for a word of at least one bit, is the
    -- number of ones at the top of the word.
    pub count_leading_ones-IsLeadingOnes :
        Returns {E = E} (count_leading_ones x w) (λ r. IsLeadingOnes w (f e) (b.value e r))
    unfolding count_leading_ones
    count_leading_ones-IsLeadingOnes =
        let (r, p, mr) = leading_loop_all mx pos in
        (
          r,
          p,
          rw (mr.has_value e)
              (rw (mod-eq_of_lt (Means-lt mx e)) at (leading_ones-IsLeadingOnes w (f e))),
        )

    -- The value of the expression of `count_leading_zeroes`, for a word of at least one bit, is
    -- the number of zeroes at the top of the word.
    pub count_leading_zeroes-IsLeadingZeroes :
        Returns {E = E} (count_leading_zeroes x w) (λ r. IsLeadingZeroes w (f e) (b.value e r))
    unfolding count_leading_zeroes
    count_leading_zeroes-IsLeadingZeroes =
        let mn = not_expr-Means mx in
        let (r, p, mr) = leading_loop_all mn pos in
        (
          r,
          p,
          complement w (f e) _ (Means-lt mx e) (
              rw (mr.has_value e) (
                rw (mod-eq_of_lt (Means-lt mn e)) at
                  (leading_ones-IsLeadingOnes w (2 ^ w - 1 - f e)))),
        )
