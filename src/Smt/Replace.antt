-- ===== src/Smt/Replace.antt =====
-- `replace_part` of symex/src/smt/smt_boolector/expr.rs: bits of an expression replaced by others.
use native.Mathlib.Nat.{
  div-one, div-eq_of_lt, div-lt_iff_lt-mul, mod-lt, mod-one, mul-add-div_right,
  mul-add-mod_self_right, mul_comm, mul_assoc, add-mul,
}
use symex.Common.{
  ℕ, ◌+◌, ◌-◌, ◌*◌, ◌/◌, ◌%◌, ◌^◌, ◌≤◌, ◌<◌, ◌≡◌, refl, sym, ◌∙◌, ◌==◌, if◌then◌else◌, Bool-cases,
  inl, inr, ok, arith, Returns, Returns-bind, le→leb, ==_of_eq, pow-pos, two_pow_add, mod-eq_of_lt,
  ◌>>=◌,
}
use symex.Smt.Boolector.{Boolector}
use symex.Smt.Expr.{DExpr, len, slice, concat, replace_part}
use symex.Smt.Means.{Means, Means-congr, Means-lt}
use symex.Smt.Resize.{slice-Means, concat-Means}

-- The number `v` with `n` bits from `start` on replaced by `u`.
abbrev pub replaced : ℕ → ℕ → ℕ → ℕ → ℕ
replaced start n v u = v / 2 ^ (start + n) * 2 ^ (start + n) + (u * 2 ^ start + v % 2 ^ start)

split-pow : (t start n : ℕ) → t * 2 ^ (start + n) ≡ t * 2 ^ n * 2 ^ start
split-pow t start n =
    rw (two_pow_add start n, mul_comm (2 ^ start) (2 ^ n)) (sym (mul_assoc t (2 ^ n) (2 ^ start)))

-- The bits that were put in are found there.
pub replaced-bits : (start n v u : ℕ) → u < 2 ^ n → replaced start n v u / 2 ^ start % 2 ^ n ≡ u
replaced-bits start n v u h =
    let top = v / 2 ^ (start + n) in
    let pos : 0 < 2 ^ start = pow-pos start in
    let joined : top * 2 ^ n * 2 ^ start + (u * 2 ^ start + v % 2 ^ start)
        ≡ (top * 2 ^ n + u) * 2 ^ start + v % 2 ^ start =
      omega (arith, add-mul (top * 2 ^ n) u (2 ^ start)) in
    let low : v % 2 ^ start / 2 ^ start ≡ 0 = div-eq_of_lt (mod-lt v pos) in
    let nothing : top * 2 ^ n + u + 0 ≡ top * 2 ^ n + u = omega arith in
    rw
      (
        split-pow top start n,
        joined,
        mul-add-div_right pos (top * 2 ^ n + u) (v % 2 ^ start),
        low,
        nothing,
        mul-add-mod_self_right top (2 ^ n) u,
      )
      (mod-eq_of_lt h)

module _ ⦃b : Boolector⦄ {w n : ℕ} {f g : b.Env → ℕ} {x r : DExpr} (start : ℕ) (mx : Means w f x)
    (mr : Means n g r) (some_bits : 0 < n) (fits : start + n ≤ w) where
  -- The new bits with those below them.
  lower-Means :
      {E : Type 0}
      → Returns {E = E}
          (if start == 0 then ok r else (slice x 0 (start - 1) >>= λ prefix. ok (concat r prefix)))
          (Means (start + n) (λ e. g e * 2 ^ start + f e % 2 ^ start))
  lower-Means {E} = elim (Bool-cases (start == 0)) [
    | inl none ↦
        let zero_start : start ≡ 0 = ground arith in
        let width : start + n ≡ n = omega arith in
        rw (none, width)
          (_, refl, Means-congr mr (λ e. rw (zero_start, mod-one (f e)) (omega arith)))
    | inr some_below ↦
        let order : n + start ≡ start + n = omega arith in
        rw some_below (
          Returns-bind _
            (slice-Means mx {E = E} 0 (start - 1) start (omega arith) (ground arith) (ground arith))
            λ prefix mp.
              let joined : Means (n + start) (λ e. g e * 2 ^ start + f e % 2 ^ start)
                  (concat r prefix) =
                Means-congr (concat-Means mr mp) (λ e. rw (div-one (f e)) refl) in
              (_, refl, rw order at joined))
  ]

  -- All of them.
  pub replace_part-Means :
      {E : Type 0}
      → Returns {E = E} (replace_part x start r) (Means w (λ e. replaced start n (f e) (g e)))
  unfolding replace_part
  replace_part-Means {E} =
      let (lower, p, ml) = lower-Means {E = E} in
      rw (replace_part, mr.has_width, mx.has_width, le→leb (start + n) w fits, p)
        (elim (Bool-cases (start + n == w)) [
          | inl all ↦
              let whole : start + n ≡ w = ground arith in
              let nothing : (e : b.Env) → f e / 2 ^ (start + n) ≡ 0 =
                λ e. div-eq_of_lt (rw whole (Means-lt mx e)) in
              rw (all, ==_of_eq (len lower) w (ml.has_width ∙ whole))
                (
                  _,
                  refl,
                  record {
                    has_width = ml.has_width ∙ whole;
                    has_value = λ e. ml.has_value e ∙ rw (nothing e) (omega arith);
                  },
                )
          | inr rest ↦
              let below : start + n < w = ground arith in
              let order : w - (start + n) + (start + n) ≡ w = omega arith in
              let (suffix, q, ms) =
                slice-Means mx {E = E} (start + n) (w - 1) (w - (start + n)) (omega arith)
                  (omega arith) (omega arith) in
              let big = concat-Means ms ml in
              let joined : Means w
                  (λ e.
                    f e / 2 ^ (start + n) % 2 ^ (w - (start + n)) * 2 ^ (start + n)
                    + (g e * 2 ^ start + f e % 2 ^ start))
                  (concat suffix lower) =
                record { has_width = big.has_width ∙ order; has_value = big.has_value } in
              rw (rest, q, ==_of_eq (len (concat suffix lower)) w joined.has_width)
                (_, refl, Means-congr joined (λ e. rw (high e) refl))
        ])
    where
      high : (e : b.Env) → f e / 2 ^ (start + n) % 2 ^ (w - (start + n)) ≡ f e / 2 ^ (start + n)
      high e =
          let order : w - (start + n) + (start + n) ≡ w = omega arith in
          let split = two_pow_add (w - (start + n)) (start + n) in
          mod-eq_of_lt
            ((div-lt_iff_lt-mul (pow-pos (start + n))).1 (rw (← split, order) (Means-lt mx e)))
