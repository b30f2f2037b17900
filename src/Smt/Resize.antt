-- ===== src/Smt/Resize.antt =====
-- The readings of the operations of one operand, and of the constants.
use native.Mathlib.Nat.{pow-le-pow_right, div-one, div-eq_of_lt, div-eq_of_lt-le}
use symex.Common.{
  ℕ, zero, suc, ◌+◌, ◌-◌, ◌*◌, ◌/◌, ◌%◌, ◌^◌, ◌≤◌, ◌<◌, ◌≡◌, refl, sym, ap, ◌∙◌, Bool, true, false,
  ltb, leb, ◌==◌, if◌then◌else◌, bit, arith, Returns, ==_of_eq, le→leb, lt→ltb, Bool-cases, inl,
  inr, pow-pos, mod-eq_of_lt, replicate, ◌∷◌, pow-suc, length, ==_of_ne,
}
use symex.Smt.Words.{half, sign_extended}
use symex.Smt.Boolector.{Boolector, binary_from}
use symex.Smt.Expr.{
  DExpr, zero_ext, sign_ext, slice, resize_unsigned, not_expr, concat, ite, from_u64, from_bool,
  zero_expr, unsigned_max, signed_max, signed_min,
}
use symex.Smt.Means.{Means, Means-lt, Means-congr}

pub below_of_le : (v m n : ℕ) → v < 2 ^ m → m ≤ n → v < 2 ^ n
below_of_le v m n h k = omega (arith, pow-le-pow_right {n = 2} (omega arith) k)

binary_from-ones : (n k : ℕ) → binary_from n (replicate k true) ≡ n * 2 ^ k + 2 ^ k - 1
binary_from-ones n zero = omega arith
binary_from-ones n (suc k) = omega (
  arith,
  binary_from-ones (2 * n + 1) k,
  pow-suc 2 k,
  ap (λ (t : ℕ). n * t) (pow-suc 2 k),
  pow-pos k,
)

binary_from-zeros : (n k : ℕ) → binary_from n (replicate k false) ≡ n * 2 ^ k
binary_from-zeros n zero = omega arith
binary_from-zeros n (suc k) =
    omega (arith, binary_from-zeros (2 * n + 0) k, pow-suc 2 k, ap (λ (t : ℕ). n * t) (pow-suc 2 k))

length-replicate : (k : ℕ) (d : Bool) → length (replicate k d) ≡ k
length-replicate zero d = refl
length-replicate (suc k) d = ap suc (length-replicate k d)

-- The sign bit says whether a word is in the upper half.
pub top_bit : (h v : ℕ) → 0 < h → v < 2 * h → v / h % 2 ≡ bit (leb h v)
top_bit h v pos fits = elim (Bool-cases (leb h v)) [
  | inl above ↦
      let e : v / h ≡ 1 = div-eq_of_lt-le h (ground arith) (ground arith) in rw (e, above) refl
  | inr below ↦ let e : v / h ≡ 0 = div-eq_of_lt (ground arith) in rw (e, below) refl
]

module _ ⦃b : Boolector⦄ where
  pub from_u64-Means : (v w : ℕ) → Means w (λ e. v % 2 ^ w) (from_u64 v w)
  unfolding from_u64
  from_u64-Means v w = let (p, q) = b.from_u64_means v w in record { has_width = p; has_value = q }

  pub zero_expr-Means : (w : ℕ) → Means w (λ e. 0) (zero_expr w)
  unfolding zero_expr
  zero_expr-Means w =
      let (p, q) = b.from_u64_means 0 w in
      record { has_width = p; has_value = λ e. q e ∙ mod-eq_of_lt (pow-pos w) }

  pub from_bool-Means : (t : Bool) → Means 1 (λ e. bit t) (from_bool t)
  unfolding from_bool
  from_bool-Means true =
      let (p, q) = b.from_u64_means 1 1 in record { has_width = p; has_value = q }
  from_bool-Means false =
      let (p, q) = b.from_u64_means 0 1 in record { has_width = p; has_value = q }

  pub unsigned_max-Means : (w : ℕ) → Means w (λ e. 2 ^ w - 1) (unsigned_max w)
  unfolding unsigned_max
  unsigned_max-Means w =
      let (p, q) = b.from_binary_str_means (replicate w true) in
      record {
        has_width = p ∙ length-replicate w true;
        has_value = λ e. q e ∙ (omega (arith, binary_from-ones 0 w));
      }

  pub signed_max-Means :
      {E : Type 0} (w : ℕ) → 1 < w → Returns {E = E} (signed_max w) (Means w (λ e. half w - 1))
  unfolding signed_max
  signed_max-Means w h =
      let (p, q) = b.from_binary_str_means (false ∷ replicate (w - 1) true) in
      rw (lt→ltb 1 w h) (
        _,
        refl,
        record {
          has_width = omega (arith, p, length-replicate (w - 1) true);
          has_value = λ e. omega (arith, q e, binary_from-ones 0 (w - 1));
        },
      )

  pub signed_min-Means :
      {E : Type 0} (w : ℕ) → 1 < w → Returns {E = E} (signed_min w) (Means w (λ e. half w))
  unfolding signed_min
  signed_min-Means w h =
      let (p, q) = b.from_binary_str_means (true ∷ replicate (w - 1) false) in
      rw (lt→ltb 1 w h) (
        _,
        refl,
        record {
          has_width = omega (arith, p, length-replicate (w - 1) false);
          has_value = λ e. omega (arith, q e, binary_from-zeros 1 (w - 1));
        },
      )

  module _ {w : ℕ} {f : b.Env → ℕ} {x : DExpr} (m : Means w f x) where
    pub not_expr-Means : Means w (λ e. 2 ^ w - 1 - f e) (not_expr x)
    unfolding not_expr
    not_expr-Means =
        let (p, q) = b.bv_not_means x in
        record {
          has_width = p ∙ m.has_width;
          has_value = λ e. rw (← m.has_width, ← m.has_value e) (q e);
        }

    pub zero_ext-Means : {E : Type 0} (n : ℕ) → w ≤ n → Returns {E = E} (zero_ext x n) (Means n f)
    unfolding zero_ext
    zero_ext-Means n h =
        rw (m.has_width, le→leb w n h)
          (elim (Bool-cases (ltb w n)) [
            | inl less ↦
                let (p, q) = b.uext_means x (n - w) in
                rw less (
                  _,
                  refl,
                  record {
                    has_width = omega (arith, p, m.has_width);
                    has_value = λ e. q e ∙ m.has_value e;
                  },
                )
            | inr same ↦ rw same (
              x,
              refl,
              record { has_width = ground (arith, m.has_width); has_value = m.has_value },
            )
          ])

    pub sign_ext-Means :
        {E : Type 0} (n : ℕ)
        → w < n
        → Returns {E = E} (sign_ext x n) (Means n (λ e. sign_extended w (n - w) (f e)))
    unfolding sign_ext
    sign_ext-Means n h =
        let (p, q) = b.sext_means x (n - w) in
        rw (m.has_width, le→leb w n (omega arith), lt→ltb w n h)
          (
            _,
            refl,
            record {
              has_width = omega (arith, p, m.has_width);
              has_value = λ e. rw (← m.has_value e) (rw m.has_width at (q e));
            },
          )

    pub slice-Means :
        {E : Type 0} (low high count : ℕ)
        → low ≤ high
        → high < w
        → high - low + 1 ≡ count
        → Returns {E = E} (slice x low high) (Means count (λ e. f e / 2 ^ low % 2 ^ count))
    unfolding slice
    slice-Means low high count h k c =
        let (p, q) = b.slice_means x high low h (rw m.has_width k) in
        rw (m.has_width, le→leb low high h, le→leb high w (omega arith), ← c)
          (_, refl, record { has_width = p; has_value = λ e. rw (← m.has_value e) (q e) })

    pub resize_unsigned-Means :
        {E : Type 0} (n : ℕ)
        → 0 < n
        → Returns {E = E} (resize_unsigned x n) (Means n (λ e. f e % 2 ^ n))
    unfolding resize_unsigned
    resize_unsigned-Means n h = elim (Bool-cases (w == n)) [
      | inl same ↦
          let fits = λ (e : b.Env). below_of_le (f e) w n (Means-lt m e) (ground arith) in
          rw (m.has_width, same)
            (
              x,
              refl,
              record {
                has_width = ground (arith, m.has_width);
                has_value = λ e. m.has_value e ∙ sym (mod-eq_of_lt (fits e));
              },
            )
      | inr diff ↦ elim (Bool-cases (ltb w n)) [
        | inl less ↦
            let fits = λ (e : b.Env). below_of_le (f e) w n (Means-lt m e) (ground arith) in
            let (r, p, mr) = zero_ext-Means n (ground arith) in
            rw (m.has_width, diff, less) (r, p, Means-congr mr (λ e. sym (mod-eq_of_lt (fits e))))
        | inr more ↦
            let (r, p, mr) = slice-Means 0 (n - 1) n (omega arith) (ground arith) (omega arith) in
            rw (m.has_width, diff, more, ==_of_ne n 0 (omega arith))
              (r, p, Means-congr mr (λ e. ap (λ (t : ℕ). t % 2 ^ n) (div-one (f e))))
      ]
    ]

    pub concat-Means :
        {v : ℕ} {g : b.Env → ℕ} {y : DExpr}
        → Means v g y
        → Means (w + v) (λ e. f e * 2 ^ v + g e) (concat x y)
    unfolding concat
    concat-Means {y} my =
        let (p, q) = b.concat_means x y in
        record {
          has_width = omega (arith, p, m.has_width, my.has_width);
          has_value = λ e. rw (← m.has_value e, ← my.has_value e, ← my.has_width) (q e);
        }

    pub ite-Means :
        {E : Type 0} {v : ℕ} {g h : b.Env → ℕ} {y z : DExpr}
        → w ≡ 1
        → Means v g y
        → Means v h z
        → Returns {E = E} (ite x y z) (Means v (λ e. if f e == 1 then g e else h e))
    unfolding ite
    ite-Means {y} {z} one my mz =
        let (p, q) = b.cond_bv_means x y z (m.has_width ∙ one) (my.has_width ∙ sym mz.has_width) in
        rw (m.has_width, ==_of_eq w 1 one)
          (
            _,
            refl,
            record {
              has_width = p ∙ my.has_width;
              has_value = λ e. rw (← m.has_value e, ← my.has_value e, ← mz.has_value e) (q e);
            },
          )
