-- ===== src/Executor/Shifts.antt =====
-- The flags of shifts and rotations, the extensions and the bit fields: what the functions of
-- Executor.Values for these arms of `execute_operation` denote.
use native.Mathlib.Nat.{
  div-lt_iff_lt-mul, mod-eq-sub-mod, div-eq_of_lt-le, mul-div-mul_right, mod-lt, pow-le-pow_right,
}
use symex.Common.{
  ℕ, suc, ◌+◌, ◌-◌, ◌*◌, ◌/◌, ◌%◌, ◌^◌, ◌≤◌, ◌<◌, ◌≡◌, refl, ap, ◌∙◌, bit, leb, ◌==◌, inl, inr,
  arith, Returns, Returns-bind, Returns-mono, mod-eq_of_lt, pow-pos, pow-suc, mod_high, two_pow_add,
  bit_and_mask, bit_or-lt_two_pow, Bool-cases, lt→ltb,
}
use symex.Errors.{GaError}
use symex.Smt.Words.{half, sign_extended}
use symex.Smt.Boolector.{Boolector}
use symex.Smt.Expr.{DExpr, from_u64, simplify}
use symex.Smt.Means.{
  Means, Means-lt, Means-congr, sll-Means, srl-Means, and-Means, or-Means, eq-Means, sub-Means,
}
use symex.Smt.Resize.{
  top_bit, from_u64-Means, zero_expr-Means, zero_ext-Means, sign_ext-Means, resize_unsigned-Means,
  below_of_le,
}
use symex.Ga.Operation.{ror}
use symex.State.{GaState}
use symex.Executor.Adder.{two_half}
use symex.Executor.Count.{lt-two-pow}
use symex.Executor.Values.{
  shift_value, n_flag_value, z_flag_value, sign_extend_value, c_flag_shift_left_value,
  c_flag_srl_value, c_flag_ror_value, field_mask, bit_field_value,
}

-- The bit of weight `2 ^ w`, above the bits that are cut off.
bit_above : (w v : ℕ) → v % 2 ^ suc w / 2 ^ w % 2 ≡ v / 2 ^ w % 2
bit_above w v =
    let e : v % 2 ^ suc w / 2 ^ w ≡ v / 2 ^ w % 2 =
      div-eq_of_lt-le (2 ^ w) (omega (arith, mod_high w v, pow-pos w))
        (omega (arith, mod_high w v, mod-lt v (pow-pos w))) in
    rw e (omega arith)

-- Moving up by `g` and taking the bit `w` is taking the bit `w - g`.
up_and_down : (w g v : ℕ) → g ≤ w → v * 2 ^ g / 2 ^ w ≡ v / 2 ^ (w - g)
up_and_down w g v h =
    let e : 2 ^ w ≡ 2 ^ (w - g) * 2 ^ g =
      ap (λ (t : ℕ). 2 ^ t) (let s : w ≡ w - g + g = omega arith in s) ∙ two_pow_add (w - g) g in
    rw e (mul-div-mul_right v (2 ^ (w - g)) (pow-pos g))

shifted_down : (w v g : ℕ) → g ≤ w → v < 2 ^ w → v / 2 ^ g < 2 ^ (w - g)
shifted_down w v g h fits =
    let split : 2 ^ w ≡ 2 ^ (w - g) * 2 ^ g =
      ap (λ (t : ℕ). 2 ^ t) (let s : w ≡ w - g + g = omega arith in s) ∙ two_pow_add (w - g) g in
    (div-lt_iff_lt-mul (pow-pos g)).1 (rw split at fits)

-- An immediate that fits its width.
fits_word : (k w : ℕ) → k ≤ w → k % 2 ^ w ≡ k
fits_word k w h = mod-eq_of_lt (omega (arith, lt-two-pow w))

field_mask-mask :
    ⦃b : Boolector⦄
    → (w start stop : ℕ) → start ≤ stop
    → stop - start < 63
    → Returns {E = GaError} (field_mask w start stop) (λ mask. mask ≡ 2 ^ (stop - start + 1) - 1)
unfolding field_mask
field_mask-mask w start stop le narrow = elim (Bool-cases (start == stop)) [
  | inl same ↦ let e : stop - start + 1 ≡ 1 = ground arith in rw (same, e) (1, refl, refl)
  | inr other ↦ rw (other, lt→ltb (stop - start + 1) 64 (omega arith)) (_, refl, refl)
]

below_mask : (w count : ℕ) → count ≤ w → 2 ^ count - 1 < 2 ^ w
below_mask w count h =
    omega (arith, pow-pos count, pow-le-pow_right {n = 2} (omega arith) {i = count} {j = w} h)

shift_left_bit :
    (w f g : ℕ)
    → g ≤ w
    → f * 2 ^ g % 2 ^ (1 + w) / 2 ^ (w % 2 ^ (1 + w)) % 2 ^ 1 ≡ f / 2 ^ (w - g) % 2
shift_left_bit w f g h =
    let plus : 1 + w ≡ suc w = omega arith in
    rw (fits_word w (1 + w) (omega arith), plus)
      (bit_above w (f * 2 ^ g) ∙ ap (λ (t : ℕ). t % 2) (up_and_down w g f h))

shift_right_bit :
    (w f g : ℕ)
    → 0 < g
    → f < 2 ^ w
    → f * 2 ^ (1 % 2 ^ (1 + w)) % 2 ^ (1 + w) / 2 ^ g % 2 ^ 1 ≡ f / 2 ^ (g - 1) % 2
shift_right_bit w f g h fits =
    let plus : 1 + w ≡ suc w = omega arith in
    let inside : f * 2 ^ 1 < 2 ^ (1 + w) = rw plus (omega (arith, pow-suc 2 w)) in
    let down : 2 ^ g ≡ 2 ^ (g - 1) * 2 ^ 1 =
      ap (λ (t : ℕ). 2 ^ t) (let s : g ≡ g - 1 + 1 = omega arith in s) ∙ two_pow_add (g - 1) 1 in
    rw (fits_word 1 (1 + w) (omega arith), mod-eq_of_lt inside, down)
      (ap (λ (t : ℕ). t % 2) (mul-div-mul_right f (2 ^ (g - 1)) (omega arith)))

module _ ⦃b : Boolector⦄ {w : ℕ} {f : b.Env → ℕ} {x : DExpr} (pos : 0 < w) (mx : Means w f x) where
  -- The zero flag says that the word is zero.
  pub z_flag_value-zero : Returns (z_flag_value w x) (Means 1 (λ e. bit (f e == 0)))
  unfolding z_flag_value
  z_flag_value-zero = eq-Means mx (zero_expr-Means w)

  -- The carry flag of a rotation is the sign bit of its result.
  pub c_flag_ror_value-top :
      Returns (c_flag_ror_value w x) (Means 1 (λ e. bit (leb (half w) (f e))))
  unfolding c_flag_ror_value
  c_flag_ror_value-top =
      let m = resize_unsigned-Means (srl-Means mx (from_u64-Means (w - 1) w)) 1 (omega arith) in
      Returns-mono m (λ r m. Means-congr m (λ e.
        rw (fits_word (w - 1) w (omega arith))
          (top_bit (half w) (f e) (pow-pos (w - 1)) (rw (← two_half w pos) (Means-lt mx e)))))

  -- Sign extension takes the low bits of the word as a signed number.
  pub sign_extend_value-extends :
      (bits : ℕ)
      → 0 < bits
      → bits < w
      → Returns
          (sign_extend_value w x bits)
          (Means w (λ e. sign_extended bits (w - bits) (f e % 2 ^ bits)))
  unfolding sign_extend_value
  sign_extend_value-extends bits some_bits fewer =
      Returns-bind _ (resize_unsigned-Means mx bits some_bits) λ low ml. sign_ext-Means ml w fewer

  -- The bits from `start` to `stop`, both included, moved down to the bottom.
  pub bit_field_value-bits :
      (start stop : ℕ)
      → start ≤ stop
      → stop < w
      → stop - start < 63
      → Returns
          (bit_field_value w x start stop)
          (Means w (λ e. f e / 2 ^ start % 2 ^ (stop - start + 1)))
  unfolding bit_field_value simplify
  bit_field_value-bits start stop le lt narrow =
      let count = stop - start + 1 in
      Returns-bind _ (field_mask-mask w start stop le narrow) λ mask em. (
        _,
        refl,
        Means-congr (and-Means (srl-Means mx (from_u64-Means start w)) (from_u64-Means mask w))
            (λ e.
              rw
                (
                  fits_word start w (omega arith),
                  em,
                  mod-eq_of_lt (below_mask w count (omega arith)),
                )
                (bit_and_mask count (f e / 2 ^ start))),
      )

module _ ⦃b : Boolector⦄ {f : b.Env → ℕ} {x : DExpr} (mx : Means 32 f x) where
  -- On a 32-bit word the negative flag is the sign bit.
  pub n_flag_value-top : Returns (n_flag_value 32 x) (Means 1 (λ e. bit (leb (half 32) (f e))))
  unfolding n_flag_value
  n_flag_value-top =
      Returns-mono (resize_unsigned-Means (srl-Means mx (from_u64-Means 31 32)) 1 (omega arith))
        (λ r m. Means-congr m (λ e. top_bit (half 32) (f e) (omega arith) (Means-lt mx e)))

module _ ⦃b : Boolector⦄ {w : ℕ} {f g : b.Env → ℕ} {x y : DExpr} (pos : 0 < w) (mx : Means w f x)
    (my : Means w g y) (e : b.Env) where
  -- The carry flag of a shift to the left is the last bit that leaves the word.
  pub c_flag_shift_left_value-last :
      g e ≤ w → Returns (c_flag_shift_left_value w x y) (λ r. b.value e r ≡ f e / 2 ^ (w - g e) % 2)
  unfolding c_flag_shift_left_value
  c_flag_shift_left_value-last le =
      let plus : w + 1 ≡ 1 + w = omega arith in
      let word : Means (1 + w) (λ e. w % 2 ^ (1 + w)) (from_u64 w (w + 1)) =
        rw plus (from_u64-Means w (1 + w)) in
      Returns-bind _ (zero_ext-Means mx (1 + w) (omega arith)) λ op mo.
        Returns-bind _ (zero_ext-Means my (1 + w) (omega arith)) λ s ms.
          Returns-mono (resize_unsigned-Means (srl-Means (sll-Means mo ms) word) 1 (omega arith))
            (λ r m. m.has_value e ∙ shift_left_bit w (f e) (g e) le)

  -- The carry flag of a logical shift to the right is the last bit that leaves the word.
  pub c_flag_srl_value-last :
      0 < g e → Returns (c_flag_srl_value w x y) (λ r. b.value e r ≡ f e / 2 ^ (g e - 1) % 2)
  unfolding c_flag_srl_value
  c_flag_srl_value-last some_shift =
      Returns-bind _ (zero_ext-Means mx (1 + w) (omega arith)) λ wide mo.
        Returns-bind _ (zero_ext-Means my (1 + w) (omega arith)) λ s ms.
          Returns-mono
            (resize_unsigned-Means (srl-Means (sll-Means mo (from_u64-Means 1 (1 + w))) ms) 1
              (omega arith))
            (λ r m. m.has_value e ∙ shift_right_bit w (f e) (g e) some_shift (Means-lt mx e))

  -- A rotation right by `g` bits, up to half the word, leaves the `g` upper bits zero, whatever
  -- the bits are that leave the word at the bottom.
  pub shift_value-ror :
      (s : GaState)
      → 0 < g e
      → 2 * g e ≤ w
      → Returns (shift_value w ror x y s) (λ r. b.value e r < 2 ^ (w - g e))
  unfolding shift_value
  shift_value-ror s some_shift half_way =
      let size = fits_word w w (omega arith) in
      let rest : (w % 2 ^ w + 2 ^ w - g e) % 2 ^ w ≡ w - g e = rw size (
        mod-eq-sub-mod (omega arith)
        ∙ (let back : w + 2 ^ w - g e - 2 ^ w ≡ w - g e = omega arith in
            rw back (mod-eq_of_lt (omega (arith, lt-two-pow w))))) in
      let kept = shifted_down w (f e) (g e) (omega arith) (Means-lt mx e) in
      let low : f e / 2 ^ (w - g e) < 2 ^ (w - g e) =
        below_of_le _ (g e) (w - g e)
          (rw (let back : w - (w - g e) ≡ g e = omega arith in back) at
            (shifted_down w (f e) (w - g e) (omega arith) (Means-lt mx e)))
          (omega arith) in
      Returns-bind _ (sub-Means (from_u64-Means w w) my) λ r m. (
        _,
        refl,
        rw ((or-Means (srl-Means mx my) (srl-Means mx m)).has_value e, rest)
            (bit_or-lt_two_pow (w - g e) _ _ kept low),
      )
