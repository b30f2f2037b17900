-- ===== src/Executor/Subtract.antt =====
-- The carry and overflow flags of a subtraction, and the sum of `Adc`: the arms `SetCFlag`,
-- `SetVFlag` and `Adc` of symex/src/general_assembly/executor.rs.
use symex.Common.{
  ℕ, ◌+◌, ◌-◌, ◌*◌, ◌%◌, ◌^◌, ◌<◌, ◌≡◌, ◌≢◌, refl, ap, ◌∙◌, Bool, true, false, not, bit, leb, inl,
  arith, some, lookup, Returns, Returns-bind, mod-eq_of_lt,
}
use symex.Smt.Words.{half, add_overflows, sub_overflows}
use symex.Smt.Boolector.{Boolector}
use symex.Smt.Expr.{DExpr}
use symex.Smt.Means.{Means, Means-lt, Means-congr}
use symex.Smt.Resize.{not_expr-Means, from_u64-Means, zero_ext-Means}
use symex.State.{GaState}
use symex.State.Flags.{get_flag}
use symex.Executor.Adder.{
  low_bit, two_half, add_with_carry_adds, add_with_carry-overflow, add_with_carry-wrong_overflow,
}
use symex.Executor.Count.{lt-two-pow}
use symex.Executor.Values.{c_flag_value, v_flag_value, adc_value}

-- The carry-in of a subtraction is one.
one_carry : (w : ℕ) → 0 < w → low_bit (1 % 2 ^ w) ≡ 1
one_carry w pos = let e : 1 % 2 ^ w ≡ 1 = mod-eq_of_lt (omega (arith, lt-two-pow w)) in rw e refl

no_borrow : (p f g : ℕ) → g < p → leb p (f + (p - 1 - g) + 1) ≡ leb g f
no_borrow p f g h = ground arith

-- Adding the complement and one overflows as the subtraction does.
complement_overflows :
    (h f g : ℕ) → f < 2 * h → g < 2 * h → add_overflows h f (2 * h - 1 - g) 1 ≡ sub_overflows h f g
complement_overflows h f g hf hg = ground arith

plain_complement :
    (w f g : ℕ)
    → 0 < w
    → f < 2 ^ w
    → g < 2 ^ w
    → add_overflows (half w) f (2 ^ w - 1 - g) 1 ≡ sub_overflows (half w) f g
plain_complement w f g pos hf hg =
    rw (two_half w pos)
      (complement_overflows (half w) f g (rw (← two_half w pos) hf) (rw (← two_half w pos) hg))

complement :
    (w f g : ℕ)
    → 0 < w
    → f < 2 ^ w
    → g < 2 ^ w
    → add_overflows (half w) f (2 ^ w - 1 - g) (low_bit (1 % 2 ^ w)) ≡ sub_overflows (half w) f g
complement w f g pos hf hg = rw (one_carry w pos) (plain_complement w f g pos hf hg)

low_bit_of : (s c p : ℕ) → c < 2 ^ 1 → (s + low_bit c) % p ≡ (s + c) % p
low_bit_of s c p h = let e : c % 2 ≡ c = omega arith in rw e

module _ ⦃b : Boolector⦄ {w : ℕ} {f g : b.Env → ℕ} {x y : DExpr} (pos : 0 < w) (mx : Means w f x)
    (my : Means w g y) (s : GaState) where
  -- The carry flag of a subtraction is the absence of a borrow.
  pub c_flag_value-sub :
      Returns (c_flag_value w true false x y s) (Means 1 (λ e. bit (leb (g e) (f e))))
  unfolding c_flag_value
  c_flag_value-sub =
      Returns-bind _ (add_with_carry_adds pos mx (not_expr-Means my) (from_u64-Means 1 w)) λ r m. (
        r.carry_out,
        refl,
        Means-congr m.1
            (λ e. rw (one_carry w pos) (ap bit (no_borrow (2 ^ w) (f e) (g e) (Means-lt my e)))),
      )

  module _ (e : b.Env) where
    -- The overflow flag of a subtraction is that of two's complement, unless the second operand is
    -- the least number.
    pub v_flag_value-sub :
        g e ≢ half w
        → Returns
            (v_flag_value w true false x y s)
            (λ r. b.value e r ≡ bit (sub_overflows (half w) (f e) (g e)))
    unfolding v_flag_value
    v_flag_value-sub ne =
        let other : 2 ^ w - 1 - g e + low_bit (1 % 2 ^ w) ≢ half w =
          omega (arith, one_carry w pos, two_half w pos, Means-lt my e) in
        Returns-bind _
          (add_with_carry-overflow pos mx (not_expr-Means my) (from_u64-Means 1 w) e (inl other))
          λ r m. (
            r.overflow,
            refl,
            m ∙ ap bit (complement w (f e) (g e) pos (Means-lt mx e) (Means-lt my e)),
          )

    -- For the least number it is wrong.
    pub v_flag_value-least :
        g e ≡ half w
        → Returns
            (v_flag_value w true false x y s)
            (λ r. b.value e r ≡ bit (not (sub_overflows (half w) (f e) (g e))))
    unfolding v_flag_value
    v_flag_value-least eq =
        let same : 2 ^ w - 1 - g e + 1 ≡ half w = omega (arith, two_half w pos, Means-lt my e) in
        Returns-bind _
          (add_with_carry-wrong_overflow pos mx (not_expr-Means my) (from_u64-Means 1 w) e same
            (one_carry w pos))
          λ r m. (
            r.overflow,
            refl,
            m
                ∙ ap (λ (t : Bool). bit (not t))
                    (plain_complement w (f e) (g e) pos (Means-lt mx e) (Means-lt my e)),
          )

module _ ⦃b : Boolector⦄ {w : ℕ} {f g c : b.Env → ℕ} {x y z : DExpr} (pos : 0 < w)
    (mx : Means w f x) (my : Means w g y) (s : GaState) (flag : lookup "C" s.flags ≡ some z)
    (mz : Means 1 c z) where
  -- `Adc` adds the two operands and the carry flag.
  pub adc_value-adds : Returns (adc_value w x y s) (Means w (λ e. (f e + g e + c e) % 2 ^ w))
  unfolding adc_value get_flag
  adc_value-adds = rw flag (
      Returns-bind _ (zero_ext-Means mz w pos) λ z' mz'.
        Returns-bind _ (add_with_carry_adds pos mx my mz') λ r m. (
          r.result,
          refl,
          Means-congr m.0 (λ e. low_bit_of (f e + g e) (c e) (2 ^ w) (Means-lt mz e)),
        ))
