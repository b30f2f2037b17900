-- ===== src/Executor/Adder.antt =====
-- `add_with_carry` of symex/src/general_assembly/executor.rs, the adder behind the carry and
-- overflow flags, against the addition of numbers.
use symex.Common.{
  ℕ, ◌+◌, ◌-◌, ◌*◌, ◌%◌, ◌^◌, ◌≤◌, ◌<◌, ◌≡◌, ◌≢◌, ◌⊎◌, refl, sym, ap, ◌∙◌, not, ltb, leb, bit,
  bit_or, arith, Outcome, ok, ◌>>=◌, Returns, Returns-bind, Bool-cases, inl, inr, pow-pos,
  mod-eq_of_lt, pow-suc, suc, bit_or-bit,
}
use native.Mathlib.Nat.{mod_self, add-mod-mod, add_assoc}
use symex.Smt.Words.{half, add_overflows}
use symex.Smt.Boolector.{Boolector}
use symex.Smt.Expr.{DExpr, resize_unsigned, zero_ext, add, uaddo, saddo, or}
use symex.Smt.Means.{Means, Means-lt, Means-congr, add-Means, uaddo-Means, saddo-Means, or-Means}
use symex.Smt.Resize.{resize_unsigned-Means, zero_ext-Means}

pub record AddWithCarryResult ⦃b : Boolector⦄ : Type 0 where
  pub carry_out : DExpr
  pub overflow : DExpr
  pub result : DExpr

module _ ⦃b : Boolector⦄ where
  unfoldable pub add_with_carry :
      {E : Type 0} → DExpr → DExpr → DExpr → ℕ → Outcome E AddWithCarryResult
  add_with_carry op1 op2 carry_in word_size = do
    carry_in ← resize_unsigned carry_in 1
    extended ← zero_ext carry_in word_size
    c1 ← uaddo op2 extended
    extended ← zero_ext carry_in word_size
    op2 ← add op2 extended
    result ← add op1 op2
    c2 ← uaddo op1 op2
    overflow ← saddo op1 op2
    ok (record { carry_out = or c2 c1; overflow = overflow; result = result })

-- The word size is positive: the sign bit is half the range.
pub two_half : (w : ℕ) → 0 < w → 2 ^ w ≡ 2 * half w
two_half w h =
    let e : w ≡ suc (w - 1) = omega arith in
    (ap (λ (t : ℕ). 2 ^ t) e) ∙ (omega (arith, pow-suc 2 (w - 1)))

-- A sum that is at most the modulus wraps to itself or to zero.
abbrev Wraps : ℕ → ℕ → ℕ → Type 0
Wraps p s r = (s < p) × (r ≡ s) ⊎ (s ≡ p) × (r ≡ 0)

mod-Wraps : (p s : ℕ) → 0 < p → s ≤ p → Wraps p s (s % p)
mod-Wraps p s pos h = elim (Bool-cases (ltb s p)) [
  | inl less ↦ inl (ground arith, mod-eq_of_lt (ground arith))
  | inr same ↦ let e : s ≡ p = ground arith in inr (e, rw e (mod_self p))
]

-- The two carries of the two additions make up the carry of the whole.
carries :
    (p f g c r : ℕ)
    → f < p
    → g < p
    → c < 2
    → Wraps p (g + c) r
    → bit_or (bit (leb p (f + r))) (bit (leb p (g + c))) ≡ bit (leb p (f + g + c))
carries p f g c r hf hg hc (inl (lt, e)) = bit_or-bit _ _ ∙ ap bit (ground arith)
carries p f g c r hf hg hc (inr (eq, e)) = bit_or-bit _ _ ∙ ap bit (ground arith)

overflow_right :
    (h f g c r : ℕ)
    → f < 2 * h
    → g < 2 * h
    → c < 2
    → (g + c ≢ h) ⊎ (c ≡ 0)
    → Wraps (2 * h) (g + c) r
    → add_overflows h f r 0 ≡ add_overflows h f g c
overflow_right h f g c r hf hg hc ne (inl (lt, e)) = ground arith
overflow_right h f g c r hf hg hc ne (inr (eq, e)) = ground arith

overflow_wrong :
    (h f g c r : ℕ)
    → 0 < h
    → f < 2 * h
    → g + c ≡ h
    → c ≡ 1
    → Wraps (2 * h) (g + c) r
    → add_overflows h f r 0 ≡ not (add_overflows h f g c)
overflow_wrong h f g c r pos hf hg hc (inl (lt, e)) = ground arith
overflow_wrong h f g c r pos hf hg hc (inr (eq, e)) = absurd (omega arith)

-- The value of a carry bit given as an expression of any width: its lowest bit.
abbrev pub low_bit : ℕ → ℕ
low_bit c = c % 2 ^ 1

regroup : (f g c p : ℕ) → (f + (g + c) % p) % p ≡ (f + g + c) % p
regroup f g c p = add-mod-mod f (g + c) p ∙ ap (λ (t : ℕ). t % p) (sym (add_assoc f g c))

module _ ⦃b : Boolector⦄ where
  wraps :
      {w : ℕ} {g : b.Env → ℕ} {y : DExpr}
      → Means w g y
      → (c : b.Env → ℕ) → ((e : b.Env) → c e < 2)
      → (e : b.Env) → Wraps (2 ^ w) (g e + c e) ((g e + c e) % 2 ^ w)
  wraps {w} {g} my c hc e =
      mod-Wraps (2 ^ w) (g e + c e) (pow-pos w) (omega (arith, Means-lt my e, hc e))

  -- What the three results of the adder denote, for operands `f` and `g` and a carry `c`.
  pub record IsSum (w : ℕ) (f g c : b.Env → ℕ) (r : AddWithCarryResult) : Type 0 where
    pub result_means : Means w (λ e. (f e + g e + c e) % 2 ^ w) r.result
    pub carry_means : Means 1 (λ e. bit (leb (2 ^ w) (f e + g e + c e))) r.carry_out
    pub overflow_means :
        Means 1 (λ e. bit (add_overflows (half w) (f e) ((g e + c e) % 2 ^ w) 0)) r.overflow

  pub add_with_carry-IsSum :
      {E : Type 0} {w v : ℕ} {f g h : b.Env → ℕ} {x y z : DExpr}
      → 0 < w
      → Means w f x
      → Means w g y
      → Means v h z
      → Returns {E = E} (add_with_carry x y z w) (IsSum w f g (λ e. low_bit (h e)))
  unfolding add_with_carry
  add_with_carry-IsSum {E} {w} {v} {f} {g} {h} {x} {y} {z} pos mx my mz =
      Returns-bind _ (resize_unsigned-Means mz 1 (omega arith)) λ carry mc.
        Returns-bind _ (zero_ext-Means mc w pos) λ ext mext.
          Returns-bind _ (uaddo-Means my mext) λ c1 mc1.
            Returns-bind _ (zero_ext-Means mc w pos) λ ext' mext'.
              Returns-bind _ (add-Means my mext') λ y' my'.
                Returns-bind _ (add-Means mx my') λ r mr.
                  Returns-bind _ (uaddo-Means mx my') λ c2 mc2.
                    Returns-bind _ (saddo-Means mx my') λ o mo. (
                      _,
                      refl,
                      record {
                        result_means =
                            Means-congr mr (λ e. regroup (f e) (g e) (low_bit (h e)) (2 ^ w));
                        carry_means = Means-congr (or-Means mc2 mc1) (λ e.
                            carries (2 ^ w) (f e) (g e) (low_bit (h e)) _ (Means-lt mx e)
                              (Means-lt my e) (omega arith)
                              (wraps my (λ e. low_bit (h e)) (λ e. omega arith) e));
                        overflow_means = mo;
                      },
                    )

module _ ⦃b : Boolector⦄ where
  -- The sum of the operands and the carry, modulo the word, and the carry out of it.
  pub add_with_carry_adds :
      {E : Type 0} {w v : ℕ} {f g h : b.Env → ℕ} {x y z : DExpr}
      → 0 < w
      → Means w f x
      → Means w g y
      → Means v h z
      → Returns {E = E} (add_with_carry x y z w) (λ r.
        Means w (λ e. (f e + g e + low_bit (h e)) % 2 ^ w) r.result
        × Means 1 (λ e. bit (leb (2 ^ w) (f e + g e + low_bit (h e)))) r.carry_out)
  add_with_carry_adds pos mx my mz =
      let (r, p, s) = add_with_carry-IsSum pos mx my mz in (r, p, (s.result_means, s.carry_means))

  module _ {w v : ℕ} {f g h : b.Env → ℕ} {x y z : DExpr} (pos : 0 < w) (mx : Means w f x)
      (my : Means w g y) (mz : Means v h z) (e : b.Env) where
    -- The overflow bit is that of two's complement addition, unless adding the carry to the second
    -- operand is itself the overflow.
    pub add_with_carry-overflow :
        {E : Type 0}
        → (g e + low_bit (h e) ≢ half w) ⊎ (low_bit (h e) ≡ 0)
        → Returns {E = E}
            (add_with_carry x y z w)
            (λ r. b.value e r.overflow ≡ bit (add_overflows (half w) (f e) (g e) (low_bit (h e))))
    add_with_carry-overflow ne =
        let (r, p, s) = add_with_carry-IsSum pos mx my mz in
        (
          r,
          p,
          s.overflow_means.has_value e
              ∙ ap bit (
                  overflow_right (half w) (f e) (g e) (low_bit (h e)) _
                    (rw (← two_half w pos) (Means-lt mx e)) (rw (← two_half w pos) (Means-lt my e))
                    (omega arith) ne
                    (rw (← two_half w pos) (wraps my (λ e. low_bit (h e)) (λ e. omega arith) e))),
        )

    -- In that case the overflow bit is the opposite of the right one.
    pub add_with_carry-wrong_overflow :
        {E : Type 0}
        → g e + 1 ≡ half w
        → low_bit (h e) ≡ 1
        → Returns {E = E}
            (add_with_carry x y z w)
            (λ r. b.value e r.overflow ≡ bit (not (add_overflows (half w) (f e) (g e) 1)))
    add_with_carry-wrong_overflow eq one =
        let (r, p, s) = add_with_carry-IsSum pos mx my mz in
        (
          r,
          p,
          s.overflow_means.has_value e
              ∙ (rw one (
                  ap bit (
                    overflow_wrong (half w) (f e) (g e) 1 _ (pow-pos (w - 1))
                      (rw (← two_half w pos) (Means-lt mx e)) eq refl
                      (rw (← two_half w pos) (
                        mod-Wraps (2 ^ w) (g e + 1) (pow-pos w) (omega (arith, Means-lt my e))))))),
        )
