-- ===== src/Smt/Saturating.antt =====
-- The saturating operations of symex/src/smt/smt_boolector/expr.rs.
use native.Mathlib.Nat.{mod-eq-sub-mod}
use symex.Common.{
  ℕ, suc, ◌+◌, ◌-◌, ◌/◌, ◌%◌, ◌^◌, ◌≤◌, ◌<◌, ◌≡◌, ◌⊎◌, inl, inr, refl, ap, ◌∙◌, Bool, true, false,
  not, ◌&&◌, min, ltb, leb, ◌==◌, if◌then◌else◌, bit, arith, Returns, Returns-bind, Returns-mono,
  Bool-cases, ==_of_eq, pow-pos, mod-eq_of_lt, pow-suc,
}
use symex.Smt.Words.{half, biased, add_overflows, sub_overflows}
use symex.Smt.Boolector.{Boolector}
use symex.Smt.Expr.{DExpr, simplify, uadds, usubs, sadds, ssubs}
use symex.Smt.Means.{
  Means, Means-lt, Means-congr, add-Means, sub-Means, uaddo-Means, saddo-Means, usubo-Means,
  ssubo-Means,
}
use symex.Smt.Resize.{
  top_bit, zero_expr-Means, unsigned_max-Means, signed_max-Means, signed_min-Means, slice-Means,
  ite-Means,
}

-- Choosing by a bit.
pick : (t : Bool) (x y : ℕ) → (if bit t == 1 then x else y) ≡ (if t then x else y)
pick true x y = refl
pick false x y = refl

wrapped : (p s : ℕ) → s < p + p → (s < p) × (s % p ≡ s) ⊎ (p ≤ s) × (s % p ≡ s - p)
wrapped p s h = elim (Bool-cases (ltb s p)) [
  | inl less ↦ inl (ground arith, mod-eq_of_lt (ground arith))
  | inr more ↦ inr (ground arith, mod-eq-sub-mod (ground arith) ∙ mod-eq_of_lt (ground arith))
]

saturated_sum :
    (p f g : ℕ)
    → f < p
    → g < p
    → (if leb p (f + g) then p - 1 else (f + g) % p) ≡ min (f + g) (p - 1)
saturated_sum p f g hf hg = elim (wrapped p (f + g) (omega arith)) [
  | inl (l, e) ↦ rw e (ground arith)
  | inr (l, e) ↦ rw e (ground arith)
]

saturated_difference :
    (p f g : ℕ) → f < p → g < p → (if ltb f g then 0 else (f + p - g) % p) ≡ f - g
saturated_difference p f g hf hg = elim (wrapped p (f + p - g) (omega arith)) [
  | inl (l, e) ↦ rw e (ground arith)
  | inr (l, e) ↦ rw e (ground arith)
]

-- The signed sum, clamped to the signed range, in biased numbers.
clamped_sum :
    (h f g : ℕ)
    → 0 < h
    → f < h + h
    → g < h + h
    → biased h (if add_overflows h f g 0 then (if leb h f then h else h - 1) else (f + g) % (h + h))
      ≡ min (biased h f + biased h g - h) (h + h - 1)
clamped_sum h f g pos hf hg = elim (wrapped (h + h) (f + g) (omega arith)) [
  | inl (l, e) ↦ rw e (ground arith)
  | inr (l, e) ↦ rw e (ground arith)
]

-- How a word and its biased number go together.
abbrev Biased : ℕ → ℕ → ℕ → Type 0
Biased h f v = (f < h) × (v ≡ f + h) ⊎ (h ≤ f) × (v ≡ f - h)

biased-Biased : (h f : ℕ) → Biased h f (biased h f)
biased-Biased h f = elim (Bool-cases (ltb f h)) [
  | inl less ↦ inl (ground arith, rw less refl)
  | inr more ↦ inr (ground arith, rw more refl)
]

clamped_case :
    (h f g u v r : ℕ)
    → 0 < h
    → f < h + h
    → g < h + h
    → Biased h f u
    → Biased h g v
    → (f + (h + h) - g < h + h) × (r ≡ f + (h + h) - g)
      ⊎ (h + h ≤ f + (h + h) - g) × (r ≡ f + (h + h) - g - (h + h))
    → biased h (if not (leb v (u + h) && ltb u (v + h)) then (if leb h f then h else h - 1) else r)
      ≡ min (u + h - v) (h + h - 1)
clamped_case h f g u v r pos hf hg (inl p) (inl q) (inl s) = ground arith
clamped_case h f g u v r pos hf hg (inl p) (inl q) (inr s) = ground arith
clamped_case h f g u v r pos hf hg (inl p) (inr q) (inl s) = ground arith
clamped_case h f g u v r pos hf hg (inl p) (inr q) (inr s) = ground arith
clamped_case h f g u v r pos hf hg (inr p) (inl q) (inl s) = ground arith
clamped_case h f g u v r pos hf hg (inr p) (inl q) (inr s) = ground arith
clamped_case h f g u v r pos hf hg (inr p) (inr q) (inl s) = ground arith
clamped_case h f g u v r pos hf hg (inr p) (inr q) (inr s) = ground arith

clamped_difference :
    (h f g : ℕ)
    → 0 < h
    → f < h + h
    → g < h + h
    → biased h (
        if sub_overflows h f g then (if leb h f then h else h - 1) else (f + (h + h) - g) % (h + h))
      ≡ min (biased h f + h - biased h g) (h + h - 1)
clamped_difference h f g pos hf hg =
    clamped_case h f g (biased h f) (biased h g) _ pos hf hg (biased-Biased h f) (biased-Biased h g)
      (wrapped (h + h) (f + (h + h) - g) (omega arith))

twice : (w : ℕ) → 1 < w → 2 ^ w ≡ half w + half w
twice w h =
    let e : w ≡ suc (w - 1) = omega arith in
    (ap (λ (t : ℕ). 2 ^ t) e) ∙ (omega (arith, pow-suc 2 (w - 1)))

-- The value chosen by the two bits, with the sign bit as a test.
picked :
    (w f m n r : ℕ) (t : Bool)
    → 1 < w
    → f < 2 ^ w
    → (if bit t == 1 then (if f / 2 ^ (w - 1) % 2 ^ 1 == 1 then m else n) else r)
      ≡ (if t then (if leb (half w) f then m else n) else r)
picked w f m n r t wide fits =
    pick t _ r
    ∙ ap (λ (z : ℕ). if t then z else r)
        (rw (top_bit (half w) f (pow-pos (w - 1)) (omega (arith, twice w wide)))
          (pick (leb (half w) f) m n))

module _ ⦃b : Boolector⦄ {E : Type 0} {w : ℕ} {f g : b.Env → ℕ} {x y : DExpr} (mx : Means w f x)
    (my : Means w g y) where
  -- Unsigned saturating addition gives the sum, and the greatest word where the sum is greater.
  pub uadds-saturates : Returns {E = E} (uadds x y) (Means w (λ e. min (f e + g e) (2 ^ w - 1)))
  unfolding uadds simplify
  uadds-saturates =
      rw (uadds, mx.has_width, my.has_width, ==_of_eq w w refl)
        (Returns-bind _ (add-Means mx my) λ r mr. Returns-bind _ (uaddo-Means mx my) λ o mo.
          Returns-mono (ite-Means mo refl (unsigned_max-Means w) mr) (λ x mx'. Means-congr mx' (λ e.
            pick (leb (2 ^ w) (f e + g e)) (2 ^ w - 1) ((f e + g e) % 2 ^ w)
            ∙ saturated_sum (2 ^ w) (f e) (g e) (Means-lt mx e) (Means-lt my e))))

  -- Unsigned saturating subtraction gives the difference, and zero where it is negative.
  pub usubs-saturates : Returns {E = E} (usubs x y) (Means w (λ e. f e - g e))
  unfolding usubs simplify
  usubs-saturates =
      rw (usubs, mx.has_width, my.has_width, ==_of_eq w w refl)
        (Returns-bind _ (sub-Means mx my) λ r mr. Returns-bind _ (usubo-Means mx my) λ o mo.
          Returns-mono (ite-Means mo refl (zero_expr-Means w) mr) (λ x mx'. Means-congr mx' (λ e.
            pick (ltb (f e) (g e)) 0 ((f e + 2 ^ w - g e) % 2 ^ w)
            ∙ saturated_difference (2 ^ w) (f e) (g e) (Means-lt mx e) (Means-lt my e))))

  module _ (wide : 1 < w) where
    -- Signed saturating addition gives the signed sum, clamped to the signed range. The numbers
    -- are biased: moved up by half the range, so that the least signed word is zero.
    pub sadds-saturates : Returns {E = E} (sadds x y) (λ r.
        (b.width r ≡ w)
        × ((e : b.Env)
            → biased (half w) (b.value e r)
              ≡ min (biased (half w) (f e) + biased (half w) (g e) - half w) (2 ^ w - 1)))
    unfolding sadds simplify
    sadds-saturates =
        rw (sadds, mx.has_width, my.has_width, ==_of_eq w w refl)
          (Returns-bind _ (add-Means mx my) λ r mr. Returns-bind _ (saddo-Means mx my) λ o mo.
            Returns-bind _ (signed_min-Means w wide) λ least ml.
              Returns-bind _ (signed_max-Means w wide) λ most mm.
                Returns-bind _
                  (slice-Means mx (w - 1) (w - 1) 1 (omega arith) (omega arith) (omega arith))
                  λ neg mneg. Returns-bind _ (ite-Means mneg refl ml mm) λ limit mlimit.
                    Returns-mono (ite-Means mo refl mlimit mr) (λ z mz. (
                      mz.has_width,
                      λ e.
                          ap (biased (half w)) (
                            mz.has_value e
                            ∙ picked w (f e) (half w) (half w - 1) ((f e + g e) % 2 ^ w)
                                (add_overflows (half w) (f e) (g e) 0) wide (Means-lt mx e))
                          ∙ rw (twice w wide) (
                              clamped_sum (half w) (f e) (g e) (pow-pos (w - 1))
                                (rw (← twice w wide) (Means-lt mx e))
                                (rw (← twice w wide) (Means-lt my e))),
                    )))

    -- Signed saturating subtraction gives the signed difference, clamped to the signed range, in
    -- biased numbers.
    pub ssubs-saturates : Returns {E = E} (ssubs x y) (λ r.
        (b.width r ≡ w)
        × ((e : b.Env)
            → biased (half w) (b.value e r)
              ≡ min (biased (half w) (f e) + half w - biased (half w) (g e)) (2 ^ w - 1)))
    unfolding ssubs simplify
    ssubs-saturates =
        rw (ssubs, mx.has_width, my.has_width, ==_of_eq w w refl)
          (Returns-bind _ (sub-Means mx my) λ r mr. Returns-bind _ (ssubo-Means mx my) λ o mo.
            Returns-bind _ (signed_min-Means w wide) λ least ml.
              Returns-bind _ (signed_max-Means w wide) λ most mm.
                Returns-bind _
                  (slice-Means mx (w - 1) (w - 1) 1 (omega arith) (omega arith) (omega arith))
                  λ neg mneg. Returns-bind _ (ite-Means mneg refl ml mm) λ limit mlimit.
                    Returns-mono (ite-Means mo refl mlimit mr) (λ z mz. (
                      mz.has_width,
                      λ e.
                          ap (biased (half w)) (
                            mz.has_value e
                            ∙ picked w (f e) (half w) (half w - 1) ((f e + 2 ^ w - g e) % 2 ^ w)
                                (sub_overflows (half w) (f e) (g e)) wide (Means-lt mx e))
                          ∙ rw (twice w wide) (
                              clamped_difference (half w) (f e) (g e) (pow-pos (w - 1))
                                (rw (← twice w wide) (Means-lt mx e))
                                (rw (← twice w wide) (Means-lt my e))),
                    )))
