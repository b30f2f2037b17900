-- ===== src/Smt/Means.antt =====
-- The reading of an expression: its width, and its value as a function of the assignment. Each
-- operation of `Expr` has one lemma that carries the readings of its operands over to its result.
use symex.Common.{
  ℕ, ◌+◌, ◌-◌, ◌*◌, ◌/◌, ◌%◌, ◌^◌, ◌<◌, ◌≡◌, refl, sym, ◌∙◌, not, ltb, leb, ◌==◌, bit, bit_and,
  bit_or, bit_xor, Returns, ==_of_eq,
}
use symex.Smt.Words.{half, add_overflows, sub_overflows}
use symex.Smt.Boolector.{Boolector, Denotes}
use symex.Smt.Expr.{
  DExpr, same_len, eq, ne, add, sub, mul, uaddo, saddo, usubo, ssubo, and, or, xor, sll, srl,
}

-- `x` has width `w`, and the value `f e` under each assignment `e`.
pub record Means ⦃b : Boolector⦄ (w : ℕ) (f : b.Env → ℕ) (x : DExpr) : Type 0 where
  pub has_width : b.width x ≡ w
  pub has_value : (e : b.Env) → b.value e x ≡ f e

module _ ⦃b : Boolector⦄ where
  pub Means-lt : {w : ℕ} {f : b.Env → ℕ} {x : DExpr} → Means w f x → (e : b.Env) → f e < 2 ^ w
  Means-lt {x} m e = rw (← m.has_width, ← m.has_value e) (b.value-lt e x)

  -- Equal functions are equal readings.
  pub Means-congr :
      {w : ℕ} {f g : b.Env → ℕ} {x : DExpr} → Means w f x → ((e : b.Env) → f e ≡ g e) → Means w g x
  Means-congr m h = record { has_width = m.has_width; has_value = λ e. m.has_value e ∙ h e }

  -- Every expression has a reading.
  pub Means-self : (x : DExpr) → Means (b.width x) (λ e. b.value e x) x
  Means-self x = record { has_width = refl; has_value = λ e. refl }

  -- From the semantics of a binary operation of the solver to readings.
  module _ {w : ℕ} {f g : b.Env → ℕ} {x y : DExpr} (mx : Means w f x) (my : Means w g y) where
    lift :
        (op : DExpr → DExpr → DExpr) (R : ℕ → ℕ) (F : ℕ → ℕ → ℕ → ℕ)
        → ((x y : DExpr)
            → b.width x ≡ b.width y
            → Denotes b.width b.value
                (R (b.width x))
                (λ e. F (b.width x) (b.value e x) (b.value e y))
                (op x y))
        → Means (R w) (λ e. F w (f e) (g e)) (op x y)
    lift op R F law =
        let (lw, lv) = law x y (mx.has_width ∙ sym my.has_width) in
        record {
          has_width = rw (← mx.has_width) lw;
          has_value = λ e. rw (← mx.has_width, ← mx.has_value e, ← my.has_value e) (lv e);
        }

    same_len-Returns :
        {E : Type 0} (op : DExpr → DExpr → DExpr) (P : DExpr → Type 0)
        → P (op x y)
        → Returns {E = E} (same_len op x y) P
    unfolding same_len
    same_len-Returns op P h = rw (==_of_eq _ _ (mx.has_width ∙ sym my.has_width)) (op x y, refl, h)

    pub add-Means : {E : Type 0} → Returns {E = E} (add x y) (Means w (λ e. (f e + g e) % 2 ^ w))
    unfolding add
    add-Means =
        same_len-Returns b.add _ (lift b.add (λ w. w) (λ w p q. (p + q) % 2 ^ w) b.add_means)

    pub sub-Means :
        {E : Type 0} → Returns {E = E} (sub x y) (Means w (λ e. (f e + 2 ^ w - g e) % 2 ^ w))
    unfolding sub
    sub-Means =
        same_len-Returns b.sub _
          (lift b.sub (λ w. w) (λ w p q. (p + 2 ^ w - q) % 2 ^ w) b.sub_means)

    pub mul-Means : {E : Type 0} → Returns {E = E} (mul x y) (Means w (λ e. f e * g e % 2 ^ w))
    unfolding mul
    mul-Means = same_len-Returns b.mul _ (lift b.mul (λ w. w) (λ w p q. p * q % 2 ^ w) b.mul_means)

    pub uaddo-Means :
        {E : Type 0} → Returns {E = E} (uaddo x y) (Means 1 (λ e. bit (leb (2 ^ w) (f e + g e))))
    unfolding uaddo
    uaddo-Means =
        same_len-Returns b.uaddo _
          (lift b.uaddo (λ w. 1) (λ w p q. bit (leb (2 ^ w) (p + q))) b.uaddo_means)

    pub saddo-Means :
        {E : Type 0}
        → Returns {E = E} (saddo x y) (Means 1 (λ e. bit (add_overflows (half w) (f e) (g e) 0)))
    unfolding saddo
    saddo-Means =
        same_len-Returns b.saddo _
          (lift b.saddo (λ w. 1) (λ w p q. bit (add_overflows (half w) p q 0)) b.saddo_means)

    pub usubo-Means :
        {E : Type 0} → Returns {E = E} (usubo x y) (Means 1 (λ e. bit (ltb (f e) (g e))))
    unfolding usubo
    usubo-Means =
        same_len-Returns b.usubo _ (lift b.usubo (λ w. 1) (λ w p q. bit (ltb p q)) b.usubo_means)

    pub ssubo-Means :
        {E : Type 0}
        → Returns {E = E} (ssubo x y) (Means 1 (λ e. bit (sub_overflows (half w) (f e) (g e))))
    unfolding ssubo
    ssubo-Means =
        same_len-Returns b.ssubo _
          (lift b.ssubo (λ w. 1) (λ w p q. bit (sub_overflows (half w) p q)) b.ssubo_means)

    pub eq-Means : {E : Type 0} → Returns {E = E} (eq x y) (Means 1 (λ e. bit (f e == g e)))
    unfolding eq
    eq-Means =
        same_len-Returns b.bv_eq _ (lift b.bv_eq (λ w. 1) (λ w p q. bit (p == q)) b.bv_eq_means)

    pub ne-Means : {E : Type 0} → Returns {E = E} (ne x y) (Means 1 (λ e. bit (not (f e == g e))))
    unfolding ne
    ne-Means =
        same_len-Returns b.bv_ne _
          (lift b.bv_ne (λ w. 1) (λ w p q. bit (not (p == q))) b.bv_ne_means)

    pub and-Means : Means w (λ e. bit_and (f e) (g e)) (and x y)
    unfolding and
    and-Means = lift b.bv_and (λ w. w) (λ w p q. bit_and p q) b.bv_and_means

    pub or-Means : Means w (λ e. bit_or (f e) (g e)) (or x y)
    unfolding or
    or-Means = lift b.bv_or (λ w. w) (λ w p q. bit_or p q) b.bv_or_means

    pub xor-Means : Means w (λ e. bit_xor (f e) (g e)) (xor x y)
    unfolding xor
    xor-Means = lift b.bv_xor (λ w. w) (λ w p q. bit_xor p q) b.bv_xor_means

    pub sll-Means : Means w (λ e. f e * 2 ^ g e % 2 ^ w) (sll x y)
    unfolding sll
    sll-Means = lift b.sll (λ w. w) (λ w p q. p * 2 ^ q % 2 ^ w) b.sll_means

    pub srl-Means : Means w (λ e. f e / 2 ^ g e) (srl x y)
    unfolding srl
    srl-Means = lift b.srl (λ w. w) (λ w p q. p / 2 ^ q) b.srl_means
