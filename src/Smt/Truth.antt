-- ===== src/Smt/Truth.antt =====
-- Expressions of width 1 as truth values.
use mathlib.Core.Bool.{xor as xor_bool}
use symex.Common.{
  ◌-◌, ◌^◌, ◌≡◌, refl, Bool, true, false, not, ◌&&◌, ◌||◌, bit, bit_xor, ◌==◌, bit_and-bit,
  bit_or-bit, Returns,
}
use symex.Smt.Boolector.{Boolector}
use symex.Smt.Expr.{DExpr, not_expr, and, or, xor, eq, ne}
use symex.Smt.Means.{Means, Means-congr, and-Means, or-Means, xor-Means, eq-Means, ne-Means}
use symex.Smt.Resize.{not_expr-Means}

-- The expression is true under exactly the assignments that `t` is true of.
pub record Says ⦃b : Boolector⦄ (t : b.Env → Bool) (x : DExpr) : Type 0 where
  pub means : Means 1 (λ e. bit (t e)) x

bit-not : (t : Bool) → 2 ^ 1 - 1 - bit t ≡ bit (not t)
bit-not true = refl
bit-not false = refl

bit_xor-bit : (p q : Bool) → bit_xor (bit p) (bit q) ≡ bit (xor_bool p q)
unfolding xor_bool
bit_xor-bit true true = refl
bit_xor-bit true false = refl
bit_xor-bit false true = refl
bit_xor-bit false false = refl

same-bit : (p q : Bool) → bit (bit p == bit q) ≡ bit (not (xor_bool p q))
unfolding xor_bool
same-bit true true = refl
same-bit true false = refl
same-bit false true = refl
same-bit false false = refl

other-bit : (p q : Bool) → bit (not (bit p == bit q)) ≡ bit (xor_bool p q)
unfolding xor_bool
other-bit true true = refl
other-bit true false = refl
other-bit false true = refl
other-bit false false = refl

module _ ⦃b : Boolector⦄ {p : b.Env → Bool} {x : DExpr} (mx : Says p x) where
  pub not_expr-Says : Says (λ e. not (p e)) (not_expr x)
  not_expr-Says = record { means = Means-congr (not_expr-Means mx.means) (λ e. bit-not (p e)) }

  module _ {q : b.Env → Bool} {y : DExpr} (my : Says q y) where
    pub and-Says : Says (λ e. p e && q e) (and x y)
    and-Says = record {
      means = Means-congr (and-Means mx.means my.means) (λ e. bit_and-bit (p e) (q e));
    }

    pub or-Says : Says (λ e. p e || q e) (or x y)
    or-Says = record {
      means = Means-congr (or-Means mx.means my.means) (λ e. bit_or-bit (p e) (q e));
    }

    pub xor-Says : Says (λ e. xor_bool (p e) (q e)) (xor x y)
    xor-Says = record {
      means = Means-congr (xor-Means mx.means my.means) (λ e. bit_xor-bit (p e) (q e));
    }

    pub eq-Says : {E : Type 0} → Returns {E = E} (eq x y) (Says (λ e. not (xor_bool (p e) (q e))))
    eq-Says =
        let (r, o, m) = eq-Means mx.means my.means in
        (r, o, record { means = Means-congr m (λ e. same-bit (p e) (q e)) })

    pub ne-Says : {E : Type 0} → Returns {E = E} (ne x y) (Says (λ e. xor_bool (p e) (q e)))
    ne-Says =
        let (r, o, m) = ne-Means mx.means my.means in
        (r, o, record { means = Means-congr m (λ e. other-bit (p e) (q e)) })
