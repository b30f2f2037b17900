-- ===== src/Common/Outcomes.antt =====
-- What a Rust function with a `Result` type does: it returns, it returns an error, or it panics
-- (`assert!`, `unwrap`, `todo!`, an index out of range).
use mathlib.Core.Path.{◌≡◌}
use mathlib.Core.Bool.{Bool, true, false}
use mathlib.Core.Option.{Option, none, some}

pub data Outcome {ℓ} (E : Type 0) (A : Type ℓ) : Type ℓ where
  ok : A → Outcome E A
  err : E → Outcome E A
  panic : Outcome E A

-- The `?` operator, at one error type.
infixl 5 ◌>>=◌ ◌>>◌
abbrev pub ◌>>=◌ {ℓ κ} :
    {E : Type 0} {A : Type ℓ} {B : Type κ} → Outcome E A → (A → Outcome E B) → Outcome E B
ok a >>= f = f a
err e >>= f = err e
panic >>= f = panic

abbrev pub ◌>>◌ {ℓ} : {E : Type 0} {B : Type ℓ} → Outcome E (Unit {0}) → Outcome E B → Outcome E B
m >> k = m >>= λ _. k

-- `assert!`.
abbrev pub assert : {E : Type 0} → Bool → Outcome E (Unit {0})
assert true = ok tt
assert false = panic

-- `Option::unwrap`.
abbrev pub unwrap {ℓ} : {E : Type 0} {A : Type ℓ} → Option A → Outcome E A
unwrap (some a) = ok a
unwrap none = panic

-- `?` where the error is converted by `From`.
abbrev pub map_err {ℓ} : {E F : Type 0} {A : Type ℓ} → (E → F) → Outcome E A → Outcome F A
map_err f (ok a) = ok a
map_err f (err e) = err (f e)
map_err f panic = panic

-- The call returns, with a value of which `P` holds.
abbrev pub Returns {ℓ κ} : {E : Type 0} {A : Type ℓ} → Outcome E A → (A → Type κ) → Type (ℓ ⊔ κ)
Returns {A = A} o P = (a : A) × (o ≡ ok a) × P a

module _ {ℓ κ μ ν} {E : Type 0} {A : Type ℓ} {B : Type κ} where
  pub Returns-bind :
      {P : A → Type μ} {Q : B → Type ν} (o : Outcome E A) {f : A → Outcome E B}
      → Returns o P
      → ((a : A) → P a → Returns (f a) Q)
      → Returns (o >>= f) Q
  Returns-bind o (a, p, h) k = rw p (k a h)

module _ {ℓ κ μ} {E : Type 0} {A : Type ℓ} where
  pub Returns-mono :
      {P : A → Type κ} {Q : A → Type μ} {o : Outcome E A}
      → Returns o P
      → ((a : A) → P a → Q a)
      → Returns o Q
  Returns-mono (a, p, h) k = (a, p, k a h)
