-- ===== src/Smt/Expr.antt =====
-- symex/src/smt/smt_boolector/expr.rs: the expressions that the executors compute with, with the
-- asserts of each operation. symex/src/smt/smt_boolector/mod.rs: the constants.
use Prim.Native.String.{String}
use symex.Common.{
  ℕ, ◌+◌, ◌-◌, ◌^◌, Bool, ◌∷◌, replicate, true, false, not, Option, none, some, ltb, leb, ◌==◌,
  if◌then◌else◌, Outcome, ok, panic, ◌>>=◌, ◌>>◌, assert,
}
use symex.Smt.Boolector.{Boolector}

-- `BoolectorExpr`, which the code calls `DExpr`.
abbrev pub DExpr : ⦃b : Boolector⦄ → Type 0
DExpr ⦃b⦄ = b.Bv

module _ ⦃b : Boolector⦄ where
  abbrev pub len : DExpr → ℕ
  len x = b.width x

  unfoldable pub zero_ext : {E : Type 0} → DExpr → ℕ → Outcome E DExpr
  zero_ext x width = do
    assert (leb (len x) width)
    if ltb (len x) width then ok (b.uext x (width - len x)) else ok x

  unfoldable pub sign_ext : {E : Type 0} → DExpr → ℕ → Outcome E DExpr
  sign_ext x width = do
    assert (leb (len x) width)
    if ltb (len x) width then ok (b.sext x (width - len x)) else ok x

  unfoldable pub slice : {E : Type 0} → DExpr → ℕ → ℕ → Outcome E DExpr
  slice x low high = do assert (leb low high); assert (leb high (len x)); ok (b.slice x high low)

  -- `width - 1` on `u32` panics at 0 where overflow checks are on.
  unfoldable pub resize_unsigned : {E : Type 0} → DExpr → ℕ → Outcome E DExpr
  resize_unsigned x width =
      if len x == width
      then ok x
      else if ltb (len x) width
      then zero_ext x width
      else if width == 0
      then panic
      else slice x 0 (width - 1)

  -- `assert_eq!(self.len(), other.len())`, in front of a call of the solver.
  unfoldable pub same_len : {E : Type 0} → (DExpr → DExpr → DExpr) → DExpr → DExpr → Outcome E DExpr
  same_len op x y = do assert (len x == len y); ok (op x y)

  unfoldable pub eq : {E : Type 0} → DExpr → DExpr → Outcome E DExpr
  unfolding same_len
  eq = same_len b.bv_eq

  unfoldable pub ne : {E : Type 0} → DExpr → DExpr → Outcome E DExpr
  unfolding same_len
  ne = same_len b.bv_ne

  unfoldable pub ult : {E : Type 0} → DExpr → DExpr → Outcome E DExpr
  unfolding same_len
  ult = same_len b.ult

  unfoldable pub add : {E : Type 0} → DExpr → DExpr → Outcome E DExpr
  unfolding same_len
  add = same_len b.add

  unfoldable pub sub : {E : Type 0} → DExpr → DExpr → Outcome E DExpr
  unfolding same_len
  sub = same_len b.sub

  unfoldable pub mul : {E : Type 0} → DExpr → DExpr → Outcome E DExpr
  unfolding same_len
  mul = same_len b.mul

  unfoldable pub udiv : {E : Type 0} → DExpr → DExpr → Outcome E DExpr
  unfolding same_len
  udiv = same_len b.udiv

  unfoldable pub sdiv : {E : Type 0} → DExpr → DExpr → Outcome E DExpr
  unfolding same_len
  sdiv = same_len b.sdiv

  unfoldable pub srem : {E : Type 0} → DExpr → DExpr → Outcome E DExpr
  unfolding same_len
  srem = same_len b.srem

  unfoldable pub uaddo : {E : Type 0} → DExpr → DExpr → Outcome E DExpr
  unfolding same_len
  uaddo = same_len b.uaddo

  unfoldable pub saddo : {E : Type 0} → DExpr → DExpr → Outcome E DExpr
  unfolding same_len
  saddo = same_len b.saddo

  unfoldable pub usubo : {E : Type 0} → DExpr → DExpr → Outcome E DExpr
  unfolding same_len
  usubo = same_len b.usubo

  unfoldable pub ssubo : {E : Type 0} → DExpr → DExpr → Outcome E DExpr
  unfolding same_len
  ssubo = same_len b.ssubo

  -- These have no assert.
  unfoldable pub not_expr : DExpr → DExpr
  not_expr x = b.bv_not x

  unfoldable pub and : DExpr → DExpr → DExpr
  and x y = b.bv_and x y

  unfoldable pub or : DExpr → DExpr → DExpr
  or x y = b.bv_or x y

  unfoldable pub xor : DExpr → DExpr → DExpr
  xor x y = b.bv_xor x y

  unfoldable pub sll : DExpr → DExpr → DExpr
  sll x y = b.sll x y

  unfoldable pub srl : DExpr → DExpr → DExpr
  srl x y = b.srl x y

  unfoldable pub sra : DExpr → DExpr → DExpr
  sra x y = b.sra x y

  unfoldable pub concat : DExpr → DExpr → DExpr
  concat x y = b.concat x y

  unfoldable pub ite : {E : Type 0} → DExpr → DExpr → DExpr → Outcome E DExpr
  ite c x y = do assert (len c == 1); ok (b.cond_bv c x y)

  unfoldable pub simplify : DExpr → DExpr
  simplify x = x

  -- A binary string of more than 64 digits may not parse as a `u64`: `unwrap` panics then.
  unfoldable pub get_constant : {E : Type 0} → DExpr → Outcome E (Option ℕ)
  get_constant x = elim (b.constant x) [
    | none ↦ ok none
    | some v ↦ if ltb v (2 ^ 64) then ok (some v) else panic
  ]

  unfoldable pub get_constant_bool : {E : Type 0} → DExpr → Outcome E (Option Bool)
  get_constant_bool x = do
    assert (len x == 1)
    elim (b.constant x) [ none ↦ ok none | some v ↦ ok (some (not (v == 0))) ]

  -- Constants.
  unfoldable pub from_u64 : ℕ → ℕ → DExpr
  from_u64 v bits = b.from_u64 v bits

  unfoldable pub zero_expr : ℕ → DExpr
  zero_expr bits = b.from_u64 0 bits

  unfoldable pub one : ℕ → DExpr
  one bits = b.from_u64 1 bits

  unfoldable pub from_bool : Bool → DExpr
  from_bool true = b.from_u64 1 1
  from_bool false = b.from_u64 0 1

  unfoldable pub unsigned_max : ℕ → DExpr
  unsigned_max bits = b.from_binary_str (replicate bits true)

  unfoldable pub signed_max : {E : Type 0} → ℕ → Outcome E DExpr
  signed_max bits = do
    assert (ltb 1 bits)
    ok (b.from_binary_str (false ∷ replicate (bits - 1) true))

  unfoldable pub signed_min : {E : Type 0} → ℕ → Outcome E DExpr
  signed_min bits = do
    assert (ltb 1 bits)
    ok (b.from_binary_str (true ∷ replicate (bits - 1) false))

  unfoldable pub unconstrained : ℕ → String → DExpr
  unconstrained bits name = b.fresh bits name

  -- Bits `start_idx ..` of `x`, as many as `replace_with` has, replaced.
  unfoldable pub replace_part : {E : Type 0} → DExpr → ℕ → DExpr → Outcome E DExpr
  replace_part x start_idx replace_with = do
    let end_idx = start_idx + len replace_with
    assert (leb end_idx (len x))
    value ←
        if start_idx == 0
        then ok replace_with
        else (slice x 0 (start_idx - 1) >>= λ prefix. ok (concat replace_with prefix))
    value ←
        if end_idx == len x
        then ok value
        else (slice x end_idx (len x - 1) >>= λ suffix. ok (concat suffix value))
    assert (len value == len x)
    ok value

  -- The saturating operations.
  unfoldable pub uadds : {E : Type 0} → DExpr → DExpr → Outcome E DExpr
  uadds x y = do
    assert (len x == len y)
    result ← add x y
    overflow ← uaddo x y
    let saturated = unsigned_max (len x)
    ite (simplify overflow) saturated (simplify result)

  unfoldable pub sadds : {E : Type 0} → DExpr → DExpr → Outcome E DExpr
  sadds x y = do
    assert (len x == len y)
    let width = len x
    result ← add x y
    overflow ← saddo x y
    min ← signed_min width
    max ← signed_max width
    is_negative ← slice x (len x - 1) (len x - 1)
    limit ← ite (simplify is_negative) min max
    ite (simplify overflow) limit (simplify result)

  unfoldable pub usubs : {E : Type 0} → DExpr → DExpr → Outcome E DExpr
  usubs x y = do
    assert (len x == len y)
    result ← sub x y
    overflow ← usubo x y
    ite (simplify overflow) (zero_expr (len x)) (simplify result)

  unfoldable pub ssubs : {E : Type 0} → DExpr → DExpr → Outcome E DExpr
  ssubs x y = do
    assert (len x == len y)
    result ← sub x y
    overflow ← ssubo x y
    let width = len x
    min ← signed_min width
    max ← signed_max width
    is_negative ← slice x (len x - 1) (len x - 1)
    limit ← ite (simplify is_negative) min max
    ite (simplify overflow) limit (simplify result)
