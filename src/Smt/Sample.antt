-- ===== src/Smt/Sample.antt =====
-- A small Boolector, which shows that the assumptions of `Boolector` can be met: a term is a word
-- under each of two assignments, `true` and `false`, and the check tries both.
use native.Mathlib.Nat.{mod-mod, mod-lt, div-le_self, mul-le-mul_right, pow-le-pow_right}
use symex.Common.{
  ℕ, ◌+◌, ◌-◌, ◌*◌, ◌/◌, ◌%◌, ◌^◌, ◌≤◌, ◌<◌, ◌≡◌, refl, ap, ◌∙◌, Bool, true, false, not, ◌&&◌, List,
  [], ◌∷◌, length, All, Option, none, some, bit, ltb, leb, ◌==◌, if◌then◌else◌, bit_and, bit_or,
  bit_xor, arith, pow-pos, mod-eq_of_lt, bit_and-lt_two_pow, bit_or-lt_two_pow, bit_xor-lt_two_pow,
  two_pow_add, Bool-cases, inl, inr, ==_refl,
}
use symex.Smt.Words.{half, biased, add_overflows, sub_overflows, sign_extended}
use symex.Smt.Digits.{digits_of, length-digits_of, binary_from-digits_of, binary-lt}
use symex.Smt.Boolector.{Boolector, Denotes, binary, SolverResult, sat, unsat}

pub record Term : Type 0 where
  pub width : ℕ
  pub at : Bool → ℕ

abbrev pub value : Bool → Term → ℕ
value e x = x.at e % 2 ^ x.width

-- An array, by its cells under each assignment.
pub record Cells : Type 0 where
  pub element : ℕ
  pub cell : Bool → ℕ → ℕ

-- A term given by its value under each assignment.
abbrev pub term : ℕ → (Bool → ℕ) → Term
term w f = record { width = w; at = f }

pub value-lt : (e : Bool) (x : Term) → value e x < 2 ^ x.width
value-lt e x = mod-lt (x.at e) (pow-pos x.width)

-- A term denotes the function that it is made of, where that stays in the word.
pub denotes :
    (w : ℕ) (f : Bool → ℕ)
    → ((e : Bool) → f e < 2 ^ w)
    → Denotes (λ x. x.width) value w f (term w f)
denotes w f h = (refl, λ e. mod-eq_of_lt (h e))

pub mod-Denotes :
    (w : ℕ) (f : Bool → ℕ)
    → Denotes (λ x. x.width) value w (λ e. f e % 2 ^ w) (term w (λ e. f e % 2 ^ w))
mod-Denotes w f = denotes w (λ e. f e % 2 ^ w) (λ e. mod-lt (f e) (pow-pos w))

pub bit-Denotes :
    (f : Bool → Bool) → Denotes (λ x. x.width) value 1 (λ e. bit (f e)) (term 1 (λ e. bit (f e)))
bit-Denotes f = denotes 1 (λ e. bit (f e)) (λ e. bit-lt (f e))
  where
    bit-lt : (t : Bool) → bit t < 2 ^ 1
    bit-lt true = omega arith
    bit-lt false = omega arith

abbrev pub both : (ℕ → ℕ → ℕ → ℕ) → Term → Term → Term
both f x y = term x.width (λ e. f x.width (value e x) (value e y))

abbrev pub test : (ℕ → ℕ → ℕ → Bool) → Term → Term → Term
test f x y = term 1 (λ e. bit (f x.width (value e x) (value e y)))

abbrev pub constant : Term → Option ℕ
constant x = if value true x == value false x then some (value true x) else none

pub constant-value : (x : Term) (v : ℕ) → constant x ≡ some v → (e : Bool) → value e x ≡ v
constant-value x v h true = ground arith
constant-value x v h false = ground arith

abbrev pub holds : Bool → List Term → Bool
holds e [] = true
holds e (c ∷ cs) = (value e c == 1) && holds e cs

abbrev pub check : List Term → SolverResult
check cs = if holds true cs then sat else if holds false cs then sat else unsat

abbrev pub solution : List Term → Term → List Bool
solution cs x = digits_of x.width (if holds true cs then value true x else value false x)

holds-All : (e : Bool) (cs : List Term) → holds e cs ≡ true → All (λ c. value e c ≡ 1) cs
holds-All e [] h = tt
holds-All e (c ∷ cs) h = (ground arith, holds-All e cs (ground arith))

All-holds : (e : Bool) (cs : List Term) → All (λ c. value e c ≡ 1) cs → holds e cs ≡ true
All-holds e [] h = refl
All-holds e (c ∷ cs) h = ground (arith, All-holds e cs h.1)

binary-digits_of : (e : Bool) (x : Term) → binary (digits_of x.width (value e x)) ≡ value e x
binary-digits_of e x =
    let sum : 0 * 2 ^ x.width + value e x % 2 ^ x.width ≡ value e x % 2 ^ x.width = omega arith in
    binary_from-digits_of x.width (value e x) 0 ∙ sum ∙ mod-mod (x.at e) (2 ^ x.width)

pub check_sat :
    (cs : List Term)
    → check cs ≡ sat
    → (e : Bool) × All (λ c. value e c ≡ 1) cs × ((x : Term) → binary (solution cs x) ≡ value e x)
check_sat cs h = elim (Bool-cases (holds true cs)) [
  | inl t ↦ (true, holds-All true cs t, λ x. rw t (binary-digits_of true x))
  | inr f ↦ (false, holds-All false cs (ground arith), λ x. rw f (binary-digits_of false x))
]

pub check_unsat : (cs : List Term) → check cs ≡ unsat → (e : Bool) → ¬ All (λ c. value e c ≡ 1) cs
check_unsat cs h true all = ground (arith, All-holds true cs all)
check_unsat cs h false all = ground (arith, All-holds false cs all)

pub below_of_div : (w p q : ℕ) → p < 2 ^ w → p / 2 ^ q < 2 ^ w
below_of_div w p q h = omega (arith, div-le_self p (2 ^ q))

shift_in_ones : (w p q : ℕ) → 2 ^ w - 1 - (2 ^ w - 1 - p) / 2 ^ q < 2 ^ w
shift_in_ones w p q = omega (arith, pow-pos w)

pub concat-lt : (v w p q : ℕ) → p < 2 ^ v → q < 2 ^ w → p * 2 ^ w + q < 2 ^ (v + w)
concat-lt v w p q hp hq =
    let rows : (p + 1) * 2 ^ w ≤ 2 ^ v * 2 ^ w = mul-le-mul_right (2 ^ w) (omega arith) in
    omega (arith, two_pow_add v w, rows)

pub sext-lt : (w n v : ℕ) → v < 2 ^ w → sign_extended w n v < 2 ^ (w + n)
sext-lt w n v h =
    ground (arith, pow-le-pow_right {n = 2} (omega arith) {i = w} {j = w + n} (omega arith))

abbrev pub uext : Term → ℕ → Term
uext x n = term (x.width + n) (λ e. value e x)

abbrev pub sext : Term → ℕ → Term
sext x n = term (x.width + n) (λ e. sign_extended x.width n (value e x))

abbrev pub slice : Term → ℕ → ℕ → Term
slice x high low = term (high - low + 1) (λ e. value e x / 2 ^ low % 2 ^ (high - low + 1))

abbrev pub concat : Term → Term → Term
concat x y = term (x.width + y.width) (λ e. value e x * 2 ^ y.width + value e y)

abbrev pub cond_bv : Term → Term → Term → Term
cond_bv c x y = term x.width (λ e. if value e c == 1 then value e x else value e y)

pub if-lt : (t : Bool) (x y n : ℕ) → x < n → y < n → (if t then x else y) < n
if-lt true x y n hx hy = hx
if-lt false x y n hx hy = hy

abbrev pub udiv_value : ℕ → ℕ → ℕ → ℕ
udiv_value w p q = if q == 0 then 2 ^ w - 1 else p / q

pub udiv-lt : (w p q : ℕ) → p < 2 ^ w → udiv_value w p q < 2 ^ w
udiv-lt w p q h =
    if-lt (q == 0) _ _ (2 ^ w) (omega (arith, pow-pos w)) (omega (arith, div-le_self p q))

abbrev pub read : Cells → Term → Term
read a i = term a.element (λ e. a.cell e (value e i))

abbrev pub write : Cells → Term → Term → Cells
write a i x = record {
  element = a.element;
  cell = λ e k. if value e i == k then value e x else a.cell e k;
}

pub read-write :
    (e : Bool) (a : Cells) (i j x : Term)
    → x.width ≡ a.element
    → value e (read (write a i x) j)
      ≡ (if value e i == value e j then value e x else value e (read a j))
read-write e a i j x h = elim (Bool-cases (value e i == value e j)) [
  | inl same ↦ rw (same, ← h) (mod-mod (x.at e) (2 ^ x.width))
  | inr other ↦ rw other
]

pub from_binary-constant :
    (s : List Bool) → constant (term (length s) (λ e. binary s)) ≡ some (binary s)
from_binary-constant s = rw (==_refl (binary s % 2 ^ length s), mod-eq_of_lt (binary-lt s))

pub uext-lt : (w n v : ℕ) → v < 2 ^ w → v < 2 ^ (w + n)
uext-lt w n v h =
    omega (arith, pow-le-pow_right {n = 2} (omega arith) {i = w} {j = w + n} (omega arith))

pub from_u64-constant : (v w : ℕ) → constant (term w (λ e. v % 2 ^ w)) ≡ some (v % 2 ^ w)
from_u64-constant v w = rw (mod-mod v (2 ^ w), ==_refl (v % 2 ^ w))

abbrev pub sra_value : ℕ → ℕ → ℕ → ℕ
sra_value w p q = if ltb p (half w) then p / 2 ^ q else 2 ^ w - 1 - (2 ^ w - 1 - p) / 2 ^ q

pub sra-lt : (w p q : ℕ) → p < 2 ^ w → sra_value w p q < 2 ^ w
sra-lt w p q h = if-lt (ltb p (half w)) _ _ (2 ^ w) (below_of_div w p q h) (shift_in_ones w p q)

instance abbrev pub two_worlds : Boolector
two_worlds = record {
  Bv = Term;
  Env = Bool;
  width = λ x. x.width;
  value = value;
  value-lt = value-lt;
  constant = constant;
  constant-value = constant-value;
  from_u64 = λ v w. term w (λ e. v % 2 ^ w);
  from_u64_means = λ v w. mod-Denotes w (λ e. v);
  from_u64_constant = λ v w. from_u64-constant v w;
  from_binary_str = λ s. term (length s) (λ e. binary s);
  from_binary_str_means = λ s. denotes (length s) (λ e. binary s) (λ e. binary-lt s);
  from_binary_str_constant = λ s. from_binary-constant s;
  fresh = λ w name. term w (λ e. bit e);
  fresh_width = λ w name. refl;
  uext = uext;
  uext_means = λ x n.
      denotes (x.width + n) (λ e. value e x) (λ e. uext-lt x.width n (value e x) (value-lt e x));
  sext = sext;
  sext_means = λ x n.
      denotes (x.width + n) (λ e. sign_extended x.width n (value e x))
        (λ e. sext-lt x.width n (value e x) (value-lt e x));
  slice = slice;
  slice_means = λ x high low h k. mod-Denotes (high - low + 1) (λ e. value e x / 2 ^ low);
  concat = concat;
  concat_means = λ x y.
      denotes (x.width + y.width) (λ e. value e x * 2 ^ y.width + value e y)
        (λ e. concat-lt x.width y.width _ _ (value-lt e x) (value-lt e y));
  cond_bv = cond_bv;
  cond_bv_means = λ c x y h k.
      denotes x.width (λ e. if value e c == 1 then value e x else value e y)
        (λ e. if-lt (value e c == 1) _ _ (2 ^ x.width) (value-lt e x) (rw k (value-lt e y)));
  add = both (λ w p q. (p + q) % 2 ^ w);
  add_means = λ x y h. mod-Denotes x.width (λ e. (value e x + value e y));
  sub = both (λ w p q. (p + 2 ^ w - q) % 2 ^ w);
  sub_means = λ x y h. mod-Denotes x.width (λ e. (value e x + 2 ^ x.width - value e y));
  mul = both (λ w p q. p * q % 2 ^ w);
  mul_means = λ x y h. mod-Denotes x.width (λ e. (value e x * value e y));
  udiv = both (λ w p q. if q == 0 then 2 ^ w - 1 else p / q);
  udiv_means = λ x y h.
      denotes x.width (λ e. if value e y == 0 then 2 ^ x.width - 1 else value e x / value e y)
        (λ e. udiv-lt x.width _ (value e y) (value-lt e x));
  sdiv = both (λ w p q. p);
  urem = both (λ w p q. p % q);
  srem = both (λ w p q. p % q);
  bv_not = λ x. term x.width (λ e. 2 ^ x.width - 1 - value e x);
  bv_not_means =
      λ x. denotes x.width (λ e. 2 ^ x.width - 1 - value e x) (λ e. omega (arith, pow-pos x.width));
  bv_and = both (λ w p q. bit_and p q);
  bv_and_means = λ x y h.
      denotes x.width (λ e. bit_and (value e x) (value e y))
        (λ e. bit_and-lt_two_pow x.width _ _ (value-lt e x));
  bv_or = both (λ w p q. bit_or p q);
  bv_or_means = λ x y h.
      denotes x.width (λ e. bit_or (value e x) (value e y))
        (λ e. bit_or-lt_two_pow x.width _ _ (value-lt e x) (rw h (value-lt e y)));
  bv_xor = both (λ w p q. bit_xor p q);
  bv_xor_means = λ x y h.
      denotes x.width (λ e. bit_xor (value e x) (value e y))
        (λ e. bit_xor-lt_two_pow x.width _ _ (value-lt e x) (rw h (value-lt e y)));
  sll = both (λ w p q. p * 2 ^ q % 2 ^ w);
  sll_means = λ x y h. mod-Denotes x.width (λ e. value e x * 2 ^ value e y);
  srl = both (λ w p q. p / 2 ^ q);
  srl_means = λ x y h.
      denotes x.width (λ e. value e x / 2 ^ value e y)
        (λ e. below_of_div x.width _ (value e y) (value-lt e x));
  sra = both sra_value;
  sra_means = λ x y h.
      denotes x.width (λ e. sra_value x.width (value e x) (value e y))
        (λ e. sra-lt x.width _ (value e y) (value-lt e x));
  bv_eq = test (λ w p q. p == q);
  bv_eq_means = λ x y h. bit-Denotes (λ e. (value e x) == (value e y));
  bv_ne = test (λ w p q. not (p == q));
  bv_ne_means = λ x y h. bit-Denotes (λ e. not ((value e x) == (value e y)));
  ult = test (λ w p q. ltb p q);
  ult_means = λ x y h. bit-Denotes (λ e. ltb (value e x) (value e y));
  uaddo = test (λ w p q. leb (2 ^ w) (p + q));
  uaddo_means = λ x y h. bit-Denotes (λ e. leb (2 ^ x.width) ((value e x) + (value e y)));
  saddo = test (λ w p q. add_overflows (half w) p q 0);
  saddo_means = λ x y h. bit-Denotes (λ e. add_overflows (half x.width) (value e x) (value e y) 0);
  usubo = test (λ w p q. ltb p q);
  usubo_means = λ x y h. bit-Denotes (λ e. ltb (value e x) (value e y));
  ssubo = test (λ w p q. sub_overflows (half w) p q);
  ssubo_means = λ x y h. bit-Denotes (λ e. sub_overflows (half x.width) (value e x) (value e y));
  ugt = test (λ w p q. ltb q p);
  ugte = test (λ w p q. leb q p);
  ulte = test (λ w p q. leb p q);
  sgt = test (λ w p q. ltb (biased (half w) q) (biased (half w) p));
  sgte = test (λ w p q. leb (biased (half w) q) (biased (half w) p));
  slt = test (λ w p q. ltb (biased (half w) p) (biased (half w) q));
  slte = test (λ w p q. leb (biased (half w) p) (biased (half w) q));
  umulo = test (λ w p q. leb (2 ^ w) (p * q));
  smulo = test (λ w p q. leb (2 ^ w) (p * q));
  Arr = Cells;
  element = λ a. a.element;
  read = read;
  write = write;
  array = λ index w name. record { element = w; cell = λ e i. 0 };
  array-element = λ index w name. refl;
  read-width = λ a i. refl;
  write-element = λ a i x. refl;
  read-congr = λ e a i j h. ap (λ (t : ℕ). a.cell e t % 2 ^ a.element) h;
  read-write = read-write;
  check = check;
  solution = solution;
  solution-length = λ cs x. length-digits_of x.width _;
  check_sat = check_sat;
  check_unsat = check_unsat;
}
