-- ===== src/Smt/Boolector.antt =====
-- The Boolector library, as far as symex/src/smt/smt_boolector calls it: bit-vector terms, their
-- values under an assignment of the variables, and the satisfiability check. It is foreign code,
-- so it is a parameter, with the semantics of SMT-LIB fixed-size bit vectors that its manual
-- gives. What an operation makes of operands of the wrong width is left open.
use Prim.Native.String.{String}
use symex.Common.{
  ℕ, ◌+◌, ◌-◌, ◌*◌, ◌/◌, ◌%◌, ◌^◌, ◌≤◌, ◌<◌, ◌≡◌, Bool, List, [], ◌∷◌, length, All, Option, some,
  bit, ltb, leb, ◌==◌, not, if◌then◌else◌, bit_and, bit_or, bit_xor,
}
use symex.Smt.Words.{half, add_overflows, sub_overflows, sign_extended}

-- A term of width `w` whose value under each assignment `e` is `f e`.
abbrev pub Denotes : {Bv Env : Type 0} → (Bv → ℕ) → (Env → Bv → ℕ) → ℕ → (Env → ℕ) → Bv → Type 0
Denotes {Env = Env} width value w f x = (width x ≡ w) × ((e : Env) → value e x ≡ f e)

-- The number that a string of binary digits stands for, the highest digit first.
abbrev pub binary_from : ℕ → List Bool → ℕ
binary_from n [] = n
binary_from n (d ∷ s) = binary_from (2 * n + bit d) s

abbrev pub binary : List Bool → ℕ
binary s = binary_from 0 s

-- `SolverResult`.
pub data SolverResult : Type 0 where
  sat unsat unknown : SolverResult

pub record Boolector : Type 1 where
  pub Bv : Type 0
  pub Env : Type 0
  pub width : Bv → ℕ
  pub value : Env → Bv → ℕ
  pub value-lt : (e : Env) (x : Bv) → value e x < 2 ^ width x
  -- `as_binary_str`: the value of a term that is a constant.
  pub constant : Bv → Option ℕ
  pub constant-value : (x : Bv) (v : ℕ) → constant x ≡ some v → (e : Env) → value e x ≡ v
  -- Building terms.
  pub from_u64 : ℕ → ℕ → Bv
  pub from_u64_means : (v w : ℕ) → Denotes width value w (λ e. v % 2 ^ w) (from_u64 v w)
  pub from_u64_constant : (v w : ℕ) → constant (from_u64 v w) ≡ some (v % 2 ^ w)
  -- A string of binary digits, the highest first.
  pub from_binary_str : List Bool → Bv
  pub from_binary_str_means :
      (s : List Bool) → Denotes width value (length s) (λ e. binary s) (from_binary_str s)
  pub from_binary_str_constant : (s : List Bool) → constant (from_binary_str s) ≡ some (binary s)
  pub fresh : ℕ → String → Bv
  pub fresh_width : (w : ℕ) (name : String) → width (fresh w name) ≡ w
  pub uext : Bv → ℕ → Bv
  pub uext_means : (x : Bv) (n : ℕ) → Denotes width value (width x + n) (λ e. value e x) (uext x n)
  pub sext : Bv → ℕ → Bv
  pub sext_means :
      (x : Bv) (n : ℕ)
      → Denotes width value (width x + n) (λ e. sign_extended (width x) n (value e x)) (sext x n)
  pub slice : Bv → ℕ → ℕ → Bv
  pub slice_means :
      (x : Bv) (high low : ℕ)
      → low ≤ high
      → high < width x
      → Denotes width value
          (high - low + 1)
          (λ e. value e x / 2 ^ low % 2 ^ (high - low + 1))
          (slice x high low)
  pub concat : Bv → Bv → Bv
  pub concat_means :
      (x y : Bv)
      → Denotes width value
          (width x + width y)
          (λ e. value e x * 2 ^ width y + value e y)
          (concat x y)
  pub cond_bv : Bv → Bv → Bv → Bv
  pub cond_bv_means :
      (c x y : Bv)
      → width c ≡ 1
      → width x ≡ width y
      → Denotes width value
          (width x)
          (λ e. if value e c == 1 then value e x else value e y)
          (cond_bv c x y)
  -- Arithmetic.
  pub add : Bv → Bv → Bv
  pub sub : Bv → Bv → Bv
  pub mul : Bv → Bv → Bv
  pub udiv : Bv → Bv → Bv
  pub add_means :
      (x y : Bv)
      → width x ≡ width y
      → Denotes width value (width x) (λ e. (value e x + value e y) % 2 ^ width x) (add x y)
  pub sub_means :
      (x y : Bv)
      → width x ≡ width y
      → Denotes width value
          (width x)
          (λ e. (value e x + 2 ^ width x - value e y) % 2 ^ width x)
          (sub x y)
  pub mul_means :
      (x y : Bv)
      → width x ≡ width y
      → Denotes width value (width x) (λ e. value e x * value e y % 2 ^ width x) (mul x y)
  pub udiv_means :
      (x y : Bv)
      → width x ≡ width y
      → Denotes width value
          (width x)
          (λ e. if value e y == 0 then 2 ^ width x - 1 else value e x / value e y)
          (udiv x y)
  pub sdiv : Bv → Bv → Bv
  pub urem : Bv → Bv → Bv
  pub srem : Bv → Bv → Bv
  -- Bits.
  pub bv_not : Bv → Bv
  pub bv_not_means :
      (x : Bv) → Denotes width value (width x) (λ e. 2 ^ width x - 1 - value e x) (bv_not x)
  pub bv_and : Bv → Bv → Bv
  pub bv_or : Bv → Bv → Bv
  pub bv_xor : Bv → Bv → Bv
  pub bv_and_means :
      (x y : Bv)
      → width x ≡ width y
      → Denotes width value (width x) (λ e. bit_and (value e x) (value e y)) (bv_and x y)
  pub bv_or_means :
      (x y : Bv)
      → width x ≡ width y
      → Denotes width value (width x) (λ e. bit_or (value e x) (value e y)) (bv_or x y)
  pub bv_xor_means :
      (x y : Bv)
      → width x ≡ width y
      → Denotes width value (width x) (λ e. bit_xor (value e x) (value e y)) (bv_xor x y)
  pub sll : Bv → Bv → Bv
  pub srl : Bv → Bv → Bv
  pub sra : Bv → Bv → Bv
  pub sll_means :
      (x y : Bv)
      → width x ≡ width y
      → Denotes width value (width x) (λ e. value e x * 2 ^ value e y % 2 ^ width x) (sll x y)
  pub srl_means :
      (x y : Bv)
      → width x ≡ width y
      → Denotes width value (width x) (λ e. value e x / 2 ^ value e y) (srl x y)
  -- Shifting the complement in zeroes is shifting the word in ones.
  pub sra_means :
      (x y : Bv)
      → width x ≡ width y
      → Denotes width value
          (width x)
          (λ e.
            if ltb (value e x) (half (width x))
            then value e x / 2 ^ value e y
            else 2 ^ width x - 1 - (2 ^ width x - 1 - value e x) / 2 ^ value e y)
          (sra x y)
  -- Tests, of width 1.
  pub bv_eq : Bv → Bv → Bv
  pub bv_ne : Bv → Bv → Bv
  pub ugt : Bv → Bv → Bv
  pub ugte : Bv → Bv → Bv
  pub ult : Bv → Bv → Bv
  pub ulte : Bv → Bv → Bv
  pub sgt : Bv → Bv → Bv
  pub sgte : Bv → Bv → Bv
  pub slt : Bv → Bv → Bv
  pub slte : Bv → Bv → Bv
  pub bv_eq_means :
      (x y : Bv)
      → width x ≡ width y
      → Denotes width value 1 (λ e. bit (value e x == value e y)) (bv_eq x y)
  pub bv_ne_means :
      (x y : Bv)
      → width x ≡ width y
      → Denotes width value 1 (λ e. bit (not (value e x == value e y))) (bv_ne x y)
  pub ult_means :
      (x y : Bv)
      → width x ≡ width y
      → Denotes width value 1 (λ e. bit (ltb (value e x) (value e y))) (ult x y)
  pub uaddo : Bv → Bv → Bv
  pub saddo : Bv → Bv → Bv
  pub usubo : Bv → Bv → Bv
  pub ssubo : Bv → Bv → Bv
  pub umulo : Bv → Bv → Bv
  pub smulo : Bv → Bv → Bv
  pub uaddo_means :
      (x y : Bv)
      → width x ≡ width y
      → Denotes width value 1 (λ e. bit (leb (2 ^ width x) (value e x + value e y))) (uaddo x y)
  pub saddo_means :
      (x y : Bv)
      → width x ≡ width y
      → Denotes width value 1
          (λ e. bit (add_overflows (half (width x)) (value e x) (value e y) 0))
          (saddo x y)
  pub usubo_means :
      (x y : Bv)
      → width x ≡ width y
      → Denotes width value 1 (λ e. bit (ltb (value e x) (value e y))) (usubo x y)
  pub ssubo_means :
      (x y : Bv)
      → width x ≡ width y
      → Denotes width value 1
          (λ e. bit (sub_overflows (half (width x)) (value e x) (value e y)))
          (ssubo x y)
  -- Arrays of words: `element` is the width of what they hold.
  pub Arr : Type 0
  pub element : Arr → ℕ
  pub read : Arr → Bv → Bv
  pub write : Arr → Bv → Bv → Arr
  pub array : ℕ → ℕ → String → Arr
  pub array-element : (index w : ℕ) (name : String) → element (array index w name) ≡ w
  pub read-width : (a : Arr) (i : Bv) → width (read a i) ≡ element a
  pub write-element : (a : Arr) (i x : Bv) → element (write a i x) ≡ element a
  pub read-congr :
      (e : Env) (a : Arr) (i j : Bv)
      → value e i ≡ value e j
      → value e (read a i) ≡ value e (read a j)
  pub read-write :
      (e : Env) (a : Arr) (i j x : Bv)
      → width x ≡ element a
      → value e (read (write a i x) j)
        ≡ (if value e i == value e j then value e x else value e (read a j))
  -- `sat`, under the conjunction of what is asserted and assumed, and the digits of a term in the
  -- model that the last `sat` found.
  pub check : List Bv → SolverResult
  pub solution : List Bv → Bv → List Bool
  pub solution-length : (cs : List Bv) (x : Bv) → length (solution cs x) ≡ width x
  pub check_sat :
      (cs : List Bv)
      → check cs ≡ sat
      → (e : Env) × All (λ c. value e c ≡ 1) cs × ((x : Bv) → binary (solution cs x) ≡ value e x)
  pub check_unsat : (cs : List Bv) → check cs ≡ unsat → (e : Env) → ¬ All (λ c. value e c ≡ 1) cs
