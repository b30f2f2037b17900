-- ===== src/Common/Bits.antt =====
-- The laws of the native bit operations, from the equation for the lowest digit.
use Prim.Native.Nat.{ℕ, zero, suc, ◌+◌, ◌-◌, ◌*◌, ◌/◌, ◌%◌, ◌^◌, ◌≤◌, ◌<◌, min, max}
use Prim.Native.Nat.{bit_and, bit_or, bit_xor, digits, bitwise, differ}
use Prim.Native.Nat.{bit_and-bitwise, bit_or-bitwise, bit_xor-bitwise}
use mathlib.Core.Path.{◌≡◌, refl, ap, sym}
use mathlib.Core.Bool.{Bool, true, false, ◌&&◌, ◌||◌}
use native.Mathlib.Omega.{arith}
use symex.Common.Tests.{bit}
use native.Mathlib.Nat.{pow-suc, one-le-pow, mul_comm, div-div-eq-div-mul, div-add-mod}

-- Fuel beyond the number itself changes nothing, so the lowest digit can be split off.
module _ (rest : ℕ → ℕ) (digit : ℕ → ℕ → ℕ) where
  enough :
      (bound fuel x y : ℕ)
      → fuel ≤ bound
      → x ≤ fuel
      → digits rest digit fuel x y ≡ digits rest digit x x y
  enough bound zero zero y within big = refl
  enough bound (suc fuel) zero y within big = refl
  enough bound zero (suc x) y within big = absurd (omega arith)
  enough zero (suc fuel) (suc x) y within big = absurd (omega arith)
  enough (suc bound) (suc fuel) (suc x) y within big =
      rw
        (
          enough bound fuel (suc x / 2) (y / 2) (omega arith) (omega arith),
          enough bound x (suc x / 2) (y / 2) (omega arith) (omega arith),
        )
        refl

  lowest :
      (x y : ℕ)
      → bitwise rest digit (suc x) y
        ≡ digit (suc x % 2) (y % 2) + 2 * bitwise rest digit (suc x / 2) (y / 2)
  lowest x y = omega (arith, enough x x (suc x / 2) (y / 2) (omega arith) (omega arith))

pub bit_xor_step : (x y : ℕ) → bit_xor x y ≡ differ (x % 2) (y % 2) + 2 * bit_xor (x / 2) (y / 2)
bit_xor_step zero y = simp bit_xor-bitwise (omega arith)
bit_xor_step (suc x) y = simp bit_xor-bitwise (lowest (λ v. v) differ x y)

pub bit_and_step : (x y : ℕ) → bit_and x y ≡ min (x % 2) (y % 2) + 2 * bit_and (x / 2) (y / 2)
bit_and_step zero y = simp bit_and-bitwise (omega arith)
bit_and_step (suc x) y = simp bit_and-bitwise (lowest (λ v. 0) min x y)

pub bit_or_step : (x y : ℕ) → bit_or x y ≡ max (x % 2) (y % 2) + 2 * bit_or (x / 2) (y / 2)
bit_or_step zero y = simp bit_or-bitwise (omega arith)
bit_or_step (suc x) y = simp bit_or-bitwise (lowest (λ v. v) max x y)

-- Nothing is in common with zero.
common_zero : (bound x : ℕ) → x ≤ bound → bit_and x 0 ≡ 0
common_zero zero x within = let none : x ≡ 0 = omega arith in rw none refl
common_zero (suc bound) zero within = refl
common_zero (suc bound) (suc x) within =
    let rest = common_zero bound (suc x / 2) (omega arith) in
    omega (arith, rest, bit_and_step (suc x) 0)

pub bit_and-zero : (x : ℕ) → bit_and x 0 ≡ 0
bit_and-zero x = common_zero x x (omega arith)

pub bit_and-zero_left : (a : ℕ) → bit_and 0 a ≡ 0
bit_and-zero_left a = bit_and-bitwise 0 a

pub bit_and-one : (a : ℕ) → bit_and a 1 ≡ a % 2
bit_and-one a = omega (arith, bit_and_step a 1, bit_and-zero (a / 2))

pub pow-pos : (k : ℕ) → 0 < 2 ^ k
pow-pos k = one-le-pow k 2 (omega arith)

pub mod-pow-suc : (k a : ℕ) → a % 2 ^ suc k ≡ a / 2 % 2 ^ k * 2 + a % 2
mod-pow-suc k a =
    let q : a / (2 ^ k * 2) ≡ a / 2 / 2 ^ k =
      rw (mul_comm (2 ^ k) 2) (sym (div-div-eq-div-mul a 2 (2 ^ k))) in
    rw (pow-suc 2 k) (
      omega (
        arith,
        ap (λ (t : ℕ). 2 ^ k * t) q,
        div-add-mod a (2 ^ k * 2),
        div-add-mod (a / 2) (2 ^ k),
      ))

-- The highest of `n + 1` bits, taken off.
pub mod_high : (n v : ℕ) → v % 2 ^ suc n ≡ v / 2 ^ n % 2 * 2 ^ n + v % 2 ^ n
mod_high zero v = omega arith
mod_high (suc n) v =
    let top : v / 2 ^ suc n ≡ v / 2 / 2 ^ n =
      rw (pow-suc 2 n, mul_comm (2 ^ n) 2) (sym (div-div-eq-div-mul v 2 (2 ^ n))) in
    rw top (
      omega (
        arith,
        mod-pow-suc (suc n) v,
        mod-pow-suc n v,
        mod_high n (v / 2),
        ap (λ (t : ℕ). v / 2 / 2 ^ n % 2 * t) (pow-suc 2 n),
      ))

-- A mask of `k` low bits is the remainder by `2 ^ k`.
pub bit_and_mask : (k a : ℕ) → bit_and a (2 ^ k - 1) ≡ a % 2 ^ k
bit_and_mask zero a = omega (arith, bit_and-zero a)
bit_and_mask (suc k) a =
    let half : (2 ^ suc k - 1) / 2 ≡ 2 ^ k - 1 = omega (arith, pow-suc 2 k, pow-pos k) in
    let rest : bit_and (a / 2) ((2 ^ suc k - 1) / 2) ≡ a / 2 % 2 ^ k =
      rw half (bit_and_mask k (a / 2)) in
    omega (arith, bit_and_step a (2 ^ suc k - 1), rest, mod-pow-suc k a, pow-suc 2 k, pow-pos k)

pub two_pow_add : (v w : ℕ) → 2 ^ (v + w) ≡ 2 ^ v * 2 ^ w
two_pow_add zero w = let e : 0 + w ≡ w = omega arith in rw e (omega arith)
two_pow_add (suc v) w =
    let e : suc v + w ≡ suc (v + w) = omega arith in
    rw e
      (omega (arith, pow-suc 2 (v + w), two_pow_add v w, ap (λ (t : ℕ). t * 2 ^ w) (pow-suc 2 v)))

-- The operations keep the width of their operands.
pub bit_and-lt_two_pow : (k a b : ℕ) → a < 2 ^ k → bit_and a b < 2 ^ k
bit_and-lt_two_pow zero zero b h = omega (arith, bit_and-zero_left b)
bit_and-lt_two_pow zero (suc a) b h = absurd (omega arith)
bit_and-lt_two_pow (suc k) a b h = omega (
  arith,
  bit_and_step a b,
  bit_and-lt_two_pow k (a / 2) (b / 2) (omega (arith, pow-suc 2 k)),
  pow-suc 2 k,
)

pub bit_or-lt_two_pow : (k a b : ℕ) → a < 2 ^ k → b < 2 ^ k → bit_or a b < 2 ^ k
bit_or-lt_two_pow zero zero zero h g = omega arith
bit_or-lt_two_pow zero zero (suc b) h g = absurd (omega arith)
bit_or-lt_two_pow zero (suc a) b h g = absurd (omega arith)
bit_or-lt_two_pow (suc k) a b h g = omega (
  arith,
  bit_or_step a b,
  bit_or-lt_two_pow k (a / 2) (b / 2) (omega (arith, pow-suc 2 k)) (omega (arith, pow-suc 2 k)),
  pow-suc 2 k,
)

differ-le : (x y : ℕ) → differ x y ≤ max x y
differ-le zero y = omega arith
differ-le (suc x) zero = omega arith
differ-le (suc x) (suc y) = omega (arith, differ-le x y)

pub bit_xor-lt_two_pow : (k a b : ℕ) → a < 2 ^ k → b < 2 ^ k → bit_xor a b < 2 ^ k
bit_xor-lt_two_pow zero zero zero h g = omega arith
bit_xor-lt_two_pow zero zero (suc b) h g = absurd (omega arith)
bit_xor-lt_two_pow zero (suc a) b h g = absurd (omega arith)
bit_xor-lt_two_pow (suc k) a b h g = omega (
  arith,
  bit_xor_step a b,
  differ-le (a % 2) (b % 2),
  bit_xor-lt_two_pow k (a / 2) (b / 2) (omega (arith, pow-suc 2 k)) (omega (arith, pow-suc 2 k)),
  pow-suc 2 k,
)

-- Bits of width 1 are Booleans.
pub bit_or-bit : (p q : Bool) → bit_or (bit p) (bit q) ≡ bit (p || q)
bit_or-bit true true = refl
bit_or-bit true false = refl
bit_or-bit false true = refl
bit_or-bit false false = refl

pub bit_and-bit : (p q : Bool) → bit_and (bit p) (bit q) ≡ bit (p && q)
bit_and-bit true true = refl
bit_and-bit true false = refl
bit_and-bit false true = refl
bit_and-bit false false = refl
