-- ===== src/Memory/Allocator/Laws.antt =====
-- What the bump allocator hands out.
use native.Mathlib.Nat.{div-div-eq-div-mul, mul_comm, div-one, pow-le-pow_right}
use symex.Common.{
  ℕ, zero, suc, ◌+◌, ◌-◌, ◌*◌, ◌/◌, ◌^◌, ◌≤◌, ◌<◌, ◌≡◌, sym, ap, bit_and, bit_and_step,
  bit_and_mask, arith, pow-suc, mod-eq_of_lt,
}

-- The mask of the bits from `k` on clears the bits below.
pub bit_and-high :
    (k n v : ℕ) → v < 2 ^ (k + n) → bit_and v (2 ^ (k + n) - 2 ^ k) ≡ v / 2 ^ k * 2 ^ k
bit_and-high zero n v h =
    let e : 0 + n ≡ n = omega arith in
    rw (e, bit_and_mask n v, mod-eq_of_lt (rw e at h), div-one v) (omega arith)
bit_and-high (suc k) n v h =
    let e : suc k + n ≡ suc (k + n) = omega arith in
    let big = pow-suc 2 (k + n) in
    let small = pow-suc 2 k in
    let le : 2 ^ k ≤ 2 ^ (k + n) = pow-le-pow_right {n = 2} (omega arith) (omega arith) in
    let mask : (2 ^ suc (k + n) - 2 ^ suc k) / 2 ≡ 2 ^ (k + n) - 2 ^ k =
      omega (arith, big, small) in
    let rest : bit_and (v / 2) ((2 ^ suc (k + n) - 2 ^ suc k) / 2) ≡ v / 2 / 2 ^ k * 2 ^ k =
      rw mask (bit_and-high k n (v / 2) (omega (arith, big, rw e at h))) in
    let q : v / 2 ^ suc k ≡ v / 2 / 2 ^ k =
      rw (small, mul_comm (2 ^ k) 2) (sym (div-div-eq-div-mul v 2 (2 ^ k))) in
    rw (e, q)
      (omega (
        arith,
        bit_and_step v (2 ^ suc (k + n) - 2 ^ suc k),
        rest,
        big,
        small,
        ap (λ (t : ℕ). v / 2 / 2 ^ k * t) small,
      ))
