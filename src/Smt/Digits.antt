-- ===== src/Smt/Digits.antt =====
-- Numbers and their binary digits, the highest first.
use native.Mathlib.Nat.{pow-le-pow_right, div-eq_of_lt}
use symex.Common.{
  ℕ, zero, suc, ◌+◌, ◌*◌, ◌/◌, ◌%◌, ◌^◌, ◌≤◌, ◌<◌, ◌≡◌, refl, ap, ◌∙◌, Bool, true, false, not, List,
  [], ◌∷◌, ◌++◌, length, bit, ltb, leb, ◌==◌, if◌then◌else◌, arith, pow-suc, mod_high, mod-eq_of_lt,
  Bool-cases, inl, inr,
}
use symex.Smt.Boolector.{binary_from, binary}

binary_from-lt : (s : List Bool) (n k : ℕ) → n < 2 ^ k → binary_from n s < 2 ^ (k + length s)
binary_from-lt [] n k h = let e : k + 0 ≡ k = omega arith in rw e h
binary_from-lt (d ∷ s) n k h =
    let e : k + suc (length s) ≡ suc k + length s = omega arith in
    rw e (binary_from-lt s (2 * n + bit d) (suc k) (ground (arith, pow-suc 2 k)))

pub binary-lt : (s : List Bool) → binary s < 2 ^ length s
binary-lt s =
    let e : 0 + length s ≡ length s = omega arith in rw e at (binary_from-lt s 0 0 (omega arith))

-- The `w` binary digits of a number, the highest first.
abbrev pub digits_of : ℕ → ℕ → List Bool
digits_of zero v = []
digits_of (suc w) v = not (v / 2 ^ w % 2 == 0) ∷ digits_of w v

pub length-digits_of : (w v : ℕ) → length (digits_of w v) ≡ w
length-digits_of zero v = refl
length-digits_of (suc w) v = ap suc (length-digits_of w v)

bit-of_bit : (a : ℕ) → a < 2 → bit (not (a == 0)) ≡ a
bit-of_bit a h = ground arith

pub binary_from-digits_of : (w v n : ℕ) → binary_from n (digits_of w v) ≡ n * 2 ^ w + v % 2 ^ w
binary_from-digits_of zero v n = omega arith
binary_from-digits_of (suc w) v n =
    let high : bit (not (v / 2 ^ w % 2 == 0)) ≡ v / 2 ^ w % 2 = bit-of_bit _ (omega arith) in
    binary_from-digits_of w v (2 * n + bit (not (v / 2 ^ w % 2 == 0)))
    ∙ rw high (omega (arith, mod_high w v, ap (λ (t : ℕ). n * t) (pow-suc 2 w)))

pub binary-digits_of : (w v : ℕ) → v < 2 ^ w → binary (digits_of w v) ≡ v
binary-digits_of w v h = binary_from-digits_of w v 0 ∙ omega (arith, mod-eq_of_lt h)

-- Leading zeroes are dropped while there are more than `n` digits.
unfoldable pub trim : ℕ → List Bool → List Bool
trim n [] = []
trim n (true ∷ s) = true ∷ s
trim n (false ∷ s) = let rest = trim n s in if ltb n (suc (length s)) then rest else false ∷ s

trim-full : (n : ℕ) (d : Bool) (s : List Bool) → suc (length s) ≡ n → trim n (d ∷ s) ≡ d ∷ s
unfolding trim
trim-full n true s h = refl
trim-full n false s h = let no : ltb n (suc (length s)) ≡ false = ground arith in rw no refl

trim-zero : (n : ℕ) (s : List Bool) → n ≤ length s → trim n (false ∷ s) ≡ trim n s
unfolding trim
trim-zero n s h = let more : ltb n (suc (length s)) ≡ true = ground arith in rw more refl

-- Where a word fits into fewer digits, its leading zeroes are what is dropped.
pub trim-digits_of : (n w v : ℕ) → w ≤ n → v < 2 ^ w → trim w (digits_of n v) ≡ digits_of w v
unfolding trim
trim-digits_of zero w v le lt = let e : w ≡ 0 = omega arith in rw e refl
trim-digits_of (suc n) w v le lt = elim (Bool-cases (leb w n)) [
  | inl fits ↦
      let less : v < 2 ^ n =
        omega (arith, pow-le-pow_right {n = 2} (omega arith) {i = w} {j = n} (ground arith)) in
      let none_left : v / 2 ^ n ≡ 0 = div-eq_of_lt less in
      let long : w ≤ length (digits_of n v) = rw (length-digits_of n v) (ground arith) in
      rw none_left (trim-zero w (digits_of n v) long ∙ trim-digits_of n w v (ground arith) lt)
  | inr full ↦
      let e : w ≡ suc n = ground arith in
      rw e (trim-full (suc n) _ (digits_of n v) (ap suc (length-digits_of n v)))
]

pub binary_from-split : (s : List Bool) (n : ℕ) → binary_from n s ≡ n * 2 ^ length s + binary s
binary_from-split [] n = omega arith
binary_from-split (d ∷ s) n =
    rw (binary_from-split s (2 * n + bit d), binary_from-split s (0 + bit d))
      (omega (arith, ap (λ (t : ℕ). n * t) (pow-suc 2 (length s))))

binary_from-append :
    (s t : List Bool) (n : ℕ) → binary_from n (s ++ t) ≡ binary_from n s * 2 ^ length t + binary t
binary_from-append [] t n = binary_from-split t n
binary_from-append (d ∷ s) t n = binary_from-append s t (2 * n + bit d)

pub binary-append : (s t : List Bool) → binary (s ++ t) ≡ binary s * 2 ^ length t + binary t
binary-append s t = binary_from-append s t 0
