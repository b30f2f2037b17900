-- ===== src/Smt/Strings.antt =====
-- symex/src/smt/smt_boolector/expr.rs and mod.rs: expressions to and from strings of binary digits.
use native.Mathlib.Nat.{pow-le-pow_right, mod-lt}
use symex.Common.{
  ℕ, zero, suc, ◌+◌, ◌-◌, ◌*◌, ◌/◌, ◌%◌, ◌^◌, ◌≤◌, ◌<◌, ◌≡◌, refl, ap, ◌∙◌, max, Bool, true, false,
  List, ◌++◌, length, none, some, ltb, leb, Outcome, ok, panic, ◌>>=◌, arith, Returns, Bool-cases,
  inl, inr, Returns-bind, Returns-mono, sym, length-append, two_pow_add, mod-eq_of_lt, pow-pos,
}
use symex.Smt.Boolector.{Boolector, binary}
use symex.Smt.Digits.{
  digits_of, trim, trim-digits_of, length-digits_of, binary-digits_of, binary-append,
}
use symex.Smt.Expr.{DExpr, len, slice, get_constant}

-- `format!("{:0width$b}", value)` of a `u64`: at least one digit, and at least `width`.
unfoldable pub format_binary : ℕ → ℕ → List Bool
format_binary width v = trim (max 1 width) (digits_of 64 v)

module _ ⦃b : Boolector⦄ where
  unfoldable pub from_binary_string : List Bool → DExpr
  from_binary_string bits = b.from_binary_str bits

  -- `unwrap` panics where the expression is no constant.
  unfoldable pub narrow_string : {E : Type 0} → DExpr → Outcome E (List Bool)
  narrow_string x = do
    constant ← get_constant x
    elim constant [ none ↦ panic | some v ↦ ok (format_binary (len x) v) ]

  -- The body of `to_binary_string`, for `n` nested calls at most.
  unfoldable pub string_calls : {E : Type 0} → ℕ → DExpr → Outcome E (List Bool)
  string_calls zero x = panic
  string_calls (suc n) x = elim (leb (len x) 64) [
    | true ↦ narrow_string x
    | false ↦ do
      upper ← slice x 64 (len x - 1)
      upper ← string_calls n upper
      lower ← slice x 0 63
      lower ← string_calls n lower
      ok (upper ++ lower)
  ]

  -- Each call below takes 64 bits off, so that there are fewer than the width.
  unfoldable pub to_binary_string : {E : Type 0} → DExpr → Outcome E (List Bool)
  to_binary_string x = string_calls (suc (len x)) x

  narrow_string-digits :
      {E : Type 0} (x : DExpr) (v : ℕ)
      → b.constant x ≡ some v
      → v < 2 ^ len x
      → 0 < len x
      → len x ≤ 64
      → narrow_string {E = E} x ≡ ok (digits_of (len x) v)
  unfolding narrow_string get_constant format_binary
  narrow_string-digits x v h lt pos le =
      let word : 2 ^ len x ≤ 2 ^ 64 =
        pow-le-pow_right {n = 2} (omega arith) {i = len x} {j = 64} le in
      let small : ltb v (2 ^ 64) ≡ true = ground (arith, lt, word) in
      let padded : max 1 (len x) ≡ len x = omega (arith, pos) in
      rw (narrow_string, get_constant, h, small, padded) (ap ok (trim-digits_of 64 (len x) v le lt))

  -- Taking bits out of a constant term gives a constant term.
  abbrev pub Folds : Type 0
  Folds =
      (x : DExpr) (high low v : ℕ)
      → b.constant x ≡ some v
      → low ≤ high
      → high < len x
      → b.constant (b.slice x high low) ≡ some (v / 2 ^ low % 2 ^ (high - low + 1))

  slice-constant :
      {E : Type 0} (fold : Folds) (x : DExpr) (v low high : ℕ)
      → b.constant x ≡ some v
      → low ≤ high
      → high < len x
      → Returns {E = E} (slice x low high) (λ y.
        (len y ≡ high - low + 1) × (b.constant y ≡ some (v / 2 ^ low % 2 ^ (high - low + 1))))
  unfolding slice
  slice-constant fold x v low high h order inside =
      let first : leb low high ≡ true = ground arith in
      let second : leb high (len x) ≡ true = ground arith in
      rw (first, second)
        (_, refl, ((b.slice_means x high low order inside).0, fold x high low v h order inside))

  -- The upper and the lower digits of a wide word.
  joined :
      (w v : ℕ) (s t : List Bool)
      → v < 2 ^ w
      → 64 < w
      → length s ≡ w - 1 - 64 + 1
      → binary s ≡ v / 2 ^ 64 % 2 ^ (w - 1 - 64 + 1)
      → length t ≡ 64
      → binary t ≡ v / 1 % 2 ^ 64
      → binary (s ++ t) ≡ v
  joined w v s t lt long ls bs lt' bt =
      let e : w - 1 - 64 + 1 + 64 ≡ w = omega (arith, long) in
      let split : 2 ^ w ≡ 2 ^ (w - 1 - 64 + 1) * 2 ^ 64 =
        rw e at (two_pow_add (w - 1 - 64 + 1) 64) in
      let high : v / 2 ^ 64 < 2 ^ (w - 1 - 64 + 1) = omega (arith, lt, split) in
      binary-append s t ∙ rw (lt', bs, bt, mod-eq_of_lt high) (omega arith)

  string_calls-digits :
      {E : Type 0} (fold : Folds) (n : ℕ) (x : DExpr) (v : ℕ)
      → b.constant x ≡ some v
      → v < 2 ^ len x
      → 0 < len x
      → len x < n
      → Returns {E = E} (string_calls n x) (λ s. (length s ≡ len x) × (binary s ≡ v))
  unfolding string_calls
  string_calls-digits fold zero x v h lt pos less = absurd (omega (arith, less))
  string_calls-digits fold (suc n) x v h lt pos less = elim (Bool-cases (leb (len x) 64)) [
    | inl narrow ↦
        rw (narrow, narrow_string-digits x v h lt pos (ground (arith, narrow)), string_calls)
          (_, refl, (length-digits_of (len x) v, binary-digits_of (len x) v lt))
    | inr wide ↦
        let long : 64 < len x = ground (arith, wide) in
        rw (wide, string_calls)
          (Returns-bind _
            (slice-constant fold x v 64 (len x - 1) h (omega (arith, long)) (omega (arith, long)))
            λ u (wu, cu).
              Returns-bind _
                (string_calls-digits fold n u _ cu (rw wu (mod-lt _ (pow-pos _)))
                  (omega (arith, wu, long)) (omega (arith, wu, long, less)))
                λ su (lu, bu).
                  Returns-bind _
                    (slice-constant fold x v 0 63 h (omega arith) (omega (arith, long)))
                    λ l (wl, cl).
                      Returns-bind _
                        (string_calls-digits fold n l _ cl (rw wl (mod-lt _ (pow-pos 64)))
                          (omega (arith, wl)) (omega (arith, wl, long, less)))
                        λ sl (ll, bl). (
                          su ++ sl,
                          refl,
                          (
                            omega (arith, length-append su sl, lu, ll, wu, wl, long),
                            joined (len x) v su sl lt long (lu ∙ wu) bu (ll ∙ wl) bl,
                          ),
                        ))
  ]

  -- A constant of some bits is printed as its digits, as many as it has bits.
  pub to_binary_string-digits :
      {E : Type 0} (fold : Folds) (x : DExpr) (v : ℕ)
      → b.constant x ≡ some v
      → v < 2 ^ len x
      → 0 < len x
      → Returns {E = E} (to_binary_string x) (λ s. (length s ≡ len x) × (binary s ≡ v))
  unfolding to_binary_string
  to_binary_string-digits fold x v h lt pos =
      string_calls-digits fold (suc (len x)) x v h lt pos (omega arith)

  -- Where bits taken out of a constant term are a constant term, `to_binary_string` of a constant of
  -- any width but zero returns, and its string is read back as an expression of the same width that
  -- is the same constant.
  pub from_binary_string-to_binary_string :
      {E : Type 0} (fold : Folds) (x : DExpr) (v : ℕ)
      → b.constant x ≡ some v
      → v < 2 ^ len x
      → 0 < len x
      → Returns {E = E} (to_binary_string x) (λ s.
        (len (from_binary_string s) ≡ len x) × (b.constant (from_binary_string s) ≡ b.constant x))
  unfolding from_binary_string
  from_binary_string-to_binary_string fold x v h lt pos =
      Returns-mono (to_binary_string-digits fold x v h lt pos) λ s (l, same).
        ((b.from_binary_str_means s).0 ∙ l, b.from_binary_str_constant s ∙ ap some same ∙ sym h)
