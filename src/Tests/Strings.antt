-- ===== src/Tests/Strings.antt =====
-- Strings of binary digits at concrete inputs.
use native.Mathlib.Nat.{mod-mod}
use symex.Common.{
  ◌-◌, ◌/◌, ◌%◌, ◌^◌, ◌+◌, ◌≡◌, refl, ap, true, false, arith, Returns, some, ==_refl,
}
use symex.Errors.{GaError}
use symex.Smt.Sample.{two_worlds, Term, term, constant, constant-value}
use symex.Smt.Expr.{len}
use symex.Smt.Strings.{
  Folds, to_binary_string, from_binary_string, from_binary_string-to_binary_string,
}

sample_Folds : Folds
sample_Folds x high low v h order inside =
    rw
      (
        constant-value x v h true,
        constant-value x v h false,
        ==_refl (v / 2 ^ low % 2 ^ (high - low + 1) % 2 ^ (high - low + 1)),
      )
      (ap some (mod-mod (v / 2 ^ low) (2 ^ (high - low + 1))))

-- Wider than a machine word.
abbrev wide : Term
wide = term 72 (λ e. 2 ^ 70 + 5)

from_binary_string-to_binary_string_example :
    Returns {E = GaError} (to_binary_string wide) (λ s.
      (len (from_binary_string s) ≡ 72) × (constant (from_binary_string s) ≡ some (2 ^ 70 + 5)))
from_binary_string-to_binary_string_example =
    from_binary_string-to_binary_string sample_Folds wide (2 ^ 70 + 5) refl (omega arith)
      (omega arith)
