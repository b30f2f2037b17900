-- ===== src/Tests/Shifts.antt =====
-- The flags of shifts, the extensions and the saturating operations.
use symex.Common.{◌^◌, ◌<◌, refl, true, arith, Returns}
use symex.Smt.Sample.{two_worlds, Term, term, value}
use symex.Smt.Means.{Means}
use symex.Ga.Operation.{ror}
use symex.Executor.Values.{shift_value}
use symex.Executor.Shifts.{shift_value-ror}
use symex.Tests.Samples.{byte, same, byte-Means, same-Means, state}

-- A word of 32 bits.
abbrev word : Term
word = term 32 (λ e. 3000000000)

word-Means : Means 32 (λ e. 3000000000) word
word-Means = record { has_width = refl; has_value = λ e. refl }

shift_value-ror_example :
    Returns (shift_value 8 ror byte (same 1) state) (λ r. value true r < 2 ^ 7)
shift_value-ror_example =
    shift_value-ror (omega arith) byte-Means (same-Means 1) true state (omega arith) (omega arith)
