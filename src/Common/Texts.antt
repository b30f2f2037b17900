-- ===== src/Common/Texts.antt =====
-- Numbers as texts.
use Prim.Native.String.{String, ◌++◌ as push_str, slice}
use Prim.Native.Nat.{ℕ, zero, suc, ◌+◌, ◌/◌, ◌%◌}
use symex.Common.Tests.{ltb, if◌then◌else◌}

-- `usize::to_string`, with as many digits at most as the first argument.
abbrev pub digits : ℕ → ℕ → String
digits zero n = ""
digits (suc most) n =
    let rest = digits most (n / 10) in
    push_str (if ltb n 10 then "" else rest) (slice "0123456789" (n % 10) (n % 10 + 1))

abbrev pub to_string : ℕ → String
to_string n = digits (n + 1) n
