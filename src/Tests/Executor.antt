-- ===== src/Tests/Executor.antt =====
-- The adder, the counting functions and the flags of a subtraction of
-- symex/src/general_assembly/executor.rs.
use symex.Common.{◌+◌, ◌%◌, ◌^◌, ◌≡◌, refl, true, false, bit, leb, not, inl, arith, Returns}
use symex.Errors.{GaError}
use symex.Smt.Words.{half, add_overflows, sub_overflows}
use symex.Smt.Sample.{two_worlds, value}
use symex.Smt.Means.{Means}
use symex.Executor.Adder.{
  add_with_carry, add_with_carry_adds, add_with_carry-overflow, add_with_carry-wrong_overflow,
  low_bit,
}
use symex.Executor.Count.{count_leading_ones}
use symex.Executor.Count.Laws.{count_leading_ones-IsLeadingOnes, IsLeadingOnes}
use symex.Executor.Values.{c_flag_value, v_flag_value}
use symex.Executor.Subtract.{c_flag_value-sub, v_flag_value-sub, v_flag_value-least}
use symex.Tests.Samples.{byte, carry, same, byte-Means, carry-Means, same-Means, state}

add_with_carry_adds_example : Returns {E = GaError} (add_with_carry byte byte carry 8) (λ r.
    Means 8 (λ e. (value e byte + value e byte + low_bit (value e carry)) % 2 ^ 8) r.result
    × Means 1
        (λ e. bit (leb (2 ^ 8) (value e byte + value e byte + low_bit (value e carry))))
        r.carry_out)
add_with_carry_adds_example = add_with_carry_adds (omega arith) byte-Means byte-Means carry-Means

add_with_carry-overflow_example :
    Returns {E = GaError}
      (add_with_carry byte byte carry 8)
      (λ r. value true r.overflow ≡ bit (add_overflows (half 8) 5 5 1))
add_with_carry-overflow_example =
    add_with_carry-overflow (omega arith) byte-Means byte-Means carry-Means true (inl (omega arith))

add_with_carry-wrong_overflow_example :
    Returns {E = GaError}
      (add_with_carry byte (same 127) carry 8)
      (λ r. value true r.overflow ≡ bit (not (add_overflows (half 8) 5 127 1)))
add_with_carry-wrong_overflow_example =
    add_with_carry-wrong_overflow (omega arith) byte-Means (same-Means 127) carry-Means true refl
      refl

count_leading_ones-IsLeadingOnes_example :
    Returns {E = GaError} (count_leading_ones byte 8) (λ r. IsLeadingOnes 8 200 (value false r))
count_leading_ones-IsLeadingOnes_example =
    count_leading_ones-IsLeadingOnes byte-Means (omega arith) false

c_flag_value-sub_example :
    Returns
      (c_flag_value 8 true false byte (same 100) state)
      (Means 1 (λ e. bit (leb (value e (same 100)) (value e byte))))
c_flag_value-sub_example = c_flag_value-sub (omega arith) byte-Means (same-Means 100) state

v_flag_value-sub_example :
    Returns
      (v_flag_value 8 true false byte (same 100) state)
      (λ r. value false r ≡ bit (sub_overflows (half 8) 200 100))
v_flag_value-sub_example =
    v_flag_value-sub (omega arith) byte-Means (same-Means 100) state false (omega arith)

v_flag_value-least_example :
    Returns
      (v_flag_value 8 true false byte (same 128) state)
      (λ r. value false r ≡ bit (not (sub_overflows (half 8) 200 128)))
v_flag_value-least_example =
    v_flag_value-least (omega arith) byte-Means (same-Means 128) state false refl
