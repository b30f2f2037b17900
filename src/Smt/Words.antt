-- ===== src/Smt/Words.antt =====
-- Fixed-width words as numbers below `2 ^ w`: the two's complement reading, which the signed
-- operations of SMT-LIB bit vectors go by.
use symex.Common.{ℕ, ◌+◌, ◌-◌, ◌*◌, ◌^◌, Bool, ltb, leb, ◌&&◌, not, if◌then◌else◌}

-- Half the range of a word: the weight of its sign bit.
abbrev pub half : ℕ → ℕ
half w = 2 ^ (w - 1)

-- A signed word, moved up by half the range, so that it is a number again: order and sums of
-- signed words are those of the biased numbers.
abbrev pub biased : ℕ → ℕ → ℕ
biased h v = if ltb v h then v + h else v - h

-- A sum of two biased numbers stands for a sum in the signed range `-h .. h - 1`.
abbrev pub sum_fits : ℕ → ℕ → Bool
sum_fits h s = leb h s && ltb s (3 * h)

-- Two's complement addition of `a`, `b` and a carry overflows.
abbrev pub add_overflows : ℕ → ℕ → ℕ → ℕ → Bool
add_overflows h a b c = not (sum_fits h (biased h a + biased h b + c))

-- Two's complement subtraction overflows.
abbrev pub sub_overflows : ℕ → ℕ → ℕ → Bool
sub_overflows h a b = not (leb (biased h b) (biased h a + h) && ltb (biased h a) (biased h b + h))

-- The copies of the sign bit that sign extension puts above a word.
abbrev pub sign_extended : ℕ → ℕ → ℕ → ℕ
sign_extended w n v = if ltb v (half w) then v else v + 2 ^ (w + n) - 2 ^ w
