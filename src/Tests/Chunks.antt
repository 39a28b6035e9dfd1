-- ===== src/Tests/Chunks.antt =====
-- Negative integers in chunks.
use truth_table.Common.Int.{negsuc}
use truth_table.Sign.Chunks.{split_i128_into_u16s, twos_complement}
use truth_table.Sign.Chunks.Value.{AreDigitsOf, split_i128-AreDigitsOf}

split_i128-AreDigitsOf_example :
    AreDigitsOf (twos_complement 128 (negsuc 4)) (split_i128_into_u16s (negsuc 4))
split_i128-AreDigitsOf_example = split_i128-AreDigitsOf (negsuc 4)
