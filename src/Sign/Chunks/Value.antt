-- ===== src/Sign/Chunks/Value.antt =====
-- The chunks of each split, read back as a number to the base 65536.
use truth_table.Common.{ℕ, ◌+◌, ◌-◌, ◌*◌, ◌^◌, ◌<◌, ◌≡◌, List, [], ◌∷◌, arith}
use truth_table.Common.Int.{ℤ, pos, negsuc}
use truth_table.Sign.Chunks.{
  split_i32_into_u16s, split_u64_into_u16s, split_i64_into_u16s, split_u128_into_u16s,
  split_i128_into_u16s, twos_complement,
}

-- the number whose digits stand after those of `acc`
abbrev pub chunks_value : ℕ → List ℕ → ℕ
chunks_value acc [] = acc
chunks_value acc (c ∷ cs) = chunks_value (acc * 65536 + c) cs

abbrev pub AreChunks : List ℕ → Type 0
AreChunks [] = Unit
AreChunks (c ∷ cs) = (c < 65536) × AreChunks cs

-- of a signed integer of that many bits
abbrev pub FitsSigned : ℕ → ℤ → Type 0
FitsSigned bits (pos n) = n < 2 ^ (bits - 1)
FitsSigned bits (negsuc n) = n < 2 ^ (bits - 1)

-- digits to the base 65536 of a number
abbrev pub AreDigitsOf : ℕ → List ℕ → Type 0
AreDigitsOf n cs = AreChunks cs × (chunks_value 0 cs ≡ n)

split_u64-AreDigitsOf : (n : ℕ) → n < 2 ^ 64 → AreDigitsOf n (split_u64_into_u16s n)
unfolding split_u64_into_u16s
split_u64-AreDigitsOf n h =
    ((omega arith, (omega arith, (omega arith, (omega arith, tt)))), omega arith)

split_u128-AreDigitsOf : (n : ℕ) → n < 2 ^ 128 → AreDigitsOf n (split_u128_into_u16s n)
unfolding split_u128_into_u16s
split_u128-AreDigitsOf n h = (
  (
    omega arith,
    (
      omega arith,
      (omega arith, (omega arith, (omega arith, (omega arith, (omega arith, (omega arith, tt)))))),
    ),
  ),
  omega arith,
)

twos_complement-lt_64 : (n : ℤ) → twos_complement 64 n < 2 ^ 64
twos_complement-lt_64 (pos n) = omega arith
twos_complement-lt_64 (negsuc n) = omega arith

twos_complement-lt_128 : (n : ℤ) → twos_complement 128 n < 2 ^ 128
twos_complement-lt_128 (pos n) = omega arith
twos_complement-lt_128 (negsuc n) = omega arith

-- The four chunks of a 32-bit integer are the digits of its two's complement in 64 bits: the sign
-- fills the upper half.
pub split_i32-AreDigitsOf :
    (n : ℤ) → FitsSigned 32 n → AreDigitsOf (twos_complement 64 n) (split_i32_into_u16s n)
unfolding split_i32_into_u16s
split_i32-AreDigitsOf (pos n) h =
    ((omega arith, (omega arith, (omega arith, (omega arith, tt)))), omega arith)
split_i32-AreDigitsOf (negsuc n) h =
    ((omega arith, (omega arith, (omega arith, (omega arith, tt)))), omega arith)

-- The four chunks of a 64-bit integer are the digits of its two's complement.
pub split_i64-AreDigitsOf : (n : ℤ) → AreDigitsOf (twos_complement 64 n) (split_i64_into_u16s n)
unfolding split_i64_into_u16s
split_i64-AreDigitsOf n = split_u64-AreDigitsOf (twos_complement 64 n) (twos_complement-lt_64 n)

-- The eight chunks of a 128-bit integer are the digits of its two's complement.
pub split_i128-AreDigitsOf : (n : ℤ) → AreDigitsOf (twos_complement 128 n) (split_i128_into_u16s n)
unfolding split_i128_into_u16s
split_i128-AreDigitsOf n = split_u128-AreDigitsOf (twos_complement 128 n) (twos_complement-lt_128 n)
