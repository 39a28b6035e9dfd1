-- ===== src/Sign/Chunks.antt =====
-- The splits into 16-bit chunks, most significant first, and their recomposition over a field.
-- Shifts and masks are quotients and remainders by powers of two; `as u32`, `as u64` and `as u128`
-- of a signed integer is its two's complement.
pub mod Value
use truth_table.Common.{ℕ, suc, ◌-◌, ◌/◌, ◌%◌, ◌^◌, List, [], ◌∷◌}
use truth_table.Common.Int.{ℤ, pos, negsuc}
use truth_table.Field.{PrimeField}

-- `n as u<bits>`
abbrev pub twos_complement : ℕ → ℤ → ℕ
twos_complement bits (pos n) = n % 2 ^ bits
twos_complement bits (negsuc n) = 2 ^ bits - suc (n % 2 ^ bits)

-- `((n >> shift) & 0xFFFF) as u16`
abbrev pub chunk_at : ℕ → ℕ → ℕ
chunk_at n shift = n / 2 ^ shift % 65536

unfoldable pub split_u32_into_u16s : ℕ → List ℕ
split_u32_into_u16s n = 0 ∷ 0 ∷ chunk_at n 16 ∷ n % 65536 ∷ []

abbrev sign_extension : ℤ → ℕ
sign_extension (pos _) = 0
sign_extension (negsuc _) = 65535

unfoldable pub split_i32_into_u16s : ℤ → List ℕ
split_i32_into_u16s n =
    let bits = twos_complement 32 n in
    sign_extension n ∷ sign_extension n ∷ chunk_at bits 16 ∷ bits % 65536 ∷ []

unfoldable pub split_u64_into_u16s : ℕ → List ℕ
split_u64_into_u16s n = chunk_at n 48 ∷ chunk_at n 32 ∷ chunk_at n 16 ∷ n % 65536 ∷ []

unfoldable pub split_i64_into_u16s : ℤ → List ℕ
unfolding split_u64_into_u16s
split_i64_into_u16s n = split_u64_into_u16s (twos_complement 64 n)

unfoldable pub split_u128_into_u16s : ℕ → List ℕ
split_u128_into_u16s n =
    chunk_at n 112
    ∷ chunk_at n 96
    ∷ chunk_at n 80
    ∷ chunk_at n 64
    ∷ chunk_at n 48
    ∷ chunk_at n 32
    ∷ chunk_at n 16
    ∷ n % 65536
    ∷ []

unfoldable pub split_i128_into_u16s : ℤ → List ℕ
unfolding split_u128_into_u16s
split_i128_into_u16s n = split_u128_into_u16s (twos_complement 128 n)

-- the loop of `recompose_tracked_polys` and `recompose_tracked_oracles`, at one row
unfoldable pub recompose_from : (k : PrimeField) → k.F → List k.F → k.F
recompose_from k acc [] = acc
recompose_from k acc (c ∷ cs) = recompose_from k (k.add (k.mul acc (k.from 65536)) c) cs
