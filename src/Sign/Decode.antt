-- ===== src/Sign/Decode.antt =====
-- `field_low_bits_unsigned` and `field_signed_from_encoding`: reading a field element as an integer.
pub mod LowBits
use truth_table.Common.{
  ℕ, zero, suc, ◌+◌, ◌-◌, ◌*◌, ◌%◌, ◌^◌, List, [], ◌∷◌, ltb, leb, ◌==◌, ◌&&◌, if◌then◌else◌,
}
use truth_table.Common.Int.{ℤ, pos, negsuc}
use Prim.Native.Nat.{min}
use truth_table.Field.{PrimeField}

-- The loop over the limbs. `acc` stands below `2 ^ shift`, so that `acc | part << shift` is a sum;
-- a mask of `take` bits is a remainder.
unfoldable pub low_bits_loop : List ℕ → ℕ → ℕ → ℕ → ℕ
low_bits_loop [] remaining shift acc = acc
low_bits_loop (limb ∷ limbs) remaining shift acc =
    let take = min remaining 64 in
    let rest =
      low_bits_loop limbs (remaining - take) (shift + 64) (acc + limb % 2 ^ take * 2 ^ shift) in
    if remaining == 0 then acc else rest

unfoldable pub field_low_bits_unsigned : (k : PrimeField) → k.F → ℕ → ℕ
field_low_bits_unsigned k value bits =
    if bits == 0 then 0 else low_bits_loop (k.limbs value) bits 0 0

-- `n as i<bits>` of a number below `2 ^ bits`
abbrev pub as_signed : ℕ → ℕ → ℤ
as_signed bits n = if ltb n (2 ^ (bits - 1)) then pos n else negsuc (2 ^ bits - suc n)

abbrev pub neg_ℤ : ℤ → ℤ
neg_ℤ (pos zero) = pos zero
neg_ℤ (pos (suc n)) = negsuc n
neg_ℤ (negsuc n) = pos (suc n)

unfoldable pub field_signed_from_encoding : (k : PrimeField) → k.F → ℕ → ℤ
field_signed_from_encoding k value bits =
    let neg = k.neg value in
    let mag = field_low_bits_unsigned k neg bits in
    if leb (k.into_bigint value) (k.into_bigint neg)
    then as_signed 128 (field_low_bits_unsigned k value bits)
    else if bits == 128 && mag == 2 ^ 127
    then negsuc (2 ^ 127 - 1)
    else neg_ℤ (as_signed 128 mag)
