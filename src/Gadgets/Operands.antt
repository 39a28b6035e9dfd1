-- ===== src/Gadgets/Operands.antt =====
-- What a comparison makes of the types and the decimal scales of its operands: `integer_width_and_signed`,
-- `merged_sign_data_type`, `merged_sign_field`, `pow10`, `aligned_decimal_diff_polys` and
-- `aligned_decimal_diff_oracles`
-- (crates/tt-core/src/irs/nodes/plan/exprs/binary_expr/gadget/bin_cmp/mod.rs). Equality of data types is an
-- argument; numbers of type `i8` are integers.
use truth_table.Common.{
  ℕ, zero, suc, ◌+◌, ◌-◌, ◌^◌, [], Option, none, some, Bool, true, false, ◌||◌, if◌then◌else◌, ltb,
  ◌==◌,
}
use truth_table.Common.Int.{ℤ, pos, negsuc}
use truth_table.Datafusion.Host.{Host}
use truth_table.Datafusion.Arrow.{DataType, Field}
use truth_table.Field.{PrimeField}
use truth_table.Sign.Column.{Poly}
use truth_table.Table.{name_of, data_type_of}

abbrev pub max_ℕ : ℕ → ℕ → ℕ
max_ℕ m n = if ltb m n then n else m

abbrev pub ltb_ℤ : ℤ → ℤ → Bool
ltb_ℤ (pos a) (pos b) = ltb a b
ltb_ℤ (pos a) (negsuc b) = false
ltb_ℤ (negsuc a) (pos b) = true
ltb_ℤ (negsuc a) (negsuc b) = ltb b a

abbrev pub max_ℤ : ℤ → ℤ → ℤ
max_ℤ a b = if ltb_ℤ a b then b else a

-- how much the second is above the first, where it is not below
abbrev pub distance : ℤ → ℤ → ℕ
distance (pos a) (pos b) = b - a
distance (pos a) (negsuc b) = 0
distance (negsuc a) (pos b) = suc a + b
distance (negsuc a) (negsuc b) = a - b

-- `(target - scale) as u32` of two `i8`, the difference of which wraps around
abbrev pub exponent : ℤ → ℤ → ℕ
exponent scale target = let d = distance scale target in if ltb d 128 then d else 2 ^ 32 - 256 + d

module _ {h : Host} where
  unfoldable pub integer_width_and_signed : DataType h → Option (ℕ × Bool)
  integer_width_and_signed DataType.uint8 = some (8, false)
  integer_width_and_signed DataType.uint16 = some (16, false)
  integer_width_and_signed DataType.uint32 = some (32, false)
  integer_width_and_signed DataType.uint64 = some (64, false)
  integer_width_and_signed DataType.int8 = some (8, true)
  integer_width_and_signed DataType.int16 = some (16, true)
  integer_width_and_signed DataType.int32 = some (32, true)
  integer_width_and_signed DataType.date32 = some (32, true)
  integer_width_and_signed DataType.int64 = some (64, true)
  integer_width_and_signed _ = none

  abbrev pub integer_type : ℕ → Bool → DataType h
  integer_type width false =
      if width == 8
      then DataType.uint8
      else if width == 16
      then DataType.uint16
      else if width == 32
      then DataType.uint32
      else DataType.uint64
  integer_type width true =
      if width == 8
      then DataType.int8
      else if width == 16
      then DataType.int16
      else if width == 32
      then DataType.int32
      else DataType.int64

  abbrev pub merged_integers : DataType h → Option (ℕ × Bool) → Option (ℕ × Bool) → DataType h
  merged_integers left (some (lb, lsigned)) (some (rb, rsigned)) =
      integer_type (max_ℕ lb rb) (lsigned || rsigned)
  merged_integers left _ _ = left

  -- the types, if they differ
  abbrev pub merged_different : DataType h → DataType h → DataType h
  merged_different (DataType.decimal128 lp ls) (DataType.decimal128 rp rs) =
      DataType.decimal128 (max_ℕ lp rp) (max_ℤ ls rs)
  merged_different (DataType.decimal128 lp ls) right = DataType.decimal128 lp ls
  merged_different left (DataType.decimal128 rp rs) = DataType.decimal128 rp rs
  merged_different left right =
      merged_integers left (integer_width_and_signed left) (integer_width_and_signed right)

  unfoldable pub merged_sign_data_type :
      (DataType h → DataType h → Bool) → DataType h → DataType h → DataType h
  unfolding integer_width_and_signed
  merged_sign_data_type same_type left right =
      if same_type left right then left else merged_different left right

  abbrev pub is_nullable : Field h → Bool
  is_nullable (Field.field name t nullable metadata) = nullable

  unfoldable pub merged_sign_field : (DataType h → DataType h → Bool) → Field h → Field h → Field h
  unfolding merged_sign_data_type
  merged_sign_field same_type left right =
      Field.field (name_of left)
        (merged_sign_data_type same_type (data_type_of left) (data_type_of right))
        (is_nullable left || is_nullable right) (h.metadata_collect [])

  abbrev pub decimal_scale : DataType h → Option ℤ
  decimal_scale (DataType.decimal128 precision scale) = some scale
  decimal_scale _ = none

-- the loop of `pow10`, of which `n` rounds are left
abbrev pub times_ten : (k : PrimeField) → ℕ → k.F → k.F
times_ten k zero out = out
times_ten k (suc n) out = times_ten k n (k.mul out (k.from 10))

unfoldable pub pow10 : (k : PrimeField) → ℕ → k.F
pow10 k exp = times_ten k exp k.one_F

module _ (k : PrimeField) where
  -- a column brought to a scale
  unfoldable pub scaled : Poly k → ℤ → ℤ → Poly k
  unfolding pow10
  scaled p scale target =
      if ltb_ℤ scale target then (λ i. k.mul (p i) (pow10 k (exponent scale target))) else p

  abbrev pub aligned : Poly k → Option ℤ → Poly k → Option ℤ → Poly k × Poly k
  aligned l (some l_scale) r (some r_scale) =
      (scaled l l_scale (max_ℤ l_scale r_scale), scaled r r_scale (max_ℤ l_scale r_scale))
  aligned l _ r _ = (l, r)

  unfoldable pub aligned_decimal_diff :
      {h : Host} → Poly k → DataType h → Poly k → DataType h → Poly k × Poly k
  unfolding scaled
  aligned_decimal_diff l left_type r right_type =
      aligned l (decimal_scale left_type) r (decimal_scale right_type)
