-- ===== src/Sign/HonestCheck.antt =====
-- `honest_prover_check`, `eval_matches_sign` and what they call
-- (crates/tt-core/src/irs/nodes/utils/sign/mod.rs).
pub mod Rows
pub mod Values
pub mod Integers
use truth_table.Common.{
  ℕ, zero, suc, ◌+◌, List, [], ◌∷◌, Option, none, some, Bool, true, false, not, ◌&&◌, ◌||◌, Result,
  ok, err, ◌>>=◌, length, ◌==◌, ltb, if◌then◌else◌,
}
use truth_table.Common.Int.{ℤ, pos, negsuc}
use truth_table.Datafusion.Host.{Host}
use truth_table.Datafusion.Arrow.{DataType}
use truth_table.Field.{PrimeField, is_zero}
use truth_table.Sign.Config.{Sign, SignConfig, is_strict, sign_for_index}
use truth_table.Sign.Decode.{field_low_bits_unsigned, field_signed_from_encoding}
use truth_table.Sign.Column.{TrackedCol, is_inactive}

-- `no_sign` is the panic on a column without a sign
pub data HonestCheckError : Type 0 where
  false_claim no_sign : HonestCheckError

abbrev unsigned_sign : Sign → ℕ → Bool
unsigned_sign Sign.non_negative n = true
unsigned_sign Sign.positive n = ltb 0 n
unsigned_sign Sign.non_positive n = n == 0
unsigned_sign Sign.negative n = false

abbrev signed_sign : Sign → ℤ → Bool
signed_sign Sign.non_negative (pos n) = true
signed_sign Sign.non_negative (negsuc n) = false
signed_sign Sign.positive (pos n) = ltb 0 n
signed_sign Sign.positive (negsuc n) = false
signed_sign Sign.non_positive (pos n) = n == 0
signed_sign Sign.non_positive (negsuc n) = true
signed_sign Sign.negative (pos n) = false
signed_sign Sign.negative (negsuc n) = true

module _ (k : PrimeField) where
  unfoldable pub eval_unsigned_sign : k.F → ℕ → Sign → Bool
  eval_unsigned_sign value bits s = unsigned_sign s (field_low_bits_unsigned k value bits)

  unfoldable pub eval_signed_sign : k.F → ℕ → Sign → Bool
  eval_signed_sign value bits s = signed_sign s (field_signed_from_encoding k value bits)

  abbrev view_sign : Sign → k.F → Bool
  view_sign Sign.non_negative value = true
  view_sign Sign.positive value = not (is_zero k value)
  view_sign Sign.non_positive value = is_zero k value
  view_sign Sign.negative value = false

  unfoldable pub eval_matches_sign : {h : Host} → DataType h → Sign → k.F → Bool
  unfolding eval_unsigned_sign eval_signed_sign
  eval_matches_sign DataType.uint8 s value = eval_unsigned_sign value 8 s
  eval_matches_sign DataType.uint16 s value = eval_unsigned_sign value 16 s
  eval_matches_sign DataType.uint32 s value = eval_unsigned_sign value 32 s
  eval_matches_sign DataType.uint64 s value = eval_unsigned_sign value 64 s
  eval_matches_sign DataType.int8 s value = eval_signed_sign value 8 s
  eval_matches_sign DataType.int16 s value = eval_signed_sign value 16 s
  eval_matches_sign DataType.int32 s value = eval_signed_sign value 32 s
  eval_matches_sign DataType.date32 s value = eval_signed_sign value 32 s
  eval_matches_sign DataType.int64 s value = eval_signed_sign value 64 s
  eval_matches_sign (DataType.decimal128 _ _) s value = eval_signed_sign value 128 s
  eval_matches_sign DataType.utf8_view s value = view_sign s value
  eval_matches_sign _ s value = false

  -- `check_val`: every sign is checked as the non-negativity of the value or of its negation
  abbrev pub check_val : Sign → k.F → k.F
  check_val Sign.non_negative value = value
  check_val Sign.positive value = value
  check_val Sign.non_positive value = k.neg value
  check_val Sign.negative value = k.neg value

  unfoldable pub row_passes : {h : Host} → Sign → DataType h → k.F → Bool
  row_passes s t value =
      not (is_strict s && is_zero k value)
      && eval_matches_sign t Sign.non_negative (check_val s value)

module _ {h : Host} {k : PrimeField} where
  -- the loop over the rows from `i` on, of which `n` are left
  unfoldable pub check_rows : Sign → TrackedCol h k → ℕ → ℕ → Result HonestCheckError (Unit {0})
  check_rows s c i zero = ok tt
  check_rows s c i (suc n) =
      let rest = check_rows s c (i + 1) n in
      if is_inactive c i
      then rest
      else if row_passes k s c.data_type (c.data_poly i)
      then rest
      else err false_claim

  -- the use of `sign_for_index`
  abbrev pub check_col : Option Sign → ℕ → TrackedCol h k → Result HonestCheckError (Unit {0})
  check_col none rows c = err no_sign
  check_col (some s) rows c = check_rows s c 0 rows

  -- the loop over the columns, `idx` of which are done
  unfoldable pub check_cols :
      SignConfig → ℕ → ℕ → ℕ → List (TrackedCol h k) → Result HonestCheckError (Unit {0})
  check_cols cfg rows total idx [] = ok tt
  check_cols cfg rows total idx (c ∷ cs) =
      let rest = check_cols cfg rows total (idx + 1) cs in
      check_col (sign_for_index cfg idx total) rows c >>= λ _. rest

  unfoldable pub honest_prover_check :
      SignConfig → ℕ → List (TrackedCol h k) → Result HonestCheckError (Unit {0})
  unfolding check_cols
  honest_prover_check cfg rows cs = check_cols cfg rows (length cs) 0 cs
