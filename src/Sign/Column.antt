-- ===== src/Sign/Column.antt =====
-- Columns, claims and what the paths of `prove_sign_inner` share (sign/mod.rs). A polynomial is its
-- evaluations, a function of the row.
use mathlib.Core.List.{reverse}
use truth_table.Common.{
  ℕ, zero, suc, ◌+◌, ◌-◌, ◌/◌, ◌%◌, ◌^◌, List, [], ◌∷◌, Option, none, some, Bool, false, leb,
  if◌then◌else◌,
}
use truth_table.Common.Int.{ℤ, pos}
use truth_table.Datafusion.Host.{Host}
use truth_table.Datafusion.Arrow.{DataType}
use truth_table.Field.{PrimeField, sub_F, is_zero}
use truth_table.Sign.Chunks.{
  split_u32_into_u16s, split_i32_into_u16s, split_u64_into_u16s, split_i64_into_u16s,
  split_i128_into_u16s, recompose_from, twos_complement,
}
use truth_table.Sign.Decode.{field_low_bits_unsigned, field_signed_from_encoding, as_signed}

abbrev pub Poly : PrimeField → Type 0
Poly k = ℕ → k.F

-- a column or a column oracle, with the type of its field
pub record TrackedCol (h : Host) (k : PrimeField) : Type 0 where
  pub data_poly : Poly k
  pub activator : Option (Poly k)
  pub data_type : DataType h

-- `add_mv_lookup_claim` into the table of the numbers below `2 ^ nv`, `add_mv_zerocheck_claim` and
-- `add_mv_nozerocheck_claim`
pub data Claim (k : PrimeField) : Type 0 where
  lookup : ℕ → Poly k → Claim k
  zerocheck nozerocheck : Poly k → Claim k

-- `panic` is the panic on a column without a sign, `no_commitment` a proof that is too short
pub data SnarkError : Type 0 where
  not_supported no_commitment panic : SnarkError

pub record Transcript (k : PrimeField) : Type 0 where
  pub commitments : List (Poly k)
  pub claims : List (Claim k)

-- the product with an activator, if there is one
abbrev pub activate : (k : PrimeField) → Option (Poly k) → Poly k → Poly k
activate k none p = p
activate k (some a) p = λ i. k.mul (p i) (a i)

module _ {h : Host} {k : PrimeField} where
  -- `activated_data_tracked_poly` of a column or a column oracle
  unfoldable pub activated_data : TrackedCol h k → Poly k
  activated_data c = activate k c.activator c.data_poly

  unfoldable pub negated_col : TrackedCol h k → TrackedCol h k
  negated_col c = record c { data_poly = λ i. k.mul (c.data_poly i) (k.neg k.one_F) }

  unfoldable pub add_range_inclusion : TrackedCol h k → ℕ → Claim k
  unfolding activated_data
  add_range_inclusion c nv = Claim.lookup nv (activated_data c)

  abbrev pub add_range_inclusions : List (TrackedCol h k) → ℕ → List (Claim k)
  add_range_inclusions [] nv = []
  add_range_inclusions (c ∷ cs) nv = add_range_inclusion c nv ∷ add_range_inclusions cs nv

  -- the most significant chunk below `2 ^ 15`, the others below `2 ^ 16`
  abbrev pub signed_range_inclusions : List (TrackedCol h k) → List (Claim k)
  signed_range_inclusions [] = []
  signed_range_inclusions (top ∷ rest) = add_range_inclusion top 15 ∷ add_range_inclusions rest 16

  -- the column of a chunk
  abbrev pub chunk_col : TrackedCol h k → Poly k → TrackedCol h k
  chunk_col c p = record c { data_poly = p }

  abbrev pub chunk_cols : TrackedCol h k → List (Poly k) → List (TrackedCol h k)
  chunk_cols c [] = []
  chunk_cols c (p ∷ ps) = chunk_col c p ∷ chunk_cols c ps

  -- whether a row is passed over, `activator_evals.as_ref().is_some_and(|a| a[idx].is_zero())`
  abbrev pub is_inactive : TrackedCol h k → ℕ → Bool
  is_inactive c i = elim c.activator [ none ↦ false | some a ↦ is_zero k (a i) ]

abbrev pub at_row : (k : PrimeField) → ℕ → List (Poly k) → List k.F
at_row k i [] = []
at_row k i (p ∷ ps) = p i ∷ at_row k i ps

-- `recompose_tracked_polys` and `recompose_tracked_oracles`; they are never called on no chunk
unfoldable pub recompose : (k : PrimeField) → List (Poly k) → Poly k
recompose k [] i = k.zero_F
recompose k (p ∷ ps) i = recompose_from k (p i) (at_row k i ps)

-- entry `j` of a chunk array
abbrev pub chunk_or : List ℤ → ℕ → ℤ
chunk_or [] j = pos 0
chunk_or (c ∷ cs) zero = c
chunk_or (c ∷ cs) (suc j) = chunk_or cs j

abbrev pub unsigned_chunks : List ℕ → List ℤ
unsigned_chunks [] = []
unsigned_chunks (c ∷ cs) = pos c ∷ unsigned_chunks cs

-- the most significant chunk is read as an `i16`
abbrev pub signed_top : List ℕ → List ℤ
signed_top [] = []
signed_top (c ∷ cs) = as_signed 16 c ∷ unsigned_chunks cs

module _ {h : Host} {k : PrimeField} where
  -- the polynomials of chunks `j`, `j + 1`, …, `n` of them
  unfoldable pub chunk_polys : TrackedCol h k → (k.F → List ℤ) → ℕ → ℕ → List (Poly k)
  chunk_polys c eval_to_chunks j zero = []
  chunk_polys c eval_to_chunks j (suc n) =
      (λ i.
        if is_inactive c i
        then k.zero_F
        else k.from_signed (chunk_or (eval_to_chunks (c.data_poly i)) j))
      ∷ chunk_polys c eval_to_chunks (j + 1) n

  -- `zero_poly` of the paths with four chunks, and of those with eight and sixteen
  unfoldable pub zero_poly_4 : TrackedCol h k → List (Poly k) → Poly k
  unfolding activated_data recompose
  zero_poly_4 c ps i = sub_F k (activated_data c i) (recompose k ps i)

  unfoldable pub zero_poly : TrackedCol h k → List (Poly k) → Poly k
  unfolding recompose
  zero_poly c ps = activate k c.activator (λ i. sub_F k (c.data_poly i) (recompose k ps i))

module _ (k : PrimeField) where
  -- how each path reads a value of an active row
  unfoldable pub uint32_chunks : k.F → List ℤ
  uint32_chunks v = unsigned_chunks (split_u32_into_u16s (field_low_bits_unsigned k v 32))

  unfoldable pub int32_chunks : k.F → List ℤ
  int32_chunks v =
      signed_top (
        split_i32_into_u16s (as_signed 32 (twos_complement 32 (field_signed_from_encoding k v 32))))

  unfoldable pub uint64_chunks : k.F → List ℤ
  uint64_chunks v = unsigned_chunks (split_u64_into_u16s (field_low_bits_unsigned k v 64))

  unfoldable pub int64_chunks : k.F → List ℤ
  int64_chunks v =
      signed_top (
        split_i64_into_u16s (as_signed 64 (twos_complement 64 (field_signed_from_encoding k v 64))))

  unfoldable pub int128_chunks : k.F → List ℤ
  int128_chunks v = unsigned_chunks (split_i128_into_u16s (field_signed_from_encoding k v 128))

-- the loop of `split_field_into_u16_limbs`: `n` chunks, least significant first
limb_chunks : ℕ → List ℕ → ℕ → List ℕ
limb_chunks zero limbs shift = []
limb_chunks (suc n) [] shift = 0 ∷ limb_chunks n [] shift
limb_chunks (suc n) (limb ∷ limbs) shift =
    let next_limb = limb_chunks n limbs (shift + 16 - 64) in
    let same_limb = limb_chunks n (limb ∷ limbs) (shift + 16) in
    limb / 2 ^ shift % 65536 ∷ (if leb 64 (shift + 16) then next_limb else same_limb)

unfoldable pub field_chunks : (k : PrimeField) → k.F → List ℤ
unfolding limb_chunks
field_chunks k v = unsigned_chunks (reverse (limb_chunks 16 (k.limbs v) 0))
