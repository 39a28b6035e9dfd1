-- ===== src/Sign/Protocol/Soundness.antt =====
-- The claims of `verify_sign_inner`, read at one row of the column (sign/mod.rs).
use truth_table.Common.{
  ℕ, zero, suc, ◌*◌, ◌^◌, ◌<◌, ◌≡◌, refl, sym, ◌∙◌, ap, List, [], ◌∷◌, Result, ok, err, ◌>>=◌,
  Option, none, some, length, arith,
}
use truth_table.Datafusion.Host.{Host}
use truth_table.Datafusion.Arrow.{DataType}
use truth_table.Field.{PrimeField, IsLawful, sub_F}
use truth_table.Field.Arithmetic.{
  into_bigint-mul_one, into_bigint-eq_of_sub, into_bigint-from-le, into_bigint-step-le,
}
use truth_table.Sign.Chunks.{recompose_from}
use truth_table.Sign.Column.{
  Poly, TrackedCol, Claim, SnarkError, activate, at_row, recompose, activated_data,
  add_range_inclusion, add_range_inclusions, signed_range_inclusions, chunk_cols, zero_poly_4,
  zero_poly,
}
use truth_table.Sign.Claims.{InRange, AllHold, IsActive, range_size}
use truth_table.Sign.Protocol.{
  Run, track_next_coms, verify_sign_for, verify_sign_inner, verify_unsigned, verify_signed,
}

-- of commitments that were read, how many
abbrev HasLength : (k : PrimeField) → ℕ → Result SnarkError (List (Poly k) × List (Poly k)) → Type 0
HasLength k n (ok r) = length r.0 ≡ n
HasLength k n (err e) = Unit

HasLength-suc :
    (k : PrimeField) (n : ℕ) (p : Poly k) (m : Result SnarkError (List (Poly k) × List (Poly k)))
    → HasLength k n m
    → HasLength k (suc n) (m >>= λ r. ok (p ∷ r.0, r.1))
HasLength-suc k n p (ok r) e = ap suc e
HasLength-suc k n p (err x) e = tt

track_next_coms-HasLength :
    (k : PrimeField) (n : ℕ) (coms : List (Poly k)) → HasLength k n (track_next_coms k n coms)
unfolding track_next_coms
track_next_coms-HasLength k zero coms = refl
track_next_coms-HasLength k (suc n) [] = tt
track_next_coms-HasLength k (suc n) (p ∷ coms) =
    HasLength-suc k n p (track_next_coms k n coms) (track_next_coms-HasLength k n coms)

AllBelow : (k : PrimeField) → ℕ → List k.F → Type 0
AllBelow k b [] = Unit
AllBelow k b (x ∷ xs) = (k.into_bigint x < b) × AllBelow k b xs

-- `a` times 65536, `n` times
abbrev scale : ℕ → ℕ → ℕ
scale a zero = a
scale a (suc n) = scale (a * 65536) n

module _ {k : PrimeField} (law : IsLawful k) where
  InRange-lt : (nv : ℕ) (x : k.F) → InRange k nv x → k.into_bigint x < 2 ^ nv
  InRange-lt nv x (n, l, e) = omega (arith, ap k.into_bigint e, into_bigint-from-le law n)

  -- at an active row the product with the activator is the value
  into_bigint-activate :
      (a : Option (Poly k)) (p : Poly k) (i : ℕ)
      → IsActive k a i
      → k.into_bigint (activate k a p i) ≡ k.into_bigint (p i)
  into_bigint-activate none p i e = refl
  into_bigint-activate (some a) p i e = into_bigint-mul_one law (p i) (a i) e

  recompose_from-lt :
      (b : ℕ) (acc : k.F) (cs : List k.F)
      → k.into_bigint acc < b
      → AllBelow k 65536 cs
      → k.into_bigint (recompose_from k acc cs) < scale b (length cs)
  unfolding recompose_from AllBelow
  recompose_from-lt b acc [] h below = h
  recompose_from-lt b acc (c ∷ cs) h below =
      recompose_from-lt (b * 65536) (k.add (k.mul acc (k.from 65536)) c) cs
        (omega (arith, into_bigint-step-le law acc c, below.0)) below.1

  length-at_row : (i : ℕ) (ps : List (Poly k)) → length (at_row k i ps) ≡ length ps
  length-at_row i [] = refl
  length-at_row i (p ∷ ps) = ap suc (length-at_row i ps)

  recompose-lt :
      (b n : ℕ) (p : Poly k) (ps : List (Poly k)) (i : ℕ)
      → length ps ≡ n
      → k.into_bigint (p i) < b
      → AllBelow k 65536 (at_row k i ps)
      → k.into_bigint (recompose k (p ∷ ps) i) < scale b n
  unfolding recompose
  recompose-lt b n p ps i e h below =
      rw (← e, ← length-at_row i ps) (recompose_from-lt b (p i) (at_row k i ps) h below)

module _ {h : Host} {k : PrimeField} (law : IsLawful k) (rows : ℕ) (c : TrackedCol h k) (i : ℕ)
    (lt : i < rows) (active : IsActive k c.activator i) where
  inclusion-lt :
      (p : Poly k) (nv : ℕ)
      → AllHold rows (add_range_inclusion (record c { data_poly = p }) nv ∷ [])
      → k.into_bigint (p i) < 2 ^ nv
  unfolding add_range_inclusion activated_data
  inclusion-lt p nv holds =
      let e = into_bigint-activate law c.activator p i active in
      omega (arith, InRange-lt law nv (activate k c.activator p i) (holds.0 i lt), e)

  inclusions-AllBelow :
      (ps : List (Poly k))
      → AllHold rows (add_range_inclusions (chunk_cols c ps) 16)
      → AllBelow k 65536 (at_row k i ps)
  unfolding AllBelow
  inclusions-AllBelow [] holds = tt
  inclusions-AllBelow (p ∷ ps) holds =
      (inclusion-lt p 16 (holds.0, tt), inclusions-AllBelow ps holds.1)

  zero_poly_4-zero :
      (ps : List (Poly k))
      → zero_poly_4 c ps i ≡ k.zero_F
      → k.into_bigint (c.data_poly i) ≡ k.into_bigint (recompose k ps i)
  unfolding zero_poly_4 activated_data
  zero_poly_4-zero ps e =
      sym (into_bigint-activate law c.activator c.data_poly i active)
      ∙ into_bigint-eq_of_sub law (activate k c.activator c.data_poly i) (recompose k ps i)
          (ap k.into_bigint e ∙ law.into_bigint-zero)

  zero_poly-zero :
      (ps : List (Poly k))
      → zero_poly c ps i ≡ k.zero_F
      → k.into_bigint (c.data_poly i) ≡ k.into_bigint (recompose k ps i)
  unfolding zero_poly
  zero_poly-zero ps e = into_bigint-eq_of_sub law (c.data_poly i) (recompose k ps i) (
      sym (
        into_bigint-activate law c.activator (λ j. sub_F k (c.data_poly j) (recompose k ps j)) i
          active)
      ∙ ap k.into_bigint e
      ∙ law.into_bigint-zero)

  -- if the claims of a run hold, then the value of the row lies below the bound
  abbrev Bounds : ℕ → Run k → Type 0
  Bounds b (ok r) = AllHold rows r.0 → k.into_bigint (c.data_poly i) < b
  Bounds b (err e) = Unit

  module _ (n : ℕ) (difference : List (Poly k) → Poly k)
      (recomposes : (ps : List (Poly k))
        → difference ps i ≡ k.zero_F
        → k.into_bigint (c.data_poly i) ≡ k.into_bigint (recompose k ps i)) where
    unsigned_Bounds :
        (m : Result SnarkError (List (Poly k) × List (Poly k)))
        → HasLength k (suc n) m
        → Bounds (scale 65536 n) (
            m >>= λ r.
            ok (Claim.zerocheck (difference r.0) ∷ add_range_inclusions (chunk_cols c r.0) 16, r.1))
    unsigned_Bounds (ok ([], rest)) e = λ holds. absurd (omega (arith, e))
    unsigned_Bounds (ok (p ∷ ps, rest)) e = λ holds. rw (recomposes (p ∷ ps) (holds.0 i lt)) (
        recompose-lt law 65536 n p ps i (omega (arith, e)) (inclusion-lt p 16 (holds.1.0, tt))
          (inclusions-AllBelow ps holds.1.1))
    unsigned_Bounds (err x) e = tt

    signed_Bounds :
        (m : Result SnarkError (List (Poly k) × List (Poly k)))
        → HasLength k (suc n) m
        → Bounds (scale 32768 n) (
            m >>= λ r.
            ok (Claim.zerocheck (difference r.0) ∷ signed_range_inclusions (chunk_cols c r.0), r.1))
    signed_Bounds (ok ([], rest)) e = λ holds. absurd (omega (arith, e))
    signed_Bounds (ok (p ∷ ps, rest)) e = λ holds. rw (recomposes (p ∷ ps) (holds.0 i lt)) (
        recompose-lt law 32768 n p ps i (omega (arith, e)) (inclusion-lt p 15 (holds.1.0, tt))
          (inclusions-AllBelow ps holds.1.1))
    signed_Bounds (err x) e = tt

  unsigned_4_Bounds :
      (coms : List (Poly k)) → Bounds (2 ^ 64) (verify_unsigned c 4 (zero_poly_4 c) coms)
  unfolding verify_unsigned
  unsigned_4_Bounds coms =
      unsigned_Bounds 3 (zero_poly_4 c) zero_poly_4-zero (track_next_coms k 4 coms)
        (track_next_coms-HasLength k 4 coms)

  signed_4_Bounds :
      (coms : List (Poly k)) → Bounds (2 ^ 63) (verify_signed c 4 (zero_poly_4 c) coms)
  unfolding verify_signed
  signed_4_Bounds coms =
      signed_Bounds 3 (zero_poly_4 c) zero_poly_4-zero (track_next_coms k 4 coms)
        (track_next_coms-HasLength k 4 coms)

  sign_for_Bounds :
      (t : DataType h) (coms : List (Poly k)) → Bounds (range_size t) (verify_sign_for t c coms)
  unfolding verify_sign_for verify_unsigned verify_signed range_size
  sign_for_Bounds DataType.uint8 coms = inclusion-lt c.data_poly 8
  sign_for_Bounds DataType.int8 coms = inclusion-lt c.data_poly 7
  sign_for_Bounds DataType.uint16 coms = inclusion-lt c.data_poly 16
  sign_for_Bounds DataType.int16 coms = inclusion-lt c.data_poly 15
  sign_for_Bounds DataType.uint32 coms = unsigned_4_Bounds coms
  sign_for_Bounds DataType.int32 coms = signed_4_Bounds coms
  sign_for_Bounds DataType.date32 coms = signed_4_Bounds coms
  sign_for_Bounds DataType.uint64 coms = unsigned_4_Bounds coms
  sign_for_Bounds DataType.int64 coms = signed_4_Bounds coms
  sign_for_Bounds (DataType.decimal128 p s) coms =
      signed_Bounds 7 (zero_poly c) zero_poly-zero (track_next_coms k 8 coms)
        (track_next_coms-HasLength k 8 coms)
  sign_for_Bounds DataType.utf8_view coms =
      unsigned_Bounds 15 (zero_poly c) zero_poly-zero (track_next_coms k 16 coms)
        (track_next_coms-HasLength k 16 coms)
  sign_for_Bounds _ coms = tt

  Bounds-ok :
      (b : ℕ) (m : Run k) {claims : List (Claim k)} {left : List (Poly k)}
      → Bounds b m
      → m ≡ ok (claims, left)
      → AllHold rows claims
      → k.into_bigint (c.data_poly i) < b
  Bounds-ok b (ok r) bound e holds = ground arith
  Bounds-ok b (err x) bound e holds = cc

-- Whatever commitments the verifier reads for a column, once the claims that it adds hold on the
-- rows, the value of every active row lies below the range size of the column's type.
pub verify_sign_inner-lt :
    {h : Host} {k : PrimeField} (law : IsLawful k) (rows : ℕ) (c : TrackedCol h k)
    (coms : List (Poly k)) {claims : List (Claim k)} {left : List (Poly k)}
    → verify_sign_inner c coms ≡ ok (claims, left)
    → AllHold rows claims
    → (i : ℕ) → i < rows
    → IsActive k c.activator i
    → k.into_bigint (c.data_poly i) < range_size c.data_type
unfolding verify_sign_inner
verify_sign_inner-lt law rows c coms e holds i lt active =
    Bounds-ok law rows c i lt active (range_size c.data_type) (verify_sign_for c.data_type c coms)
      (sign_for_Bounds law rows c i lt active c.data_type coms) e holds
