-- ===== src/Sign/Protocol.antt =====
-- `prove`, `verify`, `prove_sign_inner`, `verify_sign_inner` and what they call (sign/mod.rs).
-- The prover's run gives the polynomials that it commits to and the claims that it adds, in order;
-- the verifier reads commitments in order, and adds its own claims.
pub mod Agreement
pub mod Soundness
pub mod Gadget
pub mod Completeness
use truth_table.Common.{
  ℕ, zero, suc, ◌+◌, List, [], ◌∷◌, ◌++◌, Option, none, some, Result, ok, err, ◌>>=◌, length,
}
use truth_table.Common.Int.{ℤ}
use truth_table.Datafusion.Host.{Host}
use truth_table.Datafusion.Arrow.{DataType}
use truth_table.Field.{PrimeField}
use truth_table.Sign.Config.{Sign, SignConfig, sign_for_index}
use truth_table.Sign.Column.{
  Poly, TrackedCol, Claim, SnarkError, Transcript, no_commitment, not_supported, panic, negated_col,
  add_range_inclusion, add_range_inclusions, signed_range_inclusions, chunk_cols, chunk_polys,
  zero_poly_4, zero_poly, uint32_chunks, int32_chunks, uint64_chunks, int64_chunks, int128_chunks,
  field_chunks,
}

module _ {h : Host} {k : PrimeField} where
  -- `prove_non_neg_*`: commit to the chunks and claim that they recompose to the value
  unfoldable pub prove_chunks_4 : TrackedCol h k → (k.F → List ℤ) → List (Poly k) × Claim k
  prove_chunks_4 c eval_to_chunks =
      let ps = chunk_polys c eval_to_chunks 0 4 in (ps, Claim.zerocheck (zero_poly_4 c ps))

  unfoldable pub prove_chunks : TrackedCol h k → (k.F → List ℤ) → ℕ → List (Poly k) × Claim k
  prove_chunks c eval_to_chunks n =
      let ps = chunk_polys c eval_to_chunks 0 n in (ps, Claim.zerocheck (zero_poly c ps))

  -- the chunks' ranges, all unsigned or with a signed top
  abbrev unsigned_transcript : TrackedCol h k → List (Poly k) × Claim k → Transcript k
  unsigned_transcript c r = record {
    commitments = r.0;
    claims = r.1 ∷ add_range_inclusions (chunk_cols c r.0) 16;
  }

  abbrev signed_transcript : TrackedCol h k → List (Poly k) × Claim k → Transcript k
  signed_transcript c r = record {
    commitments = r.0;
    claims = r.1 ∷ signed_range_inclusions (chunk_cols c r.0);
  }

  abbrev direct_transcript : TrackedCol h k → ℕ → Transcript k
  direct_transcript c nv = record { commitments = []; claims = add_range_inclusion c nv ∷ [] }

  unfoldable pub prove_sign_for : DataType h → TrackedCol h k → Result SnarkError (Transcript k)
  prove_sign_for DataType.uint8 c = ok (direct_transcript c 8)
  prove_sign_for DataType.int8 c = ok (direct_transcript c 7)
  prove_sign_for DataType.uint16 c = ok (direct_transcript c 16)
  prove_sign_for DataType.int16 c = ok (direct_transcript c 15)
  prove_sign_for DataType.uint32 c = ok (unsigned_transcript c (prove_chunks_4 c (uint32_chunks k)))
  prove_sign_for DataType.int32 c = ok (signed_transcript c (prove_chunks_4 c (int32_chunks k)))
  prove_sign_for DataType.date32 c = ok (signed_transcript c (prove_chunks_4 c (int32_chunks k)))
  prove_sign_for DataType.uint64 c = ok (unsigned_transcript c (prove_chunks_4 c (uint64_chunks k)))
  prove_sign_for DataType.int64 c = ok (signed_transcript c (prove_chunks_4 c (int64_chunks k)))
  prove_sign_for (DataType.decimal128 _ _) c =
      ok (signed_transcript c (prove_chunks c (int128_chunks k) 8))
  prove_sign_for DataType.utf8_view c =
      ok (unsigned_transcript c (prove_chunks c (field_chunks k) 16))
  prove_sign_for _ c = err not_supported

  unfoldable pub prove_sign_inner : TrackedCol h k → Result SnarkError (Transcript k)
  unfolding prove_sign_for
  prove_sign_inner c = prove_sign_for c.data_type c

-- `track_next_mv_com`, `n` times: the commitments, and those that are left
unfoldable pub track_next_coms :
    (k : PrimeField) → ℕ → List (Poly k) → Result SnarkError (List (Poly k) × List (Poly k))
track_next_coms k zero coms = ok ([], coms)
track_next_coms k (suc n) [] = err no_commitment
track_next_coms k (suc n) (p ∷ coms) = do (ps, rest) ← track_next_coms k n coms; ok (p ∷ ps, rest)

-- the use of `sign_for_index`, which panics where there is no sign
abbrev pub with_sign {ℓ} :
    {A : Type ℓ} → Option Sign → (Sign → Result SnarkError A) → Result SnarkError A
with_sign none f = err panic
with_sign (some s) f = f s

-- a run of the verifier: its claims, and the commitments that are left
abbrev pub Run : PrimeField → Type 0
Run k = Result SnarkError (List (Claim k) × List (Poly k))

module _ {h : Host} {k : PrimeField} where
  unfoldable pub verify_unsigned :
      TrackedCol h k → ℕ → (List (Poly k) → Poly k) → List (Poly k) → Run k
  verify_unsigned c n difference coms = do
    (ps, rest) ← track_next_coms k n coms
    ok (Claim.zerocheck (difference ps) ∷ add_range_inclusions (chunk_cols c ps) 16, rest)

  unfoldable pub verify_signed :
      TrackedCol h k → ℕ → (List (Poly k) → Poly k) → List (Poly k) → Run k
  verify_signed c n difference coms = do
    (ps, rest) ← track_next_coms k n coms
    ok (Claim.zerocheck (difference ps) ∷ signed_range_inclusions (chunk_cols c ps), rest)

  unfoldable pub verify_sign_for : DataType h → TrackedCol h k → List (Poly k) → Run k
  verify_sign_for DataType.uint8 c coms = ok (add_range_inclusion c 8 ∷ [], coms)
  verify_sign_for DataType.int8 c coms = ok (add_range_inclusion c 7 ∷ [], coms)
  verify_sign_for DataType.uint16 c coms = ok (add_range_inclusion c 16 ∷ [], coms)
  verify_sign_for DataType.int16 c coms = ok (add_range_inclusion c 15 ∷ [], coms)
  verify_sign_for DataType.uint32 c coms = verify_unsigned c 4 (zero_poly_4 c) coms
  verify_sign_for DataType.int32 c coms = verify_signed c 4 (zero_poly_4 c) coms
  verify_sign_for DataType.date32 c coms = verify_signed c 4 (zero_poly_4 c) coms
  verify_sign_for DataType.uint64 c coms = verify_unsigned c 4 (zero_poly_4 c) coms
  verify_sign_for DataType.int64 c coms = verify_signed c 4 (zero_poly_4 c) coms
  verify_sign_for (DataType.decimal128 _ _) c coms = verify_signed c 8 (zero_poly c) coms
  verify_sign_for DataType.utf8_view c coms = verify_unsigned c 16 (zero_poly c) coms
  verify_sign_for _ c coms = err not_supported

  unfoldable pub verify_sign_inner : TrackedCol h k → List (Poly k) → Run k
  unfolding verify_sign_for verify_unsigned verify_signed
  verify_sign_inner c = verify_sign_for c.data_type c

  -- the column whose sign `prove` and `verify` show in place of the given one
  unfoldable pub signed_col : Sign → TrackedCol h k → TrackedCol h k
  signed_col Sign.non_negative c = c
  signed_col Sign.positive c = c
  signed_col Sign.non_positive c = negated_col c
  signed_col Sign.negative c = negated_col c

  -- the loops of `prove` and `verify` over the data columns, `idx` of which are done
  unfoldable pub prove_from :
      SignConfig → ℕ → ℕ → List (TrackedCol h k) → Result SnarkError (Transcript k)
  prove_from cfg total idx [] = ok (record { commitments = []; claims = [] })
  prove_from cfg total idx (c ∷ cs) = with_sign (sign_for_index cfg idx total) λ s. do
    first ← prove_sign_inner (signed_col s c)
    rest ← prove_from cfg total (idx + 1) cs
    ok (record {
      commitments = first.commitments ++ rest.commitments;
      claims = first.claims ++ rest.claims;
    })

  unfoldable pub prove : SignConfig → List (TrackedCol h k) → Result SnarkError (Transcript k)
  unfolding prove_from
  prove cfg cs = prove_from cfg (length cs) 0 cs

  unfoldable pub verify_from : SignConfig → ℕ → ℕ → List (TrackedCol h k) → List (Poly k) → Run k
  verify_from cfg total idx [] coms = ok ([], coms)
  verify_from cfg total idx (c ∷ cs) coms = with_sign (sign_for_index cfg idx total) λ s. do
    (first, coms') ← verify_sign_inner (signed_col s c) coms
    (rest, left) ← verify_from cfg total (idx + 1) cs coms'
    ok (first ++ rest, left)

  unfoldable pub verify : SignConfig → List (TrackedCol h k) → List (Poly k) → Run k
  unfolding verify_from
  verify cfg cs coms = verify_from cfg (length cs) 0 cs coms
