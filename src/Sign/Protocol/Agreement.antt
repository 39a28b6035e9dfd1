-- ===== src/Sign/Protocol/Agreement.antt =====
-- `prove` and `verify` run on the same columns (sign/mod.rs).
use mathlib.Core.List.{append_assoc}
use truth_table.Common.{
  ℕ, zero, suc, ◌+◌, ◌≡◌, refl, List, [], ◌∷◌, ◌++◌, Result, ok, err, ◌>>=◌, Option, none, some,
  length, arith,
}
use truth_table.Common.Int.{ℤ}
use truth_table.Datafusion.Host.{Host}
use truth_table.Datafusion.Arrow.{DataType}
use truth_table.Field.{PrimeField}
use truth_table.Sign.Config.{Sign, SignConfig, sign_for_index}
use truth_table.Sign.Column.{
  Poly, TrackedCol, SnarkError, Transcript, chunk_polys, uint32_chunks, int32_chunks, uint64_chunks,
  int64_chunks, int128_chunks, field_chunks,
}
use truth_table.Sign.Protocol.{
  Run, with_sign, prove_sign_for, verify_sign_for, prove_sign_inner, verify_sign_inner,
  track_next_coms, signed_col, prove_chunks_4, prove_chunks, prove_from, verify_from, prove, verify,
  verify_unsigned, verify_signed,
}

track_next_coms-append :
    (k : PrimeField) (ps left : List (Poly k))
    → track_next_coms k (length ps) (ps ++ left) ≡ ok (ps, left)
unfolding track_next_coms
track_next_coms-append k [] left = refl
track_next_coms-append k (p ∷ ps) left = rw (track_next_coms-append k ps left)

-- what the verifier makes of the prover's commitments
abbrev Agrees :
    {k : PrimeField}
    → Result SnarkError (Transcript k)
    → (List (Poly k) → Run k)
    → List (Poly k)
    → Type 0
Agrees (ok t) run left = run (t.commitments ++ left) ≡ ok (t.claims, left)
Agrees (err e) run left = Unit

module _ {k : PrimeField} where
  -- one run after another
  then_Agrees :
      (m n : Result SnarkError (Transcript k)) (run run' : List (Poly k) → Run k)
      → ((left : List (Poly k)) → Agrees m run left)
      → ((left : List (Poly k)) → Agrees n run' left)
      → (left : List (Poly k))
      → Agrees
          (do
            first ← m
            rest ← n
            ok (record {
              commitments = first.commitments ++ rest.commitments;
              claims = first.claims ++ rest.claims;
            }))
          (λ coms. do
            (first, coms') ← run coms
            (rest, after) ← run' coms'
            ok (first ++ rest, after))
          left
  then_Agrees (ok t) (ok u) run run' a b left = rw (append_assoc, a (u.commitments ++ left), b left)
  then_Agrees (ok t) (err e) run run' a b left = tt
  then_Agrees (err e) n run run' a b left = tt

  with_sign-Agrees :
      (o : Option Sign) (f : Sign → Result SnarkError (Transcript k))
      (g : Sign → List (Poly k) → Run k)
      → ((s : Sign) (left : List (Poly k)) → Agrees (f s) (g s) left)
      → (left : List (Poly k)) → Agrees (with_sign o f) (λ coms. with_sign o (λ s. g s coms)) left
  with_sign-Agrees none f g a left = tt
  with_sign-Agrees (some s) f g a left = a s left

  Agrees-ok :
      (m : Result SnarkError (Transcript k)) (run : List (Poly k) → Run k) (left : List (Poly k))
      {t : Transcript k}
      → Agrees m run left
      → m ≡ ok t
      → run (t.commitments ++ left) ≡ ok (t.claims, left)
  Agrees-ok (ok u) run left a e = ground arith
  Agrees-ok (err x) run left a e = cc

module _ {h : Host} {k : PrimeField} where
  track-chunk_polys :
      (c : TrackedCol h k) (f : k.F → List ℤ) (j n : ℕ) (left : List (Poly k))
      → track_next_coms k n (chunk_polys c f j n ++ left) ≡ ok (chunk_polys c f j n, left)
  unfolding track_next_coms chunk_polys
  track-chunk_polys c f j zero left = refl
  track-chunk_polys c f j (suc n) left = rw (track-chunk_polys c f (j + 1) n left)

  inner_Agrees :
      (t : DataType h) (c : TrackedCol h k) (left : List (Poly k))
      → Agrees (prove_sign_for t c) (verify_sign_for t c) left
  unfolding prove_sign_for verify_sign_for verify_unsigned verify_signed prove_chunks_4 prove_chunks
  inner_Agrees DataType.uint8 c left = refl
  inner_Agrees DataType.int8 c left = refl
  inner_Agrees DataType.uint16 c left = refl
  inner_Agrees DataType.int16 c left = refl
  inner_Agrees DataType.uint32 c left = rw (track-chunk_polys c (uint32_chunks k) 0 4 left)
  inner_Agrees DataType.int32 c left = rw (track-chunk_polys c (int32_chunks k) 0 4 left)
  inner_Agrees DataType.date32 c left = rw (track-chunk_polys c (int32_chunks k) 0 4 left)
  inner_Agrees DataType.uint64 c left = rw (track-chunk_polys c (uint64_chunks k) 0 4 left)
  inner_Agrees DataType.int64 c left = rw (track-chunk_polys c (int64_chunks k) 0 4 left)
  inner_Agrees (DataType.decimal128 p s) c left =
      rw (track-chunk_polys c (int128_chunks k) 0 8 left)
  inner_Agrees DataType.utf8_view c left = rw (track-chunk_polys c (field_chunks k) 0 16 left)
  inner_Agrees _ c left = tt

  prove_from-Agrees :
      (cfg : SignConfig) (total idx : ℕ) (cs : List (TrackedCol h k)) (left : List (Poly k))
      → Agrees (prove_from cfg total idx cs) (verify_from cfg total idx cs) left
  unfolding prove_from verify_from prove_sign_inner verify_sign_inner
  prove_from-Agrees cfg total idx [] left = refl
  prove_from-Agrees cfg total idx (c ∷ cs) left =
      with_sign-Agrees (sign_for_index cfg idx total) _ _
        (λ s left'.
          then_Agrees (prove_sign_inner (signed_col s c)) (prove_from cfg total (idx + 1) cs)
            (verify_sign_inner (signed_col s c)) (verify_from cfg total (idx + 1) cs)
            (inner_Agrees (signed_col s c).data_type (signed_col s c))
            (prove_from-Agrees cfg total (idx + 1) cs) left')
        left

  -- Where the prover of a sign configuration succeeds, the verifier, given the prover's commitments
  -- followed by any others, adds exactly the prover's claims, in order, and leaves the others.
  pub verify-prove :
      (cfg : SignConfig) (cs : List (TrackedCol h k)) (left : List (Poly k)) {t : Transcript k}
      → prove cfg cs ≡ ok t
      → verify cfg cs (t.commitments ++ left) ≡ ok (t.claims, left)
  unfolding prove verify
  verify-prove cfg cs left =
      Agrees-ok (prove cfg cs) (verify cfg cs) left (prove_from-Agrees cfg (length cs) 0 cs left)
