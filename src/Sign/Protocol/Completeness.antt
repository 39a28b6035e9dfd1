-- ===== src/Sign/Protocol/Completeness.antt =====
-- The chunks of `prove_non_neg_uint64` at one row (sign/mod.rs).
use native.Mathlib.Nat.{mod-eq_of_lt}
use truth_table.Common.{ℕ, ◌+◌, ◌*◌, ◌%◌, ◌^◌, ◌<◌, ◌≡◌, ◌∙◌, [], ◌∷◌, false, arith}
use truth_table.Datafusion.Host.{Host}
use truth_table.Field.{PrimeField, IsLawful}
use truth_table.Sign.Chunks.{recompose_from, split_u64_into_u16s, chunk_at}
use truth_table.Sign.Decode.{field_low_bits_unsigned}
use truth_table.Sign.Decode.LowBits.{Width, field_low_bits_unsigned-mod}
use truth_table.Sign.Column.{TrackedCol, is_inactive, chunk_polys, recompose, uint64_chunks}

module _ {k : PrimeField} (law : IsLawful k) (big : 2 ^ 64 < k.modulus) where
  into_bigint-from_digit : (d : ℕ) → d < 65536 → k.into_bigint (k.from d) ≡ d
  into_bigint-from_digit d h = law.into_bigint-from d ∙ mod-eq_of_lt (omega (arith, big, h))

  into_bigint-step :
      (acc : k.F) (a d : ℕ)
      → k.into_bigint acc ≡ a
      → d < 65536
      → a * 65536 + d < k.modulus
      → k.into_bigint (k.add (k.mul acc (k.from 65536)) (k.from d)) ≡ a * 65536 + d
  into_bigint-step acc a d ea hd fits =
      let base : k.into_bigint (k.from 65536) ≡ 65536 =
        law.into_bigint-from 65536 ∙ mod-eq_of_lt (omega (arith, big)) in
      let shifted : k.into_bigint (k.mul acc (k.from 65536)) ≡ a * 65536 =
        law.into_bigint-mul acc (k.from 65536)
        ∙ rw (ea, base) (mod-eq_of_lt (omega (arith, fits))) in
      law.into_bigint-add (k.mul acc (k.from 65536)) (k.from d)
      ∙ rw (shifted, into_bigint-from_digit d hd) (mod-eq_of_lt fits)

  recompose_from-digits :
      (a b c d : ℕ)
      → a < 65536
      → b < 65536
      → c < 65536
      → d < 65536
      → k.into_bigint (recompose_from k (k.from a) (k.from b ∷ k.from c ∷ k.from d ∷ []))
        ≡ ((a * 65536 + b) * 65536 + c) * 65536 + d
  unfolding recompose_from
  recompose_from-digits a b c d ha hb hc hd =
      let one =
        into_bigint-step (k.from a) a b (into_bigint-from_digit a ha) hb
          (omega (arith, big, ha, hb)) in
      let two = into_bigint-step _ (a * 65536 + b) c one hc (omega (arith, big, ha, hb, hc)) in
      into_bigint-step _ ((a * 65536 + b) * 65536 + c) d two hd (omega (arith, big, ha, hb, hc, hd))

  low_bits-value :
      (v : k.F) → k.into_bigint v < 2 ^ 64 → field_low_bits_unsigned k v 64 ≡ k.into_bigint v
  low_bits-value v h = field_low_bits_unsigned-mod k law v Width.w64 ∙ mod-eq_of_lt h

  split-recompose :
      (n : ℕ)
      → n < 2 ^ 64
      → k.into_bigint (
          recompose_from k
            (k.from (chunk_at n 48))
            (k.from (chunk_at n 32) ∷ k.from (chunk_at n 16) ∷ k.from (n % 65536) ∷ []))
        ≡ n
  split-recompose n h =
      recompose_from-digits (chunk_at n 48) (chunk_at n 32) (chunk_at n 16) (n % 65536)
        (omega arith) (omega arith) (omega arith) (omega arith)
      ∙ omega (arith, h)

  -- Over a field of more than 64 bits, at every row that is not passed over and whose value has 64
  -- bits, the chunks that the prover of an unsigned 64-bit column commits to recompose to the value.
  pub recompose-chunk_polys :
      {h : Host} (c : TrackedCol h k) (i : ℕ)
      → is_inactive c i ≡ false
      → k.into_bigint (c.data_poly i) < 2 ^ 64
      → k.into_bigint (recompose k (chunk_polys c (uint64_chunks k) 0 4) i)
        ≡ k.into_bigint (c.data_poly i)
  unfolding recompose chunk_polys uint64_chunks split_u64_into_u16s
  recompose-chunk_polys c i active small =
      let n = k.into_bigint (c.data_poly i) in
      rw
        (
          active,
          low_bits-value (c.data_poly i) small,
          law.from_signed-pos (chunk_at n 48),
          law.from_signed-pos (chunk_at n 32),
          law.from_signed-pos (chunk_at n 16),
          law.from_signed-pos (n % 65536),
        )
        (split-recompose n small)
