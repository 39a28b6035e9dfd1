-- ===== src/Tests/Sign.antt =====
-- The sign gadget at two columns, over the numbers below the prime 2 ^ 127 - 1.
use native.Mathlib.Bridge.{le_prop}
use mathlib.Core.Path.{subst}
use mathlib.Core.HLevel.{Σ_prop_path}
use truth_table.Common.{
  ℕ, zero, suc, ◌-◌, ◌^◌, ◌<◌, ◌↔◌, Option, get_elem?, ◌≡◌, refl, List, [], ◌∷◌, ◌++◌, none, some,
  ok, true, arith,
}
use truth_table.Common.Int.{ℤ, pos, negsuc}
use truth_table.Datafusion.Arrow.{DataType}
use truth_table.Field.{PrimeField, IsLawful}
use truth_table.Field.Modular.{modular, modular-IsLawful}
use truth_table.Sign.Config.{
  Sign, SignConfig, sign_for_index, zero_sensitive_indices, is_strict,
  zero_sensitive_indices-sign_for_index, elem,
}
use truth_table.Sign.Column.{
  Poly, TrackedCol, Claim, Transcript, chunk_polys, int64_chunks, uint64_chunks, zero_poly_4,
  signed_range_inclusions, chunk_cols, add_range_inclusion, activated_data, recompose,
}
use truth_table.Sign.Chunks.{recompose_from}
use truth_table.Sign.HonestCheck.{honest_prover_check}
use truth_table.Sign.HonestCheck.Values.{Fits, kind, Shown}
use truth_table.Sign.HonestCheck.Integers.{Hold, IsActive, honest_prover_check-Shown}
use truth_table.Sign.Claims.{AllHold, range_size}
use truth_table.Sign.Protocol.{
  prove, prove_from, prove_sign_inner, prove_sign_for, prove_chunks_4, verify, verify_sign_inner,
  verify_signed, verify_from, verify_sign_for, track_next_coms, signed_col,
}
use truth_table.Sign.Protocol.Agreement.{verify-prove}
use truth_table.Sign.Protocol.Soundness.{verify_sign_inner-lt}
use truth_table.Sign.Protocol.Gadget.{verify-lt}
use truth_table.Sign.Protocol.Completeness.{recompose-chunk_polys}
use truth_table.Tests.Database.{host}

abbrev modulus : ℕ
modulus = 2 ^ 127 - 1

pub one-lt-modulus : 1 < modulus
one-lt-modulus = omega arith

abbrev pub field : PrimeField
field = modular modulus 127 one-lt-modulus

pub field-IsLawful : IsLawful field
field-IsLawful = modular-IsLawful modulus 127 one-lt-modulus (omega arith)

abbrev pub signs : SignConfig
signs = SignConfig.per_column (Sign.non_negative ∷ Sign.positive ∷ [])

zero_sensitive_indices-sign_for_index_example : elem 1 (zero_sensitive_indices signs 2) ≡ true
unfolding sign_for_index is_strict
zero_sensitive_indices-sign_for_index_example = zero_sensitive_indices-sign_for_index signs 2 1 refl

abbrev pub ages : TrackedCol host field
ages = record { data_poly = field.from; activator = none; data_type = DataType.uint8 }

-- 65541 in each row
abbrev pub balances : TrackedCol host field
balances = record {
  data_poly = λ i. field.from 65541;
  activator = none;
  data_type = DataType.int64;
}

abbrev pub balance_chunks : List (Poly field)
balance_chunks = chunk_polys balances (int64_chunks field) 0 4

abbrev pub transcript : Transcript field
transcript = record {
  commitments = balance_chunks ++ [];
  claims =
      add_range_inclusion ages 8
      ∷ Claim.zerocheck (zero_poly_4 balances balance_chunks)
      ∷ (signed_range_inclusions (chunk_cols balances balance_chunks) ++ []);
}

prove-transcript : prove signs (ages ∷ balances ∷ []) ≡ ok transcript
unfolding prove prove_from prove_sign_inner prove_sign_for prove_chunks_4 sign_for_index signed_col
prove-transcript = refl

verify-prove_example :
    verify signs (ages ∷ balances ∷ []) (transcript.commitments ++ []) ≡ ok (transcript.claims, [])
verify-prove_example = verify-prove signs (ages ∷ balances ∷ []) [] prove-transcript

-- the commitments 0, 0, 1, 5 in each row
abbrev constant : ℕ → Poly field
constant n i = field.from n

abbrev commitments : List (Poly field)
commitments = constant 0 ∷ constant 0 ∷ constant 1 ∷ constant 5 ∷ []

abbrev claims : List (Claim field)
claims =
    Claim.zerocheck (zero_poly_4 balances commitments)
    ∷ signed_range_inclusions (chunk_cols balances commitments)

verify_sign_inner-claims : verify_sign_inner balances commitments ≡ ok (claims, [])
unfolding verify_sign_inner verify_sign_for verify_signed track_next_coms
verify_sign_inner-claims = refl

claims-AllHold : AllHold 2 claims
unfolding add_range_inclusion activated_data zero_poly_4 recompose recompose_from
claims-AllHold = (
  (λ i lt. Σ_prop_path (λ n. le_prop) refl),
  (
    (λ i lt. (0, omega arith, refl)),
    (
      (λ i lt. (0, omega arith, refl)),
      ((λ i lt. (1, omega arith, refl)), ((λ i lt. (5, omega arith, refl)), tt)),
    ),
  ),
)

verify_sign_inner-lt_example : 65541 < range_size {h = host} DataType.int64
verify_sign_inner-lt_example =
    verify_sign_inner-lt field-IsLawful 2 balances commitments verify_sign_inner-claims
      claims-AllHold 1 (omega arith) tt

verify-claims :
    verify signs (ages ∷ balances ∷ []) commitments
    ≡ ok (add_range_inclusion ages 8 ∷ (claims ++ []), [])
unfolding verify verify_from verify_sign_inner verify_sign_for verify_signed track_next_coms
    sign_for_index signed_col
verify-claims = refl

verify-claims-AllHold : AllHold 2 (add_range_inclusion ages 8 ∷ (claims ++ []))
unfolding add_range_inclusion activated_data
verify-claims-AllHold = ((λ i lt. (i, omega arith, refl)), claims-AllHold)

signs-second : sign_for_index signs 1 2 ≡ some Sign.positive
unfolding sign_for_index
signs-second = refl

verify-lt_example :
    field.into_bigint ((signed_col Sign.positive balances).data_poly 1)
    < range_size {h = host} DataType.int64
verify-lt_example =
    verify-lt field-IsLawful 2 signs (ages ∷ balances ∷ []) commitments verify-claims
      verify-claims-AllHold 1 refl signs-second 1 (omega arith) tt

recompose-chunk_polys_example :
    field.into_bigint (recompose field (chunk_polys balances (uint64_chunks field) 0 4) 1) ≡ 65541
recompose-chunk_polys_example =
    recompose-chunk_polys field-IsLawful (omega arith) balances 1 refl (omega arith)

-- -1 in row 0 and -2 in row 1
abbrev debts : TrackedCol host field
debts = record {
  data_poly = λ i. field.from_signed (negsuc i);
  activator = none;
  data_type = DataType.int8;
}

abbrev up_and_down : SignConfig
up_and_down = SignConfig.per_column (Sign.non_negative ∷ Sign.negative ∷ [])

abbrev ages_and_debts : List (TrackedCol host field)
ages_and_debts = ages ∷ debts ∷ []

abbrev value : ℕ → ℕ → ℤ
value zero i = pos i
value (suc j) i = negsuc i

same_column :
    {c d : TrackedCol host field}
    → ◌≡◌ {A = Option (TrackedCol host field)} (some c) (some d)
    → c ≡ d
same_column e = cc

ages_and_debts-Hold : Hold field-IsLawful up_and_down 2 ages_and_debts value
ages_and_debts-Hold zero c found i lt active =
    subst
      (λ (d : TrackedCol host field).
        (d.data_poly i ≡ field.from_signed (pos i)) × Fits modulus (kind d.data_type) (pos i))
      (same_column found) (refl, omega arith)
ages_and_debts-Hold (suc zero) c found i lt active =
    subst
      (λ (d : TrackedCol host field).
        (d.data_poly i ≡ field.from_signed (negsuc i)) × Fits modulus (kind d.data_type) (negsuc i))
      (same_column found) (refl, (omega arith, omega arith))
ages_and_debts-Hold (suc (suc j)) c found i lt active = cc

honest_prover_check-Shown_example : (honest_prover_check up_and_down 2 ages_and_debts ≡ ok tt) ↔ (
    (j : ℕ) (c : TrackedCol host field)
    → get_elem? ages_and_debts j ≡ some c
    → (s : Sign) × (sign_for_index up_and_down j 2 ≡ some s)
      × ((i : ℕ) → i < 2 → IsActive c i → Shown (kind c.data_type) s (value j i)))
honest_prover_check-Shown_example =
    honest_prover_check-Shown field-IsLawful up_and_down 2 ages_and_debts value ages_and_debts-Hold
