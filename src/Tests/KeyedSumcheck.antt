-- ===== src/Tests/KeyedSumcheck.antt =====
-- The keyed check of two columns with the same elements, one of them weighted.
use truth_table.Common.{[], ◌∷◌, none, some, ok, ◌≡◌, ◌≢◌, ◌↔◌, refl, ℕ, ◌%◌, arith}
use truth_table.KeyedSumcheck.{KeyedSumcheckProverInput, honest_prover_check_helper}
use truth_table.KeyedSumcheck.Counts.{occurrences}
use truth_table.KeyedSumcheck.Balance.{honest_prover_check-balance}
use truth_table.Tests.Sign.{field, field-IsLawful}

-- 7 twice and 9 once in the active rows, and 9 and 7 with the multiplicities 1 and 2
abbrev sides : KeyedSumcheckProverInput field
sides = record {
  fxs =
      record {
        data_evals = field.from 7 ∷ field.from 9 ∷ field.from 7 ∷ field.from 5 ∷ [];
        activator_evals = some (field.from 1 ∷ field.from 1 ∷ field.from 1 ∷ field.from 0 ∷ []);
      }
      ∷ [];
  gxs = record { data_evals = field.from 9 ∷ field.from 7 ∷ []; activator_evals = none } ∷ [];
  mfxs = none ∷ [];
  mgxs = some (field.from 1 ∷ field.from 2 ∷ []) ∷ [];
}

one-ne : ◌≢◌ {A = ℕ} 1 0
one-ne = omega arith

honest_prover_check-balance_example : (honest_prover_check_helper field sides ≡ ok tt) ↔ (
    (x : field.F)
    → occurrences field x sides.fxs sides.mfxs % field.modulus
      ≡ occurrences field x sides.gxs sides.mgxs % field.modulus)
honest_prover_check-balance_example =
    honest_prover_check-balance field field-IsLawful sides one-ne refl one-ne refl
