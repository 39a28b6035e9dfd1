-- ===== src/KeyedSumcheck/Balance.antt =====
-- The check against the number of times that each side holds each element.
use truth_table.Common.{List, [], true, ok, ◌≡◌, ◌≢◌, length, arith, ◌↔◌, ◌%◌}
use truth_table.Field.{PrimeField, IsLawful, is_zero}
use truth_table.KeyedSumcheck.{
  KeyedSumcheckProverInput, honest_prover_check_helper, check_counts, changes,
}
use truth_table.KeyedSumcheck.Bookkeeping.{
  bump_all, all_zero, balance, count_of-bump_all, count_of-is_zero, bump_all-AreDistinct,
  all_zero-of_counts,
}
use truth_table.KeyedSumcheck.Counts.{occurrences, balances-occurrences}

module _ (k : PrimeField) where
  check_counts-ok :
      (counts : List (k.F × k.F)) → check_counts k counts ≡ ok tt → all_zero k counts ≡ true
  unfolding check_counts
  check_counts-ok counts e = ground arith

  check_counts_intro :
      (counts : List (k.F × k.F)) → all_zero k counts ≡ true → check_counts k counts ≡ ok tt
  unfolding check_counts
  check_counts_intro counts e = rw e

  counts_ok-balance :
      (ds : List (k.F × k.F))
      → (check_counts k (bump_all k [] ds) ≡ ok tt)
        ↔ ((x : k.F) → is_zero k (balance k x k.zero_F ds) ≡ true)
  counts_ok-balance ds = (
    (λ e x.
        rw (← count_of-bump_all k x ds [])
          (count_of-is_zero k (bump_all k [] ds) (check_counts-ok (bump_all k [] ds) e) x)),
    (λ zeros. check_counts_intro (bump_all k [] ds) (
        all_zero-of_counts k (bump_all k [] ds) (bump_all-AreDistinct k ds [] tt)
          (λ x. rw (count_of-bump_all k x ds []) (zeros x)))),
  )

  checked_ok :
      (input : KeyedSumcheckProverInput k)
      → length input.fxs ≢ 0
      → length input.fxs ≡ length input.mfxs
      → length input.gxs ≢ 0
      → length input.gxs ≡ length input.mgxs
      → honest_prover_check_helper k input ≡ check_counts k (bump_all k [] (changes k input))
  unfolding honest_prover_check_helper
  checked_ok input f fm g gm = ground arith

  -- If both sides have columns, and as many multiplicities as columns, then the check succeeds
  -- exactly when, for every element, the numbers of its occurrences on the two sides are equal
  -- modulo the characteristic: on each side, the sum over the columns and the numbers of their rows
  -- of the multiplicity of each row that holds the element and at which the activator, if there is
  -- one, is one. A column without multiplicities counts each row once.
  pub honest_prover_check-balance :
      (law : IsLawful k) (input : KeyedSumcheckProverInput k)
      → length input.fxs ≢ 0
      → length input.fxs ≡ length input.mfxs
      → length input.gxs ≢ 0
      → length input.gxs ≡ length input.mgxs
      → (honest_prover_check_helper k input ≡ ok tt) ↔ (
          (x : k.F)
          → occurrences k x input.fxs input.mfxs % k.modulus
            ≡ occurrences k x input.gxs input.mgxs % k.modulus)
  unfolding changes
  honest_prover_check-balance law input f fm g gm =
      let sides =
        λ (x : k.F). balances-occurrences law x input.fxs input.gxs input.mfxs input.mgxs in
      let checked = counts_ok-balance (changes k input) in
      rw (checked_ok input f fm g gm)
        ((λ e x. (sides x).0 (checked.0 e x)), (λ h. checked.1 (λ x. (sides x).1 (h x))))
