-- ===== src/KeyedSumcheck.antt =====
-- `KeyedSumcheck::honest_prover_check_helper`
-- (crates/tt-col-toolbox/src/keyed_sumcheck/honest_prover.rs): the prover's own check that two
-- sides hold each element equally often, counted with multiplicities.
pub mod Bookkeeping
pub mod Counts
pub mod Balance
use truth_table.Common.{
  ℕ, zero, suc, List, [], ◌∷◌, ◌++◌, map, Option, none, some, Bool, true, false, Result, ok, err,
  length, if◌then◌else◌, ◌==◌,
}
use truth_table.Field.{PrimeField, eqb_F, is_zero}
use truth_table.KeyedSumcheck.Bookkeeping.{bump_all, all_zero}

-- a tracked column by the evaluations of its data and its activator
pub record Evaluations (k : PrimeField) : Type 0 where
  pub data_evals : List k.F
  pub activator_evals : Option (List k.F)

pub record KeyedSumcheckProverInput (k : PrimeField) : Type 0 where
  pub fxs : List (Evaluations k)
  pub gxs : List (Evaluations k)
  pub mfxs : List (Option (List k.F))
  pub mgxs : List (Option (List k.F))

pub data HonestProverError : Type 0 where
  empty_input false_claim : HonestProverError
  input_length_mismatch : ℕ → ℕ → HonestProverError

module _ (k : PrimeField) where
  -- each row's element and what is added to its count, in the order of the loops
  unfoldable pub active_weighted : List k.F → List k.F → List k.F → List (k.F × k.F)
  active_weighted (x ∷ xs) (m ∷ ms) (a ∷ acts) =
      let rest = active_weighted xs ms acts in if eqb_F k a k.one_F then (x, m) ∷ rest else rest
  active_weighted _ _ _ = []

  unfoldable pub active_ones : List k.F → List k.F → List (k.F × k.F)
  active_ones (x ∷ xs) (a ∷ acts) =
      let rest = active_ones xs acts in if eqb_F k a k.one_F then (x, k.one_F) ∷ rest else rest
  active_ones _ _ = []

  unfoldable pub ones : List k.F → List (k.F × k.F)
  ones [] = []
  ones (x ∷ xs) = (x, k.one_F) ∷ ones xs

  unfoldable pub weighted : List k.F → List k.F → List (k.F × k.F)
  weighted (x ∷ xs) (m ∷ ms) = (x, m) ∷ weighted xs ms
  weighted _ _ = []

  unfoldable pub column_counts : Option (List k.F) → Option (List k.F) → List k.F → List (k.F × k.F)
  unfolding active_weighted active_ones ones weighted
  column_counts (some ms) (some acts) xs = active_weighted xs ms acts
  column_counts none (some acts) xs = active_ones xs acts
  column_counts none none xs = ones xs
  column_counts (some ms) none xs = weighted xs ms

  unfoldable pub side_counts : List (Evaluations k) → List (Option (List k.F)) → List (k.F × k.F)
  side_counts (x ∷ xs) (m ∷ ms) =
      column_counts m x.activator_evals x.data_evals ++ side_counts xs ms
  side_counts _ _ = []

  abbrev pub negated : List (k.F × k.F) → List (k.F × k.F)
  negated [] = []
  negated ((x, d) ∷ ds) = (x, k.neg d) ∷ negated ds

  -- every change of a count: the left side adds, the right side subtracts
  unfoldable pub changes : KeyedSumcheckProverInput k → List (k.F × k.F)
  changes input = side_counts input.fxs input.mfxs ++ negated (side_counts input.gxs input.mgxs)

  unfoldable pub check_counts : List (k.F × k.F) → Result HonestProverError (Unit {0})
  check_counts counts = if all_zero k counts then ok tt else err false_claim

  unfoldable pub honest_prover_check_helper :
      KeyedSumcheckProverInput k → Result HonestProverError (Unit {0})
  unfolding check_counts changes
  honest_prover_check_helper input =
      if length input.fxs == 0
      then err empty_input
      else if length input.fxs == length input.mfxs
      then if length input.gxs == 0
        then err empty_input
        else if length input.gxs == length input.mgxs
        then check_counts (bump_all k [] (changes input))
        else err (input_length_mismatch (length input.gxs) (length input.mgxs))
      else err (input_length_mismatch (length input.fxs) (length input.mfxs))
