-- ===== src/Gadgets/Equality/Folded.antt =====
-- The folds of the data columns of an input (crates/tt-core/src/irs/nodes/utils/eq/mod.rs, neq/mod.rs).
use truth_table.Common.{
  ℕ, zero, suc, ◌+◌, ◌%◌, ◌<◌, ◌≡◌, refl, ap, ◌∙◌, List, [], ◌∷◌, Option, some, length, arith,
  Bool-cases, inl, inr,
}
use truth_table.Datafusion.Host.{Host}
use truth_table.Datafusion.Arrow.{Field}
use truth_table.Field.{PrimeField, IsLawful}
use truth_table.Sign.Column.{Poly}
use truth_table.Table.{
  TrackedTable, FoldedCol, is_system_column, name_of, indices_from, activator_tracked_poly,
  data_tracked_polys_indices, fold_all_data_columns,
}
use truth_table.Table.Fold.{data_polys, weighted, FoldsTo, fold_all_data_columns-FoldsTo}
use truth_table.Gadgets.Equality.{drawn, num_challenges}

length-drawn : {F : Type 0} (challenge : ℕ → F) (start n : ℕ) → length (drawn challenge start n) ≡ n
length-drawn challenge start zero = refl
length-drawn challenge start (suc n) = ap suc (length-drawn challenge (start + 1) n)

pub length-indices_from :
    {h : Host} {P : Type 0} (idx : ℕ) (polys : List (Field h × P))
    → length (indices_from idx polys) ≡ length (data_polys polys)
unfolding indices_from
length-indices_from idx [] = refl
length-indices_from idx ((f, p) ∷ polys) = elim (Bool-cases (is_system_column (name_of f))) [
  | inl system ↦ rw system (length-indices_from (idx + 1) polys)
  | inr other ↦ rw other (ap suc (length-indices_from (idx + 1) polys))
]

module _ (k : PrimeField) where
  -- what stands for the data columns at a row: the value of a single one, or else their sum, weighted
  -- with the challenges
  abbrev pub row_value : List (Poly k) → List k.F → ℕ → ℕ
  row_value [] challs row = 0
  row_value (p ∷ []) challs row = k.into_bigint (p row)
  row_value (p ∷ q ∷ ps) challs row = weighted k (p ∷ q ∷ ps) challs row % k.modulus

  folded_value :
      (a : Option (Poly k)) (ps : List (Poly k)) (challs : List k.F) (r : Option (FoldedCol k))
      → FoldsTo k a ps challs r
      → 0 < length ps
      → length challs ≡ length ps
      → (c : FoldedCol k) × (r ≡ some c)
        × (c.activator ≡ a)
        × ((row : ℕ) → k.into_bigint (c.data_poly row) ≡ row_value ps challs row)
  folded_value a [] challs r folds pos len = absurd (omega arith)
  folded_value a (p ∷ []) challs r folds pos len = (_, folds, refl, λ row. refl)
  folded_value a (p ∷ q ∷ ps) [] r folds pos len = absurd (omega arith)
  folded_value a (p ∷ q ∷ ps) (chall ∷ challs) r (s, e, value) pos len = (_, e, refl, value)

module _ {h : Host} {k : PrimeField} (law : IsLawful k) (challenge : ℕ → k.F) where
  -- the challenges of a table, and the row of its data columns
  abbrev pub challenges : TrackedTable h k → List k.F
  challenges left = drawn challenge 0 (num_challenges left)

  -- A table with as many data columns as there are challenges, and one at least, has a fold.
  pub fold_value :
      (left t : TrackedTable h k)
      → 0 < length (data_polys t.tracked_polys)
      → length (data_polys left.tracked_polys) ≡ length (data_polys t.tracked_polys)
      → (c : FoldedCol k) × (fold_all_data_columns k t (challenges left) ≡ some c)
        × (c.activator ≡ activator_tracked_poly k t)
        × ((row : ℕ)
            → k.into_bigint (c.data_poly row)
              ≡ row_value k (data_polys t.tracked_polys) (challenges left) row)
  unfolding data_tracked_polys_indices
  fold_value left t pos len =
      folded_value k (activator_tracked_poly k t) (data_polys t.tracked_polys) (challenges left) _
        (fold_all_data_columns-FoldsTo law t (challenges left)) pos
        (length-drawn challenge 0 (num_challenges left)
          ∙ length-indices_from 0 left.tracked_polys
          ∙ len)
