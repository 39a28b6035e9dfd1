-- ===== src/Encoding/Columns.antt =====
-- `collect_by_columns` (crates/tt-arithmetic/src/encoding.rs): rows of field elements into columns.
pub mod Shape
use truth_table.Common.{
  ℕ, zero, suc, ◌+◌, ◌-◌, List, [], ◌∷◌, ◌++◌, Bool, true, false, ◌&&◌, if◌then◌else◌, ltb, length,
  replicate,
}
use truth_table.Field.{PrimeField}

module _ (k : PrimeField) where
  -- `row_fields.get(col_idx).copied().unwrap_or_else(F::zero)`
  abbrev pub field_at : List k.F → ℕ → k.F
  field_at [] c = k.zero_F
  field_at (x ∷ xs) zero = x
  field_at (x ∷ xs) (suc c) = field_at xs c

  abbrev pub no_columns : List (List k.F) → Bool
  no_columns [] = true
  no_columns (c ∷ cs) = false

  abbrev pub no_fields : List k.F → Bool
  no_fields [] = true
  no_fields (x ∷ xs) = false

  -- the value of a row pushed to each column, from column `c` on
  unfoldable pub push_row : List (List k.F) → List k.F → ℕ → List (List k.F)
  push_row [] row c = []
  push_row (column ∷ columns) row c = (column ++ field_at row c ∷ []) ∷ push_row columns row (c + 1)

  -- a first, empty column where there is none and the row is empty
  abbrev pub first_column : List (List k.F) → List k.F → List (List k.F)
  first_column columns row = if no_columns columns && no_fields row then [] ∷ [] else columns

  -- columns of zeros, one for each value of the row that has none
  abbrev pub resize : ℕ → List (List k.F) → List k.F → List (List k.F)
  resize idx columns row =
      if ltb (length columns) (length row)
      then columns ++ replicate (length row - length columns) (replicate idx k.zero_F)
      else columns

  -- the body of the loop
  unfoldable pub add_row : ℕ → List (List k.F) → List k.F → List (List k.F)
  unfolding push_row
  add_row idx columns row = push_row (resize idx (first_column columns row) row) row 0

  -- the loop over the rows from `idx` on, of which `n` are left
  unfoldable pub collect_rows : (ℕ → List k.F) → ℕ → ℕ → List (List k.F) → List (List k.F)
  unfolding add_row
  collect_rows row_fn idx zero columns = columns
  collect_rows row_fn idx (suc n) columns =
      collect_rows row_fn (idx + 1) n (add_row idx columns (row_fn idx))

  abbrev pub or_one_column : List (List k.F) → List (List k.F)
  or_one_column [] = [] ∷ []
  or_one_column (c ∷ cs) = c ∷ cs

  unfoldable pub collect_by_columns : ℕ → (ℕ → List k.F) → List (List k.F)
  unfolding collect_rows
  collect_by_columns rows row_fn = or_one_column (collect_rows row_fn 0 rows [])
