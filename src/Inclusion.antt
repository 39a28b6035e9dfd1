-- ===== src/Inclusion.antt =====
-- How often each row of a column stands in another one: crates/tt-col-toolbox/src/lookup/utils.rs and
-- crates/tt-col-toolbox/src/util/multiplicity_count.rs. Counts are unbounded numbers here, the
-- source's have 64 bits; indexing a selector out of its range panics there and is `none` here.
pub mod FirstRows
use truth_table.Common.{
  ℕ, ◌+◌, List, [], ◌∷◌, Option, none, some, Bool, true, false, not, if◌then◌else◌,
}
use truth_table.Field.{PrimeField, eqb_F, is_zero}

-- a tracked column by the evaluations of its data and its activator
pub record Column (k : PrimeField) : Type 0 where
  pub data_evals : List k.F
  pub activator_evals : Option (List k.F)

module _ (k : PrimeField) where
  -- the rows, each with whether it is active
  abbrev pub consed_row : k.F → Bool → Option (List (k.F × Bool)) → Option (List (k.F × Bool))
  consed_row v active none = none
  consed_row v active (some rows) = some ((v, active) ∷ rows)

  abbrev pub selected_rows : List k.F → List k.F → Option (List (k.F × Bool))
  selected_rows [] sel = some []
  selected_rows (v ∷ vs) [] = none
  selected_rows (v ∷ vs) (s ∷ sel) = consed_row v (not (is_zero k s)) (selected_rows vs sel)

  abbrev pub all_rows : List k.F → List (k.F × Bool)
  all_rows [] = []
  all_rows (v ∷ vs) = (v, true) ∷ all_rows vs

  abbrev pub rows_of : List k.F → Option (List k.F) → Option (List (k.F × Bool))
  rows_of vs none = some (all_rows vs)
  rows_of vs (some sel) = selected_rows vs sel

  -- `*mults_map.entry(val).or_insert(0) += 1`
  unfoldable pub add_one : k.F → List (k.F × ℕ) → List (k.F × ℕ)
  add_one v [] = (v, 1) ∷ []
  add_one v ((key, count) ∷ m) =
      let rest = add_one v m in if eqb_F k key v then (key, count + 1) ∷ m else (key, count) ∷ rest

  unfoldable pub count_rows : List (k.F × Bool) → List (k.F × ℕ) → List (k.F × ℕ)
  unfolding add_one
  count_rows [] m = m
  count_rows ((v, true) ∷ rows) m = count_rows rows (add_one v m)
  count_rows ((v, false) ∷ rows) m = count_rows rows m

  abbrev counted : Option (List (k.F × Bool)) → Option (List (k.F × ℕ))
  counted none = none
  counted (some rows) = some (count_rows rows [])

  unfoldable pub vec_multiplicity_count : List k.F → Option (List k.F) → Option (List (k.F × ℕ))
  vec_multiplicity_count poly sel = counted (rows_of poly sel)

  abbrev pub get_count : k.F → List (k.F × ℕ) → Option ℕ
  get_count v [] = none
  get_count v ((key, count) ∷ m) =
      let rest = get_count v m in if eqb_F k key v then some count else rest

  -- `insert(val, 0)` where there is an entry
  unfoldable pub insert_zero : k.F → List (k.F × ℕ) → List (k.F × ℕ)
  insert_zero v [] = []
  insert_zero v ((key, count) ∷ m) =
      let rest = insert_zero v m in if eqb_F k key v then (key, 0) ∷ m else (key, count) ∷ rest

  abbrev pub pushed_mult : Option ℕ → k.F
  pushed_mult none = k.zero_F
  pushed_mult (some count) = k.from count

  abbrev pub map_after : k.F → Option ℕ → List (k.F × ℕ) → List (k.F × ℕ)
  map_after v none m = m
  map_after v (some count) m = insert_zero v m

  -- the loop over the rows of the super column
  unfoldable pub super_mults : List (k.F × Bool) → List (k.F × ℕ) → List k.F
  super_mults [] m = []
  super_mults ((v, false) ∷ rows) m = k.zero_F ∷ super_mults rows m
  super_mults ((v, true) ∷ rows) m =
      pushed_mult (get_count v m) ∷ super_mults rows (map_after v (get_count v m) m)

  abbrev mults_of : Option (List (k.F × Bool)) → Option (List (k.F × ℕ)) → Option (List k.F)
  mults_of none m = none
  mults_of (some rows) none = none
  mults_of (some rows) (some m) = some (super_mults rows m)

  unfoldable pub calc_inclusion_multiplicity : Column k → Column k → Option (List k.F)
  calc_inclusion_multiplicity included_col super_col =
      mults_of (rows_of super_col.data_evals super_col.activator_evals)
        (vec_multiplicity_count included_col.data_evals included_col.activator_evals)
