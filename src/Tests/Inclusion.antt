-- ===== src/Tests/Inclusion.antt =====
-- The multiplicities of a column with a repeated element in one that has it twice, one of them not
-- active.
use truth_table.Common.{
  ℕ, ◌≡◌, ◌%◌, refl, List, [], ◌∷◌, map, length, none, some, Bool, true, false, if◌then◌else◌,
}
use truth_table.Inclusion.{Column, calc_inclusion_multiplicity}
use truth_table.Inclusion.FirstRows.{
  sum_at, is_active, occurrences, calc_inclusion_multiplicity-sum_at,
}
use truth_table.Tests.Sign.{field, field-IsLawful}

abbrev included_col : Column field
included_col = record {
  data_evals = field.from 7 ∷ field.from 9 ∷ field.from 7 ∷ [];
  activator_evals = none;
}

abbrev super_col : Column field
super_col = record {
  data_evals = field.from 7 ∷ field.from 7 ∷ field.from 8 ∷ field.from 9 ∷ [];
  activator_evals = some (field.from 0 ∷ field.from 1 ∷ field.from 1 ∷ field.from 1 ∷ []);
}

abbrev included_rows : List (field.F × Bool)
included_rows = (field.from 7, true) ∷ (field.from 9, true) ∷ (field.from 7, true) ∷ []

abbrev super_rows : List (field.F × Bool)
super_rows =
    (field.from 7, false) ∷ (field.from 7, true) ∷ (field.from 8, true) ∷ (field.from 9, true) ∷ []

calc_inclusion_multiplicity-sum_at_example :
    (mults : List field.F) × (ns : List ℕ) × (calc_inclusion_multiplicity field included_col
        super_col
      ≡ some mults)
    × (map field.into_bigint mults ≡ map (λ n. n % field.modulus) ns)
    × (length ns ≡ length super_rows)
    × ((x : field.F)
        → sum_at field x super_rows ns
          ≡ (if is_active field x super_rows then occurrences field x included_rows else 0))
calc_inclusion_multiplicity-sum_at_example =
    calc_inclusion_multiplicity-sum_at field included_col super_col included_rows super_rows
      field-IsLawful refl refl
