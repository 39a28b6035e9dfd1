-- ===== src/Tests/Gadgets.antt =====
-- The gadgets for Boolean, equal and differing columns and the folds of tables, at small tables, over the
-- numbers below 5.
use truth_table.Common.{
  ℕ, zero, suc, ◌+◌, ◌*◌, ◌%◌, ◌<◌, ◌≡◌, ◌≢◌, ◌↔◌, ◌⊎◌, inl, inr, refl, sym, ◌∙◌, [], ◌∷◌, none,
  some, ok, Option, true, false, length, arith,
}
use truth_table.Datafusion.Arrow.{DataType, Field}
use truth_table.Field.{PrimeField, IsLawful}
use truth_table.Field.Arithmetic.{HasNoZeroDivisors}
use truth_table.Field.Modular.{modular, modular-IsLawful}
use truth_table.Sign.Column.{Poly}
use truth_table.Sign.Claims.{IsActive}
use truth_table.Ir.GadgetPasses.{PayloadStructure}
use truth_table.Table.{
  TrackedTable, size, activator_field, activator_tracked_poly, is_system_column,
  fold_all_data_columns,
}
use truth_table.Table.Fold.{data_polys, FoldsTo, fold_all_data_columns-FoldsTo}
use truth_table.Gadgets.{Constants, payload_input}
use truth_table.Gadgets.Claims.{Met}
use truth_table.Gadgets.Boolean.{table_label, verify, honest_prover_check}
use truth_table.Gadgets.Boolean.Value.{IsBooleanAt}
use truth_table.Gadgets.Boolean.Rows.{verify-honest_prover_check}
use truth_table.Gadgets.Equality.{left_label, right_label, verify_eq, verify_neq, honest_neq_check}
use truth_table.Gadgets.Equality.Rows.{row_of, verify_eq-row_of}
use truth_table.Gadgets.Equality.Differ.{honest_neq_check-verify_neq}
use truth_table.Tests.Database.{host}

small : 1 < 5
small = omega arith

abbrev residues : PrimeField
residues = modular 5 3 small

residues-IsLawful : IsLawful residues
residues-IsLawful = modular-IsLawful 5 3 small (omega arith)

no_zero_divisors : (a b : ℕ) → a < 5 → b < 5 → a * b % 5 ≡ 0 → (a ≡ 0) ⊎ (b ≡ 0)
no_zero_divisors zero b la lb e = inl refl
no_zero_divisors (suc zero) b la lb e = inr (omega arith)
no_zero_divisors (suc (suc zero)) b la lb e = inr (omega arith)
no_zero_divisors (suc (suc (suc zero))) b la lb e = inr (omega arith)
no_zero_divisors (suc (suc (suc (suc zero)))) b la lb e = inr (omega arith)
no_zero_divisors (suc (suc (suc (suc (suc a))))) b la lb e = absurd (omega arith)

residues-HasNoZeroDivisors : HasNoZeroDivisors residues
residues-HasNoZeroDivisors x y e =
    no_zero_divisors x.0 y.0 (residues-IsLawful.into_bigint-lt x)
      (residues-IsLawful.into_bigint-lt y) (sym (residues-IsLawful.into_bigint-mul x y) ∙ e)

none-constant : (p : Poly residues) (c : residues.F) → none ≡ some c → (i : ℕ) → p i ≡ c
none-constant p c e i = cc

-- no polynomial is known to be constant
abbrev unknown : Constants residues
unknown = record { as_constant = λ p. none; constant_value = none-constant }

abbrev flag : Field host
flag = Field.field "flag" DataType.boolean true []

abbrev count : Field host
count = Field.field "count" DataType.uint8 false []

abbrev alternating : Poly residues
alternating i = residues.from (i % 2)

-- two rows, of which the activator keeps both
abbrev flags : TrackedTable host residues
flags = record {
  schema = none;
  tracked_polys =
      (flag, alternating)
      ∷ (count, λ i. residues.from 3)
      ∷ (activator_field host, λ i. residues.one_F)
      ∷ [];
  log_size = 1;
}

abbrev others : TrackedTable host residues
others = record {
  schema = none;
  tracked_polys = (flag, λ i. residues.from 2) ∷ (count, alternating) ∷ [];
  log_size = 1;
}

abbrev challenge : ℕ → residues.F
challenge i = residues.from (i + 2)

fold_all_data_columns-FoldsTo_example :
    FoldsTo residues
      (some (λ i. residues.one_F))
      (alternating ∷ (λ i. residues.from 3) ∷ [])
      (residues.from 2 ∷ residues.from 4 ∷ [])
      (fold_all_data_columns residues flags (residues.from 2 ∷ residues.from 4 ∷ []))
unfolding activator_tracked_poly is_system_column
fold_all_data_columns-FoldsTo_example =
    fold_all_data_columns-FoldsTo residues-IsLawful flags (residues.from 2 ∷ residues.from 4 ∷ [])

abbrev checked_payload : Option (PayloadStructure (TrackedTable host residues))
checked_payload = some (PayloadStructure.gadget_payload ((table_label, flags) ∷ []))

checked_input : payload_input checked_payload table_label ≡ some flags
unfolding payload_input
checked_input = refl

flags-IsBooleanAt :
    (i : ℕ)
    → i < size residues flags
    → IsBooleanAt residues (activator_tracked_poly residues flags) i
unfolding activator_tracked_poly
flags-IsBooleanAt i lt = inr refl

verify-honest_prover_check_example :
    Met (size residues flags) (verify unknown checked_payload)
    ↔ (honest_prover_check checked_payload ≡ ok tt)
verify-honest_prover_check_example =
    verify-honest_prover_check unknown checked_payload flags residues-IsLawful
      residues-HasNoZeroDivisors checked_input flags-IsBooleanAt

abbrev compared_payload : Option (PayloadStructure (TrackedTable host residues))
compared_payload =
    some (PayloadStructure.gadget_payload ((left_label, flags) ∷ (right_label, others) ∷ []))

left_input : payload_input compared_payload left_label ≡ some flags
unfolding payload_input
left_input = refl

right_input : payload_input compared_payload right_label ≡ some others
unfolding payload_input
right_input = refl

columns : 0 < length (data_polys flags.tracked_polys)
unfolding is_system_column
columns = omega arith

as_many : length (data_polys flags.tracked_polys) ≡ length (data_polys others.tracked_polys)
unfolding is_system_column
as_many = refl

verify_eq-row_of_example : Met (size residues flags) (verify_eq compared_payload challenge) ↔ (
    (i : ℕ)
    → i < size residues flags
    → IsActive residues (activator_tracked_poly residues flags) i
    → row_of residues-IsLawful challenge flags flags i
      ≡ row_of residues-IsLawful challenge flags others i)
verify_eq-row_of_example =
    verify_eq-row_of residues-IsLawful challenge compared_payload flags others left_input
      right_input columns as_many flags-IsBooleanAt

honest_neq_check-verify_neq_example :
    ((honest_neq_check compared_payload challenge ≡ ok tt) ↔ (
      (i : ℕ)
      → i < size residues flags
      → IsActive residues (activator_tracked_poly residues flags) i
      → row_of residues-IsLawful challenge flags flags i
        ≢ row_of residues-IsLawful challenge flags others i))
    × (Met (size residues flags) (verify_neq unknown compared_payload challenge)
        → honest_neq_check compared_payload challenge ≡ ok tt)
honest_neq_check-verify_neq_example =
    honest_neq_check-verify_neq residues-IsLawful challenge compared_payload flags others left_input
      right_input columns as_many unknown refl
