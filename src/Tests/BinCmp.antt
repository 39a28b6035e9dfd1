-- ===== src/Tests/BinCmp.antt =====
-- The gadget for `<` on a column of threes and one of sevens, whose output is one.
use native.Mathlib.Bridge.{le_prop}
use mathlib.Core.HLevel.{Σ_prop_path}
use truth_table.Common.{
  ℕ, zero, suc, ◌<◌, ◌≡◌, ◌≢◌, ◌⊎◌, inr, refl, List, [], ◌∷◌, none, some, ok, String, Bool, true,
  false, arith,
}
use truth_table.Common.Int.{pos, negsuc}
use truth_table.Datafusion.Arrow.{DataType, Field}
use truth_table.Field.{sub_F}
use truth_table.Ir.Nodes.{Node, Nodes}
use truth_table.Ir.Passes.{Ir}
use truth_table.Ir.GadgetPasses.{PayloadStructure}
use truth_table.Sign.Config.{Sign, sign_for_index, is_strict}
use truth_table.Sign.Column.{Poly, TrackedCol, add_range_inclusion, activated_data, negated_col}
use truth_table.Sign.Claims.{AllHold, range_size}
use truth_table.Sign.Protocol.{verify, verify_from, verify_sign_inner, verify_sign_for, signed_col}
use truth_table.Table.{
  TrackedTable, activator_field, tracked_col_by_ind, data_tracked_polys_indices, indices_from,
  data_type_of, is_system_column, activator_tracked_poly,
}
use truth_table.Gadgets.Operands.{merged_sign_field, merged_sign_data_type, aligned_decimal_diff}
use truth_table.Gadgets.Compare.{data_cols, data_col, data_field}
use truth_table.Gadgets.Compare.Initialize.{col}
use truth_table.Gadgets.BinCmp.{
  BinCmpOp, Children, sign_pair, sign_configs, false_activator, left_input_label, right_input_label,
  output_label, prover_initialize_gadgets, verifier_initialize_gadgets,
}
use truth_table.Gadgets.BinCmp.Initialize.{Found, initialize_gadgets-Found}
use truth_table.Gadgets.BinCmp
use truth_table.Gadgets.Claims.{Met}
use truth_table.Gadgets.BinCmp.Inactive.{verify-inactive}
use truth_table.Gadgets.BinCmp.Narrow.{verify-too_far}
use truth_table.Gadgets.BinCmp.Rows.{OpHolds, verify-OpHolds}
use truth_table.Tests.Database.{host}
use truth_table.Tests.Sign.{field, field-IsLawful}
use truth_table.Tests.Compare.{same_flag, same_flag-≡, constant_table, age}

abbrev threes : Poly field
threes i = field.from 3

abbrev sevens : Poly field
sevens i = field.from 7

abbrev ones : Poly field
ones i = field.one_F

abbrev true_col : TrackedCol host field
true_col = col (λ i. sub_F field (threes i) (sevens i)) (some ones) age

abbrev false_col : TrackedCol host field
false_col =
    col (λ i. sub_F field (threes i) (sevens i)) (some (false_activator field none ones)) age

true_verified :
    verify (sign_configs BinCmpOp.lt).0 (true_col ∷ []) []
    ≡ ok (add_range_inclusion (signed_col Sign.negative true_col) 8 ∷ [], [])
unfolding verify verify_from verify_sign_inner verify_sign_for sign_for_index sign_configs sign_pair
    signed_col negated_col
true_verified = refl

true_holds : AllHold 2 (add_range_inclusion (signed_col Sign.negative true_col) 8 ∷ [])
unfolding add_range_inclusion activated_data signed_col negated_col
true_holds = ((λ i below. (4, omega arith, Σ_prop_path (λ n. le_prop) refl)), tt)

false_verified :
    verify (sign_configs BinCmpOp.lt).1 (false_col ∷ []) []
    ≡ ok (add_range_inclusion false_col 8 ∷ [], [])
unfolding verify verify_from verify_sign_inner verify_sign_for sign_for_index sign_configs sign_pair
    signed_col
false_verified = refl

false_holds : AllHold 2 (add_range_inclusion false_col 8 ∷ [])
unfolding add_range_inclusion activated_data
false_holds = ((λ i below. (0, omega arith, Σ_prop_path (λ n. le_prop) refl)), tt)

apart : field.into_bigint (sub_F field (threes 1) (sevens 1)) ≢ 0
apart e = omega (arith, e)

not_strict :
    is_strict (sign_pair BinCmpOp.lt).1 ≡ true
    → false_activator field none ones 1 ≡ field.one_F
    → field.into_bigint (sub_F field (threes 1) (sevens 1)) ≢ 0
unfolding is_strict sign_pair
not_strict e active = apart

verify-OpHolds_example :
    ((ones 1 ≡ field.one_F) × OpHolds BinCmpOp.lt (pos 3) (pos 7))
    ⊎ ((ones 1 ≡ field.zero_F) × (¬ OpHolds BinCmpOp.lt (pos 3) (pos 7)))
unfolding range_size
verify-OpHolds_example =
    verify-OpHolds BinCmpOp.lt 2 threes sevens ones none age [] [] field-IsLawful true_verified
      true_holds false_verified false_holds 1 (omega arith) (λ e active. apart) not_strict tt
      (inr refl) 8 (pos 3) (pos 7) (omega arith) (omega arith) (omega arith) refl refl

abbrev same_type : DataType host → DataType host → Bool
same_type DataType.uint8 DataType.uint8 = true
same_type _ _ = false

abbrev less : Field host
less = Field.field "less" DataType.boolean true []

abbrev outputs : TrackedTable host field
outputs = record { schema = none; tracked_polys = (less, ones) ∷ []; log_size = 1 }

abbrev payload : List (String × TrackedTable host field)
payload =
    (left_input_label, constant_table 3)
    ∷ (right_input_label, constant_table 7)
    ∷ (output_label, outputs)
    ∷ []

abbrev child : ℕ → Node BinCmpOp
child id = Node.gadget id BinCmpOp.lt Nodes.nil

abbrev comparison : Node BinCmpOp
comparison =
    Node.gadget 0 BinCmpOp.lt
      (Nodes.cons (child 3) (Nodes.cons (child 1) (Nodes.cons (child 2) Nodes.nil)))

abbrev virtualized : Ir BinCmpOp (PayloadStructure (TrackedTable host field))
virtualized = record {
  tree = record {
    root = comparison;
    arena = (3, child 3) ∷ (1, child 1) ∷ (2, child 2) ∷ (0, comparison) ∷ [];
  };
  payloads = (0, some (PayloadStructure.gadget_payload payload)) ∷ [];
}

abbrev ids : Children
ids = record { true_sign = 1; false_sign = 2; bool_check = 3 }

initialize_gadgets-Found_example :
    (ir' : Ir BinCmpOp (PayloadStructure (TrackedTable host field))) × (t f : TrackedTable host
      field)
    × (lf rf : Field host) × (prover_initialize_gadgets same_flag same_type 0 ids virtualized
        ≡ ok ir')
    × (verifier_initialize_gadgets same_flag same_type 0 ids virtualized ≡ ok ir')
    × Found ids ir' t f outputs
    × (data_field (constant_table 3).tracked_polys ≡ some lf)
    × (data_field (constant_table 7).tracked_polys ≡ some rf)
    × (let (l', r') =
          aligned_decimal_diff field threes (data_type_of lf) sevens (data_type_of rf) in
        (data_cols t
          ≡ some (
              col (λ i. sub_F field (l' i) (r' i)) (some ones) (merged_sign_field same_type lf rf)
              ∷ []))
        × (data_cols f
            ≡ some (
                col
                  (λ i. sub_F field (l' i) (r' i))
                  (some
                    (false_activator field (activator_tracked_poly field (constant_table 3)) ones))
                  (merged_sign_field same_type lf rf)
                ∷ [])))
unfolding is_system_column
initialize_gadgets-Found_example =
    initialize_gadgets-Found same_flag same_flag-≡ same_type 0 ids virtualized payload
      (constant_table 3) (constant_table 7) outputs threes sevens ones [] [] []
      (λ e. omega (arith, e)) (λ e. omega (arith, e)) (λ e. omega (arith, e)) refl refl refl refl
      refl refl refl

-- 100 is not less than -100, but the claims of the true branch do not hold
abbrev signed_type : DataType host → DataType host → Bool
signed_type DataType.int8 DataType.int8 = true
signed_type _ _ = false

abbrev balance : Field host
balance = Field.field "balance" DataType.int8 false []

abbrev hundreds : Poly field
hundreds i = field.from_signed (pos 100)

abbrev debts : Poly field
debts i = field.from_signed (negsuc 99)

abbrev far_col : TrackedCol host field
far_col =
    col (λ i. sub_F field (hundreds i) (debts i)) (some ones)
      (merged_sign_field signed_type balance balance)

far_verified :
    verify (sign_configs BinCmpOp.geq).0 (far_col ∷ []) []
    ≡ ok (add_range_inclusion far_col 7 ∷ [], [])
unfolding verify verify_from verify_sign_inner verify_sign_for sign_for_index sign_configs sign_pair
    signed_col merged_sign_field merged_sign_data_type
far_verified = refl

verify-too_far_example : ¬ AllHold 2 (add_range_inclusion far_col 7 ∷ [])
verify-too_far_example =
    verify-too_far signed_type 2 hundreds debts ones balance balance [] field-IsLawful refl refl
      refl far_verified 1 100 99 (omega arith) refl refl refl (omega arith) (omega arith)

-- the activator keeps the second row, at which the output is one, and not the first
abbrev second : Poly field
second i = field.from i

abbrev activated : TrackedTable host field
activated = record {
  schema = none;
  tracked_polys = (age, threes) ∷ (activator_field host, second) ∷ [];
  log_size = 1;
}

abbrev activated_output : TrackedTable host field
activated_output = record {
  schema = none;
  tracked_polys = (less, second) ∷ (activator_field host, second) ∷ [];
  log_size = 1;
}

abbrev activated_payload : List (String × TrackedTable host field)
activated_payload =
    (left_input_label, activated)
    ∷ (right_input_label, activated)
    ∷ (output_label, activated_output)
    ∷ []

product_zero :
    (i : ℕ) → i < 2 → field.mul (sub_F field (second i) field.one_F) (second i) ≡ field.zero_F
product_zero zero below = Σ_prop_path (λ n. le_prop) refl
product_zero (suc zero) below = Σ_prop_path (λ n. le_prop) refl
product_zero (suc (suc i)) below = absurd (omega arith)

claimed : Met 2 (BinCmp.verify (some (PayloadStructure.gadget_payload activated_payload)))
unfolding BinCmp.verify data_col tracked_col_by_ind data_tracked_polys_indices indices_from
    is_system_column activator_tracked_poly
claimed = (product_zero, tt)

kept : activator_tracked_poly field activated ≡ some second
unfolding activator_tracked_poly
kept = refl

verify-inactive_example : second 0 ≡ field.zero_F
unfolding is_system_column
verify-inactive_example =
    verify-inactive 2 activated_payload activated activated activated_output second second []
      field-IsLawful refl refl refl kept refl claimed 0 (omega arith)
      (Σ_prop_path (λ n. le_prop) refl)
