-- ===== src/Tests/Compare.antt =====
-- The gadget for `<=` on a column of threes and one of sevens.
use native.Mathlib.Bridge.{le_prop}
use mathlib.Core.HLevel.{Σ_prop_path}
use truth_table.Common.{
  ℕ, ◌≡◌, refl, ap, List, [], ◌∷◌, none, some, ok, String, Bool, true, false, arith,
}
use truth_table.Common.Int.{pos}
use truth_table.Datafusion.Arrow.{DataType, Field}
use truth_table.Ir.Nodes.{Node, Nodes}
use truth_table.Ir.Tree
use truth_table.Ir.Passes.{Ir, payload_for_node, set_payload_for_node}
use truth_table.Ir.GadgetPasses.{PayloadStructure}
use truth_table.Join.Text.{same_text}
use truth_table.Field.{sub_F}
use truth_table.Sign.Config.{Sign, sign_for_index}
use truth_table.Sign.Column.{negated_col, TrackedCol, add_range_inclusion, activated_data}
use truth_table.Sign.Claims.{AllHold, range_size}
use truth_table.Sign.Protocol.{verify, verify_from, verify_sign_inner, verify_sign_for, signed_col}
use truth_table.Sign.Node.{input_label}
use truth_table.Table.{
  TrackedTable, is_system_column, activator_tracked_poly, single_column_with_activator,
  indices_from, tracked_col_by_ind, tracked_col_by_indices, data_tracked_polys_indices, insert,
}
use truth_table.Gadgets.{payload_input}
use truth_table.Gadgets.Equality.{left_label, right_label}
use truth_table.Gadgets.Payloads.{same_text-≡}
use truth_table.Gadgets.Compare.{
  Comparison, new, data_cols, initialize_gadgets, diff_table, data_col, set_sign_payload,
}
use truth_table.Gadgets.Compare.Initialize.{col}
use truth_table.Gadgets.Compare.Rows.{Ordered, initialize_gadgets-Ordered}
use truth_table.Tests.Database.{host}
use truth_table.Tests.Sign.{field, field-IsLawful}

-- equality of the fields of Boolean type that may be null and have no metadata
abbrev pub same_flag : Field host → Field host → Bool
same_flag (Field.field n DataType.boolean true []) (Field.field m DataType.boolean true []) =
    same_text n m
same_flag _ _ = false

pub same_flag-≡ : (f g : Field host) → same_flag f g ≡ true → f ≡ g
same_flag-≡ (Field.field n DataType.boolean true []) (Field.field m DataType.boolean true []) e =
    ap (λ s. Field.field s DataType.boolean true []) (same_text-≡ n m e)
same_flag-≡ _ _ e = cc

abbrev pub age : Field host
age = Field.field "age" DataType.uint8 false []

abbrev pub constant_table : ℕ → TrackedTable host field
constant_table n = record {
  schema = none;
  tracked_polys = (age, λ i. field.from n) ∷ [];
  log_size = 1;
}

abbrev sign_node : Node Comparison
sign_node = Node.gadget 1 Comparison.leq Nodes.nil

abbrev leq_node : Node Comparison
leq_node = Node.gadget 0 Comparison.leq (Nodes.cons sign_node Nodes.nil)

abbrev inputs : List (String × TrackedTable host field)
inputs = (left_label, constant_table 3) ∷ (right_label, constant_table 7) ∷ []

abbrev virtualized : Ir Comparison (PayloadStructure (TrackedTable host field))
virtualized = record {
  tree = record { root = leq_node; arena = (1, sign_node) ∷ (0, leq_node) ∷ [] };
  payloads = (0, some (PayloadStructure.gadget_payload inputs)) ∷ [];
}

abbrev difference : TrackedTable host field
difference = record {
  schema = none;
  tracked_polys = (age, λ i. sub_F field (field.from 3) (field.from 7)) ∷ [];
  log_size = 1;
}

initialized :
    initialize_gadgets same_flag 0 1 virtualized ≡ ok (set_sign_payload 1 virtualized difference)
unfolding initialize_gadgets diff_table data_col data_tracked_polys_indices indices_from
    is_system_column tracked_col_by_ind activator_tracked_poly single_column_with_activator
initialized = refl

found :
    payload_input (payload_for_node (set_sign_payload 1 virtualized difference) 1) input_label
    ≡ some difference
unfolding payload_input set_payload_for_node Tree.insert insert
found = refl

abbrev difference_col : TrackedCol host field
difference_col = col (λ i. sub_F field (field.from 3) (field.from 7)) none age

columns : data_cols difference ≡ some (difference_col ∷ [])
unfolding data_tracked_polys_indices indices_from is_system_column tracked_col_by_indices
    tracked_col_by_ind activator_tracked_poly
columns = refl

verified :
    verify (new Comparison.leq) (difference_col ∷ []) []
    ≡ ok (add_range_inclusion (signed_col Sign.non_positive difference_col) 8 ∷ [], [])
unfolding verify verify_from verify_sign_inner verify_sign_for sign_for_index new signed_col
    negated_col
verified = refl

holds : AllHold 2 (add_range_inclusion (signed_col Sign.non_positive difference_col) 8 ∷ [])
unfolding add_range_inclusion activated_data signed_col negated_col
holds = ((λ i below. (4, omega arith, Σ_prop_path (λ n. le_prop) refl)), tt)

three : field.from 3 ≡ field.from_signed (pos 3)
three = refl

initialize_gadgets-Ordered_example : Ordered Comparison.leq (pos 3) (pos 7)
unfolding is_system_column range_size activator_tracked_poly
initialize_gadgets-Ordered_example =
    initialize_gadgets-Ordered field-IsLawful 2 same_flag same_flag-≡ Comparison.leq 0 1 virtualized
      (set_sign_payload 1 virtualized difference) inputs (constant_table 3) (constant_table 7)
      difference (λ i. field.from 3) (λ i. field.from 7) [] [] age (difference_col ∷ []) [] refl
      refl refl refl refl refl initialized found columns verified holds 1 (omega arith) tt 8 (pos 3)
      (pos 7) (omega arith) (omega arith) (omega arith) refl refl
