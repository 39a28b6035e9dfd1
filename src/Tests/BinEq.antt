-- ===== src/Tests/BinEq.antt =====
-- The gadget for `<>` on a column of threes and one of sevens, whose output is one.
use native.Mathlib.Bridge.{le_prop}
use mathlib.Core.HLevel.{Σ_prop_path}
use truth_table.Common.{
  ℕ, ◌<◌, ◌≡◌, ◌⊎◌, inl, inr, refl, ap, List, [], ◌∷◌, none, some, ok, String, true, arith,
}
use truth_table.Datafusion.Arrow.{DataType, Field}
use truth_table.Ir.Nodes.{Node, Nodes}
use truth_table.Ir.Tree
use truth_table.Ir.Passes.{Ir, payload_for_node, set_payload_for_node}
use truth_table.Ir.GadgetPasses.{PayloadStructure}
use truth_table.Sign.Column.{Poly}
use truth_table.Table.{
  fold_all_data_columns, TrackedTable, is_system_column, activator_tracked_poly,
  data_tracked_polys_indices, indices_from, insert, tracked_col_by_ind,
}
use truth_table.Gadgets.{payload_input}
use truth_table.Gadgets.Claims.{Met}
use truth_table.Gadgets.Boolean.Value.{IsBooleanAt}
use truth_table.Gadgets.Equality.{verify_eq, verify_neq, non_zero_poly}
use truth_table.Gadgets.Compare.{data_col}
use truth_table.Gadgets.BinCmp.{left_input_label, right_input_label, output_label}
use truth_table.Gadgets.BinEq.{
  EqOp, EqChildren, eq_activator, neq_activator, build_table, copied, verifier_log_size,
  set_payloads, verifier_initialize_gadgets,
}
use truth_table.Gadgets.BinEq.Rows.{EqHolds, verify-EqHolds}
use truth_table.Tests.Database.{host}
use truth_table.Tests.Sign.{field, field-IsLawful}
use truth_table.Tests.Compare.{same_flag, same_flag-≡, constant_table}
use truth_table.Tests.Strict.{unknown, challenge}

abbrev ones : Poly field
ones i = field.one_F

abbrev differ : Field host
differ = Field.field "differ" DataType.boolean true []

abbrev outputs : TrackedTable host field
outputs = record { schema = none; tracked_polys = (differ, ones) ∷ []; log_size = 1 }

abbrev payload : List (String × TrackedTable host field)
payload =
    (left_input_label, constant_table 3)
    ∷ (right_input_label, constant_table 7)
    ∷ (output_label, outputs)
    ∷ []

abbrev child : ℕ → Node EqOp
child id = Node.gadget id EqOp.not_equal Nodes.nil

abbrev comparison : Node EqOp
comparison =
    Node.gadget 0 EqOp.not_equal
      (Nodes.cons (child 3) (Nodes.cons (child 1) (Nodes.cons (child 2) Nodes.nil)))

abbrev virtualized : Ir EqOp (PayloadStructure (TrackedTable host field))
virtualized = record {
  tree = record {
    root = comparison;
    arena = (3, child 3) ∷ (1, child 1) ∷ (2, child 2) ∷ (0, comparison) ∷ [];
  };
  payloads = (0, some (PayloadStructure.gadget_payload payload)) ∷ [];
}

abbrev ids : EqChildren
ids = record { eq_gadget = 1; neq_gadget = 2; bool_check = 3 }

abbrev initialized : Ir EqOp (PayloadStructure (TrackedTable host field))
initialized =
    set_payloads field same_flag verifier_log_size EqOp.not_equal ids virtualized (constant_table 3)
      (constant_table 7) outputs ones

initialized-verifier :
    verifier_initialize_gadgets field same_flag EqOp.not_equal 0 ids virtualized ≡ ok initialized
unfolding verifier_initialize_gadgets data_col data_tracked_polys_indices indices_from
    is_system_column tracked_col_by_ind
initialized-verifier = refl

bits :
    (i : ℕ)
    → i < 2
    → IsBooleanAt field
        (some (
          eq_activator field EqOp.not_equal (activator_tracked_poly field (constant_table 3)) ones))
        i
unfolding eq_activator activator_tracked_poly
bits i lt = inl (Σ_prop_path (λ n. le_prop) refl)

eq_claimed : Met 2 (verify_eq (payload_for_node initialized 1) challenge)
unfolding fold_all_data_columns verify_eq payload_input set_payload_for_node Tree.insert insert
    build_table copied eq_activator neq_activator activator_tracked_poly data_tracked_polys_indices
    indices_from is_system_column
eq_claimed = ((λ i lt. Σ_prop_path (λ n. le_prop) refl), tt)

neq_claimed : Met 2 (verify_neq unknown (payload_for_node initialized 2) challenge)
unfolding fold_all_data_columns verify_neq payload_input set_payload_for_node Tree.insert insert
    build_table copied eq_activator neq_activator activator_tracked_poly data_tracked_polys_indices
    indices_from is_system_column non_zero_poly
neq_claimed = ((λ i lt e. let z = ap (λ (x : field.F). x.0) e in omega (arith, z)), tt)

verify-EqHolds_example :
    ((ones 1 ≡ field.one_F) × EqHolds EqOp.not_equal (field.from 3) (field.from 7))
    ⊎ ((ones 1 ≡ field.zero_F) × (¬ EqHolds EqOp.not_equal (field.from 3) (field.from 7)))
unfolding is_system_column activator_tracked_poly
verify-EqHolds_example =
    verify-EqHolds field-IsLawful same_flag same_flag-≡ unknown EqOp.not_equal 0 ids virtualized
      initialized payload (constant_table 3) (constant_table 7) outputs (λ i. field.from 3)
      (λ i. field.from 7) ones [] 1 challenge challenge (λ e. omega (arith, e))
      (λ e. omega (arith, e)) (λ e. omega (arith, e)) refl refl refl refl refl refl refl refl refl
      refl initialized-verifier bits eq_claimed neq_claimed 1 (omega arith) tt (inr refl)
