-- ===== src/Tests/Strict.antt =====
-- The sign gadget for positive numbers on a column of threes.
use truth_table.Common.{ℕ, ◌≡◌, ◌≢◌, refl, ap, List, [], ◌∷◌, none, some, ok, String, arith}
use truth_table.Ir.Nodes.{Node, Nodes}
use truth_table.Ir.Tree
use truth_table.Ir.Passes.{Ir, payload_for_node, set_payload_for_node}
use truth_table.Ir.GadgetPasses.{PayloadStructure}
use truth_table.Sign.Config.{Sign, SignConfig, is_strict, needs_zero_check, zero_sensitive_indices}
use truth_table.Sign.Node.{input_label}
use truth_table.Table.{
  TrackedTable, is_system_column, size, activator_tracked_poly, data_tracked_polys_indices,
  indices_from, insert, fold_all_data_columns,
}
use truth_table.Gadgets.{Constants, payload_input}
use truth_table.Gadgets.Claims.{Met}
use truth_table.Gadgets.Equality.{verify_neq, non_zero_poly}
use truth_table.Gadgets.Strict.{initialize_gadgets, strict_cols, strict_table, set_neq_payload}
use truth_table.Gadgets.Strict.Rows.{initialize_gadgets-≢}
use truth_table.Tests.Database.{host}
use truth_table.Tests.Sign.{field, field-IsLawful}
use truth_table.Tests.Compare.{same_flag, same_flag-≡, constant_table, age}

pub none-constant : (p : ℕ → field.F) (c : field.F) → none ≡ some c → (i : ℕ) → p i ≡ c
none-constant p c e i = cc

abbrev pub unknown : Constants field
unknown = record { as_constant = λ p. none; constant_value = none-constant }

abbrev pub challenge : ℕ → field.F
challenge i = field.from 2

abbrev neq_node : Node Sign
neq_node = Node.gadget 1 Sign.positive Nodes.nil

abbrev sign_node : Node Sign
sign_node = Node.gadget 0 Sign.positive (Nodes.cons neq_node Nodes.nil)

abbrev payload : List (String × TrackedTable host field)
payload = (input_label, constant_table 3) ∷ []

abbrev virtualized : Ir Sign (PayloadStructure (TrackedTable host field))
virtualized = record {
  tree = record { root = sign_node; arena = (1, neq_node) ∷ (0, sign_node) ∷ [] };
  payloads = (0, some (PayloadStructure.gadget_payload payload)) ∷ [];
}

abbrev left : TrackedTable host field
left = strict_table field same_flag (constant_table 3) ((age, λ i. field.from 3) ∷ [])

abbrev right : TrackedTable host field
right = strict_table field same_flag (constant_table 3) ((age, λ i. field.zero_F) ∷ [])

initialized :
    initialize_gadgets field same_flag (SignConfig.uniform Sign.positive) 0 1 virtualized
    ≡ ok (set_neq_payload field same_flag 1 virtualized left right)
unfolding initialize_gadgets strict_cols data_tracked_polys_indices indices_from is_system_column
    insert needs_zero_check zero_sensitive_indices is_strict
initialized = refl

claimed : Met (size field (constant_table 3)) (
    verify_neq unknown
      (payload_for_node (set_neq_payload field same_flag 1 virtualized left right) 1)
      challenge)
unfolding size verify_neq payload_input set_payload_for_node Tree.insert insert
    fold_all_data_columns data_tracked_polys_indices indices_from is_system_column
    activator_tracked_poly non_zero_poly
claimed = ((λ i lt e. let z = ap (λ (x : field.F). x.0) e in omega (arith, z)), tt)

initialize_gadgets-≢_example : field.into_bigint (field.from 3) ≢ 0
unfolding size is_strict is_system_column activator_tracked_poly
initialize_gadgets-≢_example =
    initialize_gadgets-≢ field-IsLawful same_flag same_flag-≡ unknown challenge Sign.positive 0 1
      virtualized (set_neq_payload field same_flag 1 virtualized left right) payload
      (constant_table 3) (λ i. field.from 3) refl refl refl refl initialized claimed 1 (omega arith)
      tt
