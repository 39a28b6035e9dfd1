-- ===== src/Gadgets/Strict/Inputs.antt =====
-- What the gadget for differing rows finds in the payload that it is given
-- (crates/tt-core/src/irs/nodes/utils/sign/mod.rs).
use truth_table.Common.{◌≡◌, refl, ap, ◌∙◌, Option, some, ℕ, Bool}
use truth_table.Datafusion.Host.{Host}
use truth_table.Datafusion.Arrow.{Field}
use truth_table.Field.{PrimeField}
use truth_table.Ir.Passes.{Ir, payload_for_node}
use truth_table.Ir.GadgetPasses.{PayloadStructure}
use truth_table.Join.Text.{same_text}
use truth_table.Table.{TrackedTable, insert}
use truth_table.Gadgets.{payload_input}
use truth_table.Gadgets.Payloads.{find_name-insert, find_name-insert_other}
use truth_table.Gadgets.Equality.{left_label, right_label}
use truth_table.Gadgets.Compare.{sign_payload}
use truth_table.Gadgets.Compare.Initialize.{payload_for_node-set}
use truth_table.Gadgets.Strict.{set_neq_payload}

module _ {h : Host} {k : PrimeField} (eqb : Field h → Field h → Bool) where
  -- the inputs in the payload of a child
  pub set_neq_payload-inputs :
      {G : Type 0} (id : ℕ) (ir : Ir G (PayloadStructure (TrackedTable h k)))
      (l r : TrackedTable h k) (o : Option (PayloadStructure (TrackedTable h k)))
      → o ≡ payload_for_node (set_neq_payload k eqb id ir l r) id
      → (payload_input o left_label ≡ some l) × (payload_input o right_label ≡ some r)
  unfolding payload_input
  set_neq_payload-inputs id ir l r o e =
      let before = insert same_text left_label l (sign_payload (payload_for_node ir id)) in
      let entries = insert same_text right_label r before in
      let there : o ≡ some (PayloadStructure.gadget_payload entries) =
        e ∙ payload_for_node-set id (PayloadStructure.gadget_payload entries) ir in
      (
        ap (λ x. payload_input x left_label) there
            ∙ find_name-insert_other left_label right_label r before refl
            ∙ find_name-insert left_label l (sign_payload (payload_for_node ir id)) refl,
        ap (λ x. payload_input x right_label) there ∙ find_name-insert right_label r before refl,
      )
