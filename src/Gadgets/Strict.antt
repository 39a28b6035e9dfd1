-- ===== src/Gadgets/Strict.antt =====
-- How a sign gadget with strict signs gives its columns to the gadget for differing rows, with columns of
-- zeros to differ from: `SignNode::initialize_gadgets` (crates/tt-core/src/irs/nodes/utils/sign/mod.rs).
-- The prover's and the verifier's do the same, to polynomials and to oracles.
pub mod Inputs
pub mod Rows
use truth_table.Common.{
  ℕ, List, [], ◌∷◌, Option, none, some, Bool, String, Result, ok, err, get_elem?, length,
  if◌then◌else◌,
}
use truth_table.Datafusion.Host.{Host}
use truth_table.Datafusion.Arrow.{Field}
use truth_table.Field.{PrimeField}
use truth_table.Sign.Config.{SignConfig, needs_zero_check, zero_sensitive_indices}
use truth_table.Sign.Column.{Poly}
use truth_table.Sign.Node.{input_label}
use truth_table.Ir.Passes.{Ir, payload_for_node, set_payload_for_node}
use truth_table.Ir.GadgetPasses.{PayloadStructure}
use truth_table.Join.Constraints.{find_name}
use truth_table.Join.Text.{same_text}
use truth_table.Table.{
  TrackedTable, insert, data_tracked_polys_indices, activator_tracked_poly, with_activator_entry,
}
use truth_table.Gadgets.{GadgetError, or_panic}
use truth_table.Gadgets.Equality.{left_label, right_label}
use truth_table.Gadgets.Compare.{sign_payload}

-- what stands at the index that stands at `i`
abbrev pub entry_at : {A : Type 0} → List A → Option ℕ → Option A
entry_at entries none = none
entry_at entries (some d) = get_elem? entries d

module _ {h : Host} (k : PrimeField) (eqb : Field h → Field h → Bool) where
  abbrev pub Cols : Type 0
  Cols = List (Field h × Poly k)

  -- the columns with strict signs, and as many of zeros
  unfoldable pub strict_cols : Cols → List ℕ → List ℕ → Cols → Cols → Option (Cols × Cols)
  strict_cols polys inds [] left right = some (left, right)
  strict_cols polys inds (i ∷ is) left right = elim (entry_at polys (get_elem? inds i)) [
    | none ↦ none
    | some (f, p) ↦
        strict_cols polys inds is (insert eqb f p left) (insert eqb f (λ row. k.zero_F) right)
  ]

  abbrev pub strict_table : TrackedTable h k → Cols → TrackedTable h k
  strict_table t cols = record {
    schema = none;
    tracked_polys = with_activator_entry eqb (activator_tracked_poly k t) cols;
    log_size = t.log_size;
  }

  -- the payload of the gadget for differing rows
  abbrev pub set_neq_payload :
      {G : Type 0}
      → ℕ
      → Ir G (PayloadStructure (TrackedTable h k))
      → TrackedTable h k
      → TrackedTable h k
      → Ir G (PayloadStructure (TrackedTable h k))
  set_neq_payload neq_id ir left right =
      set_payload_for_node neq_id
        (some (
          PayloadStructure.gadget_payload (
            insert same_text right_label right
              (insert same_text left_label left (sign_payload (payload_for_node ir neq_id))))))
        ir

  abbrev pub initialize_with :
      {G : Type 0}
      → SignConfig
      → ℕ
      → Ir G (PayloadStructure (TrackedTable h k))
      → Option (PayloadStructure (TrackedTable h k))
      → Result GadgetError (Ir G (PayloadStructure (TrackedTable h k)))
  initialize_with cfg neq_id ir none = ok ir
  initialize_with cfg neq_id ir (some (PayloadStructure.plan_payload t)) = ok ir
  initialize_with cfg neq_id ir (some (PayloadStructure.gadget_payload payload)) =
      or_panic (find_name input_label payload) λ input.
        let inds = data_tracked_polys_indices k input in
        or_panic
          (strict_cols input.tracked_polys inds (zero_sensitive_indices cfg (length inds)) [] [])
          λ cols.
            ok (set_neq_payload neq_id ir (strict_table input cols.0) (strict_table input cols.1))

  -- `id` is the sign gadget, `neq_id` its child, if it has one
  unfoldable pub initialize_gadgets :
      {G : Type 0}
      → SignConfig
      → (id neq_id : ℕ) → Ir G (PayloadStructure (TrackedTable h k))
      → Result GadgetError (Ir G (PayloadStructure (TrackedTable h k)))
  unfolding strict_cols insert
  initialize_gadgets cfg id neq_id ir =
      if needs_zero_check cfg then initialize_with cfg neq_id ir (payload_for_node ir id) else ok ir
