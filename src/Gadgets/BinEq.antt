-- ===== src/Gadgets/BinEq.antt =====
-- The gadgets for `=` and `<>` as expressions, which show a column of outputs to be what the comparison of
-- two inputs gives (crates/tt-core/src/irs/nodes/plan/exprs/binary_expr/gadget/bin_eq/mod.rs,
-- bin_neq/mod.rs). Equality of fields is an argument. `prove` and `verify`
-- do what those of the other comparisons do (BinCmp.antt). The debug assertions are left out.
pub mod Tables
pub mod Rows
use truth_table.Common.{
  ℕ, List, [], ◌∷◌, Option, none, some, Bool, String, Result, ok, err, ◌>>=◌, if◌then◌else◌, ◌==◌,
}
use truth_table.Datafusion.Host.{Host}
use truth_table.Datafusion.Arrow.{Field}
use truth_table.Field.{PrimeField}
use truth_table.Sign.Column.{Poly}
use truth_table.Ir.Passes.{Ir, payload_for_node, set_payload_for_node}
use truth_table.Ir.GadgetPasses.{PayloadStructure}
use truth_table.Join.Constraints.{find_name}
use truth_table.Join.Text.{same_text}
use truth_table.Table.{
  TrackedTable, is_system_column, name_of, insert, activator_tracked_poly, with_activator_entry,
}
use truth_table.Gadgets.{GadgetError, or_panic}
use truth_table.Gadgets.Boolean.{table_label}
use truth_table.Gadgets.Compare.{data_col, sign_payload}
use truth_table.Gadgets.Strict.{set_neq_payload}
use truth_table.Gadgets.BinCmp.{
  left_input_label, right_input_label, output_label, false_activator, key_fields, schema_metadata,
}

pub data EqOp : Type 0 where
  equal not_equal : EqOp

-- the identifiers of the children of a gadget
pub record EqChildren : Type 0 where
  pub eq_gadget : ℕ
  pub neq_gadget : ℕ
  pub bool_check : ℕ

module _ (k : PrimeField) where
  -- the rows that are shown to be equal, and those that are shown to differ
  unfoldable pub eq_activator : EqOp → Option (Poly k) → Poly k → Poly k
  eq_activator EqOp.equal shared output = output
  eq_activator EqOp.not_equal shared output = false_activator k shared output

  unfoldable pub neq_activator : EqOp → Option (Poly k) → Poly k → Poly k
  neq_activator EqOp.equal shared output = false_activator k shared output
  neq_activator EqOp.not_equal shared output = output

-- the columns that are not the system's, after those there are
unfoldable pub copied :
    {h : Host} {P : Type 0}
    → (Field h → Field h → Bool)
    → List (Field h × P)
    → List (Field h × P)
    → List (Field h × P)
copied eqb [] polys = polys
copied eqb ((f, p) ∷ rest) polys =
    let taken = copied eqb rest (insert eqb f p polys) in
    let skipped = copied eqb rest polys in if is_system_column (name_of f) then skipped else taken

-- the prover takes the table's size, the verifier that of the activator where the table's is 0
abbrev pub prover_log_size : ℕ → ℕ → ℕ
prover_log_size table_log_size activator_log_size = table_log_size

abbrev pub verifier_log_size : ℕ → ℕ → ℕ
verifier_log_size table_log_size activator_log_size =
    if table_log_size == 0 then activator_log_size else table_log_size

module _ {h : Host} (k : PrimeField) (eqb : Field h → Field h → Bool)
    (log_size_of : ℕ → ℕ → ℕ) where
  -- `build_table_with_activator`; the activator's size is that of the output
  unfoldable pub build_table : ℕ → Poly k → TrackedTable h k → TrackedTable h k
  unfolding copied insert
  build_table output_log_size activator t =
      let polys = with_activator_entry eqb (some activator) (copied eqb t.tracked_polys []) in
      record {
        schema = some (record { fields = key_fields polys; metadata = schema_metadata t.schema });
        tracked_polys = polys;
        log_size = log_size_of t.log_size output_log_size;
      }

  module _ {G : Type 0} where
    abbrev pub set_payloads :
        EqOp
        → EqChildren
        → Ir G (PayloadStructure (TrackedTable h k))
        → TrackedTable h k
        → TrackedTable h k
        → TrackedTable h k
        → Poly k
        → Ir G (PayloadStructure (TrackedTable h k))
    set_payloads op ids ir left right output out =
        let shared = activator_tracked_poly k left in
        let on_eq = build_table output.log_size (eq_activator k op shared out) in
        let on_neq = build_table output.log_size (neq_activator k op shared out) in
        let ir1 = set_neq_payload k eqb ids.eq_gadget ir (on_eq left) (on_eq right) in
        let ir2 = set_neq_payload k eqb ids.neq_gadget ir1 (on_neq left) (on_neq right) in
        set_payload_for_node ids.bool_check
          (some (
            PayloadStructure.gadget_payload (
              insert same_text table_label output
                (sign_payload (payload_for_node ir2 ids.bool_check)))))
          ir2

    -- `without` is what is returned where there is no payload of a gadget
    abbrev pub initialize_with :
        Result GadgetError (Ir G (PayloadStructure (TrackedTable h k)))
        → EqOp
        → EqChildren
        → Ir G (PayloadStructure (TrackedTable h k))
        → Option (PayloadStructure (TrackedTable h k))
        → Result GadgetError (Ir G (PayloadStructure (TrackedTable h k)))
    initialize_with without op ids ir none = without
    initialize_with without op ids ir (some (PayloadStructure.plan_payload t)) = without
    initialize_with without op ids ir (some (PayloadStructure.gadget_payload payload)) =
        or_panic (find_name left_input_label payload) λ left.
          or_panic (find_name right_input_label payload) λ right.
            or_panic (find_name output_label payload) λ output.
              data_col output >>= λ out. ok (set_payloads op ids ir left right output out.data_poly)

module _ {h : Host} (k : PrimeField) (eqb : Field h → Field h → Bool) {G : Type 0} where
  unfoldable pub prover_initialize_gadgets :
      EqOp
      → ℕ
      → EqChildren
      → Ir G (PayloadStructure (TrackedTable h k))
      → Result GadgetError (Ir G (PayloadStructure (TrackedTable h k)))
  unfolding build_table eq_activator neq_activator insert
  prover_initialize_gadgets op id ids ir =
      initialize_with k eqb prover_log_size (ok ir) op ids ir (payload_for_node ir id)

  unfoldable pub verifier_initialize_gadgets :
      EqOp
      → ℕ
      → EqChildren
      → Ir G (PayloadStructure (TrackedTable h k))
      → Result GadgetError (Ir G (PayloadStructure (TrackedTable h k)))
  unfolding build_table eq_activator neq_activator insert
  verifier_initialize_gadgets op id ids ir =
      initialize_with k eqb verifier_log_size (err GadgetError.panic) op ids ir
        (payload_for_node ir id)
