-- ===== src/Gadgets/BinCmp/Initialize.antt =====
-- What the children of a comparison find in their payloads
-- (crates/tt-core/src/irs/nodes/plan/exprs/binary_expr/gadget/bin_cmp/mod.rs).
use truth_table.Common.{
  ℕ, ◌≡◌, ◌≢◌, ◌==◌, refl, ap, ◌∙◌, List, [], ◌∷◌, some, Bool, true, false, String, ok, arith,
  Option,
}
use truth_table.Datafusion.Host.{Host}
use truth_table.Datafusion.Arrow.{DataType, Field}
use truth_table.Field.{PrimeField, sub_F}
use truth_table.Sign.Column.{Poly}
use truth_table.Sign.Node.{input_label}
use truth_table.Ir.Passes.{Ir, payload_for_node, set_payload_for_node}
use truth_table.Ir.PayloadPasses.Filled.{get-insert}
use truth_table.Ir.GadgetPasses.{PayloadStructure}
use truth_table.Join.Constraints.{find_name}
use truth_table.Join.Text.{same_text}
use truth_table.Table.{
  TrackedTable, is_system_column, name_of, insert, activator_tracked_poly,
  data_tracked_polys_indices, tracked_col_by_indices, tracked_col_by_ind, indices_from,
  data_type_of,
}
use truth_table.Table.Fold.{data_polys}
use truth_table.Gadgets.{payload_input}
use truth_table.Gadgets.Payloads.{find_name-insert}
use truth_table.Gadgets.Boolean.{table_label}
use truth_table.Gadgets.Compare.{data_field, data_cols, sign_payload}
use truth_table.Gadgets.Compare.Initialize.{
  col, first_col, payload_for_node-set, not_activator_name, not_activator_field,
}
use truth_table.Gadgets.Operands.{aligned_decimal_diff, merged_sign_field}
use truth_table.Gadgets.BinCmp.{
  Children, left_input_label, right_input_label, output_label, false_activator, build_table,
  branch_tables, set_payloads, schema_metadata, prover_initialize_gadgets,
  verifier_initialize_gadgets,
}

-- a payload is kept when that of another node is set
pub payload_for_node-set_other :
    {G P : Type 0} (id other : ℕ) (p : Option P) (ir : Ir G P)
    → id ≢ other
    → payload_for_node (set_payload_for_node other p ir) id ≡ payload_for_node ir id
unfolding set_payload_for_node
payload_for_node-set_other id other p ir apart =
    let e : (other == id) ≡ false = ground (arith, apart) in
    rw (get-insert id other p ir.payloads, e) refl

-- the payloads of the three children, which differ
abbrev pub Found :
    {h : Host} {k : PrimeField} {G : Type 0}
    → Children
    → Ir G (PayloadStructure (TrackedTable h k))
    → TrackedTable h k
    → TrackedTable h k
    → TrackedTable h k
    → Type 0
Found ids ir t f output =
    (payload_input (payload_for_node ir ids.true_sign) input_label ≡ some t)
    × (payload_input (payload_for_node ir ids.false_sign) input_label ≡ some f)
    × (payload_input (payload_for_node ir ids.bool_check) table_label ≡ some output)

module _ {h : Host} {k : PrimeField} (eqb : Field h → Field h → Bool)
    (eqb-≡ : (f g : Field h) → eqb f g ≡ true → f ≡ g) where
  -- the one data column of a table that is built
  build_table-data_cols :
      (metadata : h.Metadata) (n : ℕ) (f : Field h) (p activator : Poly k)
      → is_system_column (name_of f) ≡ false
      → data_cols (build_table k eqb metadata n f p activator)
        ≡ some (col p (some activator) f ∷ [])
  unfolding build_table data_tracked_polys_indices tracked_col_by_indices tracked_col_by_ind
      activator_tracked_poly indices_from insert
  build_table-data_cols metadata n f p activator other =
      rw (not_activator_field eqb eqb-≡ f other) (rw (other, not_activator_name f other) refl)

module _ {h : Host} {k : PrimeField} (eqb : Field h → Field h → Bool)
    (eqb-≡ : (f g : Field h) → eqb f g ≡ true → f ≡ g)
    (same_type : DataType h → DataType h → Bool) where
  abbrev built_tables :
      TrackedTable h k → Field h → Poly k → Poly k → Poly k → TrackedTable h k × TrackedTable h k
  built_tables left f l r out = (
    build_table k eqb (schema_metadata left.schema) left.log_size f (λ i. sub_F k (l i) (r i)) out,
    build_table k eqb (schema_metadata left.schema) left.log_size f (λ i. sub_F k (l i) (r i))
        (false_activator k (activator_tracked_poly k left) out),
  )

  branch_tables-built_tables :
      (left right output : TrackedTable h k) (l r out : Poly k) (ls rs outs : List (Poly k))
      → data_polys left.tracked_polys ≡ l ∷ ls
      → data_polys right.tracked_polys ≡ r ∷ rs
      → data_polys output.tracked_polys ≡ out ∷ outs
      → (lf rf : Field h) × (is_system_column (name_of (merged_sign_field same_type lf rf)) ≡ false)
        × (branch_tables eqb same_type left right output
            ≡ ok (
                let (l', r') = aligned_decimal_diff k l (data_type_of lf) r (data_type_of rf) in
                built_tables left (merged_sign_field same_type lf rf) l' r' out))
        × (data_field left.tracked_polys ≡ some lf)
        × (data_field right.tracked_polys ≡ some rf)
  unfolding branch_tables merged_sign_field
  branch_tables-built_tables left right output l r out ls rs outs l_e r_e out_e =
      let (lf, l_col, l_field, l_other) = first_col left l ls l_e in
      let (rf, r_col, r_field, r_other) = first_col right r rs r_e in
      let (outf, out_col, out_field, out_other) = first_col output out outs out_e in
      (lf, rf, l_other, rw (l_col, r_col, l_field, r_field, out_col) refl, l_field, r_field)

  set_payloads-Found :
      {G : Type 0} (ids : Children) (ir : Ir G (PayloadStructure (TrackedTable h k)))
      (t f output : TrackedTable h k)
      → ids.true_sign ≢ ids.false_sign
      → ids.true_sign ≢ ids.bool_check
      → ids.false_sign ≢ ids.bool_check
      → Found ids (set_payloads eqb same_type ids ir t f output) t f output
  unfolding payload_input
  set_payloads-Found ids ir t f output tf tb fb =
      let one : TrackedTable h k → PayloadStructure (TrackedTable h k) =
        (λ x. PayloadStructure.gadget_payload ((input_label, x) ∷ [])) in
      let ir1 = set_payload_for_node ids.true_sign (some (one t)) ir in
      let ir2 = set_payload_for_node ids.false_sign (some (one f)) ir1 in
      let entries =
        insert same_text table_label output (sign_payload (payload_for_node ir2 ids.bool_check)) in
      (
        ap (λ o. payload_input o input_label)
            (payload_for_node-set_other ids.true_sign ids.bool_check
                (some (PayloadStructure.gadget_payload entries)) ir2 tb
              ∙ payload_for_node-set_other ids.true_sign ids.false_sign (some (one f)) ir1 tf
              ∙ payload_for_node-set ids.true_sign (one t) ir),
        ap (λ o. payload_input o input_label)
            (payload_for_node-set_other ids.false_sign ids.bool_check
                (some (PayloadStructure.gadget_payload entries)) ir2 fb
              ∙ payload_for_node-set ids.false_sign (one f) ir1),
        ap (λ o. payload_input o table_label)
              (payload_for_node-set ids.bool_check (PayloadStructure.gadget_payload entries) ir2)
            ∙ find_name-insert table_label output
                (sign_payload (payload_for_node ir2 ids.bool_check)) refl,
      )

  -- With a field equality that is right when it says yes: for a comparison whose inputs and output have
  -- a data column each, and whose three children differ, the prover's and the verifier's initialization
  -- both succeed with the same payloads. The two sign gadgets have a table of one data column each, the
  -- difference of the operands brought to one scale, under the merged field, with the output as activator
  -- in the one and the activator of the false branch in the other; the Boolean gadget has the output.
  pub initialize_gadgets-Found :
      {G : Type 0} (id : ℕ) (ids : Children) (ir : Ir G (PayloadStructure (TrackedTable h k)))
      (payload : List (String × TrackedTable h k)) (left right output : TrackedTable h k)
      (l r out : Poly k) (ls rs outs : List (Poly k))
      → ids.true_sign ≢ ids.false_sign
      → ids.true_sign ≢ ids.bool_check
      → ids.false_sign ≢ ids.bool_check
      → payload_for_node ir id ≡ some (PayloadStructure.gadget_payload payload)
      → find_name left_input_label payload ≡ some left
      → find_name right_input_label payload ≡ some right
      → find_name output_label payload ≡ some output
      → data_polys left.tracked_polys ≡ l ∷ ls
      → data_polys right.tracked_polys ≡ r ∷ rs
      → data_polys output.tracked_polys ≡ out ∷ outs
      → (ir' : Ir G (PayloadStructure (TrackedTable h k))) × (t f : TrackedTable h k) × (lf
          rf : Field h)
        × (prover_initialize_gadgets eqb same_type id ids ir ≡ ok ir')
        × (verifier_initialize_gadgets eqb same_type id ids ir ≡ ok ir')
        × Found ids ir' t f output
        × (data_field left.tracked_polys ≡ some lf)
        × (data_field right.tracked_polys ≡ some rf)
        × (let (l', r') = aligned_decimal_diff k l (data_type_of lf) r (data_type_of rf) in
            (data_cols t
              ≡ some (
                  col (λ i. sub_F k (l' i) (r' i)) (some out) (merged_sign_field same_type lf rf)
                  ∷ []))
            × (data_cols f
                ≡ some (
                    col
                      (λ i. sub_F k (l' i) (r' i))
                      (some (false_activator k (activator_tracked_poly k left) out))
                      (merged_sign_field same_type lf rf)
                    ∷ [])))
  unfolding prover_initialize_gadgets verifier_initialize_gadgets
  initialize_gadgets-Found id ids ir payload left right output l r out ls rs outs tf tb fb here l_in
        r_in out_in l_e r_e out_e =
      let (lf, rf, other, tables, lf_e, rf_e) =
        branch_tables-built_tables left right output l r out ls rs outs l_e r_e out_e in
      let operands = aligned_decimal_diff k l (data_type_of lf) r (data_type_of rf) in
      let merged = merged_sign_field same_type lf rf in
      let made = built_tables left merged operands.0 operands.1 out in
      let diff : Poly k = λ i. sub_F k (operands.0 i) (operands.1 i) in
      (
        set_payloads eqb same_type ids ir made.0 made.1 output,
        made.0,
        made.1,
        lf,
        rf,
        rw (here, l_in, r_in, out_in, tables) refl,
        rw (here, l_in, r_in, out_in, tables) refl,
        set_payloads-Found ids ir made.0 made.1 output tf tb fb,
        lf_e,
        rf_e,
        (
          build_table-data_cols eqb eqb-≡ (schema_metadata left.schema) left.log_size merged diff
              out other,
          build_table-data_cols eqb eqb-≡ (schema_metadata left.schema) left.log_size merged diff
              (false_activator k (activator_tracked_poly k left) out) other,
        ),
      )
