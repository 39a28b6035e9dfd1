-- ===== src/Gadgets/BinCmp.antt =====
-- The gadget for `>=`, `<=`, `>` and `<` as expressions, which shows a column of outputs to be what the
-- comparison of two columns gives
-- (crates/tt-core/src/irs/nodes/plan/exprs/binary_expr/gadget/bin_cmp/mod.rs). Equality of data types and
-- of fields are arguments; numbers of type `i8` are integers. The debug assertions are left out.
pub mod Rows
pub mod Initialize
pub mod Narrow
pub mod Inactive
use truth_table.Common.{
  ℕ, zero, suc, ◌+◌, ◌-◌, ◌^◌, List, [], ◌∷◌, Option, none, some, Bool, true, false, ◌||◌, String,
  Result, ok, err, ◌>>=◌, if◌then◌else◌, ltb, ◌==◌,
}
use truth_table.Common.Int.{ℤ, pos, negsuc}
use truth_table.Datafusion.Host.{Host}
use truth_table.Datafusion.Arrow.{DataType, Field, Fields, Schema}
use truth_table.Field.{PrimeField, sub_F}
use truth_table.Sign.Config.{Sign, SignConfig}
use truth_table.Sign.Column.{Poly, Claim}
use truth_table.Sign.Node.{input_label}
use truth_table.Ir.Passes.{Ir, payload_for_node, set_payload_for_node}
use truth_table.Ir.GadgetPasses.{PayloadStructure}
use truth_table.Join.Constraints.{find_name}
use truth_table.Join.Text.{same_text}
use truth_table.Table.{
  TrackedTable, name_of, data_type_of, insert, activator_field, activator_tracked_poly,
  with_activator_entry,
}
use truth_table.Gadgets.{GadgetError, or_panic}
use truth_table.Gadgets.Boolean.{table_label}
use truth_table.Gadgets.Compare.{data_field, data_col, sign_payload}
use truth_table.Gadgets.Operands.{merged_sign_field, aligned_decimal_diff}

abbrev pub left_input_label : String
left_input_label = "left_input"

abbrev pub right_input_label : String
right_input_label = "right_input"

abbrev pub output_label : String
output_label = "output"

pub data BinCmpOp : Type 0 where
  geq leq gt lt : BinCmpOp

-- the signs of the differences where the output is one, and where it is zero
unfoldable pub sign_pair : BinCmpOp → Sign × Sign
sign_pair BinCmpOp.geq = (Sign.non_negative, Sign.negative)
sign_pair BinCmpOp.leq = (Sign.non_positive, Sign.positive)
sign_pair BinCmpOp.gt = (Sign.positive, Sign.non_positive)
sign_pair BinCmpOp.lt = (Sign.negative, Sign.non_negative)

-- the identifiers of the children of a gadget
pub record Children : Type 0 where
  pub true_sign : ℕ
  pub false_sign : ℕ
  pub bool_check : ℕ

-- the configurations of the sign gadgets that `new` makes
unfoldable pub sign_configs : BinCmpOp → SignConfig × SignConfig
unfolding sign_pair
sign_configs op = (SignConfig.uniform (sign_pair op).0, SignConfig.uniform (sign_pair op).1)

module _ (k : PrimeField) where
  -- the activator of the rows whose output is zero
  abbrev pub false_activator : Option (Poly k) → Poly k → Poly k
  false_activator none output i = k.add (k.mul (output i) (k.neg k.one_F)) k.one_F
  false_activator (some a) output i = sub_F k (a i) (output i)

abbrev pub key_fields : {h : Host} {P : Type 0} → List (Field h × P) → Fields h
key_fields [] = Fields.nil
key_fields ((f, p) ∷ polys) = Fields.cons f (key_fields polys)

-- the metadata of a table's schema, if there is one
abbrev pub schema_metadata : {h : Host} → Option (Schema h) → h.Metadata
schema_metadata {h} none = h.metadata_collect []
schema_metadata (some schema) = schema.metadata

module _ {h : Host} (k : PrimeField) (eqb : Field h → Field h → Bool) where
  -- `build_table_with_activator`
  unfoldable pub build_table : h.Metadata → ℕ → Field h → Poly k → Poly k → TrackedTable h k
  unfolding insert
  build_table metadata log_size f p activator =
      let polys = with_activator_entry eqb (some activator) ((f, p) ∷ []) in
      record {
        schema = some (record { fields = key_fields polys; metadata = metadata });
        tracked_polys = polys;
        log_size = log_size;
      }

module _ {h : Host} {k : PrimeField} (eqb : Field h → Field h → Bool)
    (same_type : DataType h → DataType h → Bool) where
  -- the inputs of the two sign gadgets
  unfoldable pub branch_tables :
      TrackedTable h k
      → TrackedTable h k
      → TrackedTable h k
      → Result GadgetError (TrackedTable h k × TrackedTable h k)
  unfolding data_col merged_sign_field aligned_decimal_diff build_table
  branch_tables left right output = data_col left >>= λ l. data_col right >>= λ r.
      or_panic (data_field left.tracked_polys) λ l_field.
        or_panic (data_field right.tracked_polys) λ r_field. data_col output >>= λ out.
        let (l', r') =
          aligned_decimal_diff k l.data_poly (data_type_of l_field) r.data_poly
            (data_type_of r_field) in
        let diff : Poly k = λ i. sub_F k (l' i) (r' i) in
        let f = merged_sign_field same_type l_field r_field in
        let build = build_table k eqb (schema_metadata left.schema) left.log_size f diff in
        ok (
          build out.data_poly,
          build (false_activator k (activator_tracked_poly k left) out.data_poly),
        )

  module _ {G : Type 0} where
    abbrev pub set_payloads :
        Children
        → Ir G (PayloadStructure (TrackedTable h k))
        → TrackedTable h k
        → TrackedTable h k
        → TrackedTable h k
        → Ir G (PayloadStructure (TrackedTable h k))
    set_payloads ids ir true_input false_input output =
        let ir1 =
          set_payload_for_node ids.true_sign
            (some (PayloadStructure.gadget_payload ((input_label, true_input) ∷ []))) ir in
        let ir2 =
          set_payload_for_node ids.false_sign
            (some (PayloadStructure.gadget_payload ((input_label, false_input) ∷ []))) ir1 in
        set_payload_for_node ids.bool_check
          (some (
            PayloadStructure.gadget_payload (
              insert same_text table_label output
                (sign_payload (payload_for_node ir2 ids.bool_check)))))
          ir2

    -- `without` is what is returned where there is no payload of a gadget: the prover goes on, the
    -- verifier panics
    abbrev pub initialize_with :
        Result GadgetError (Ir G (PayloadStructure (TrackedTable h k)))
        → Children
        → Ir G (PayloadStructure (TrackedTable h k))
        → Option (PayloadStructure (TrackedTable h k))
        → Result GadgetError (Ir G (PayloadStructure (TrackedTable h k)))
    initialize_with without ids ir none = without
    initialize_with without ids ir (some (PayloadStructure.plan_payload t)) = without
    initialize_with without ids ir (some (PayloadStructure.gadget_payload payload)) =
        or_panic (find_name left_input_label payload) λ left.
          or_panic (find_name right_input_label payload) λ right.
            or_panic (find_name output_label payload) λ output.
              branch_tables left right output >>= λ tables.
              ok (set_payloads ids ir tables.0 tables.1 output)

    unfoldable pub prover_initialize_gadgets :
        ℕ
        → Children
        → Ir G (PayloadStructure (TrackedTable h k))
        → Result GadgetError (Ir G (PayloadStructure (TrackedTable h k)))
    unfolding branch_tables insert
    prover_initialize_gadgets id ids ir = initialize_with (ok ir) ids ir (payload_for_node ir id)

    unfoldable pub verifier_initialize_gadgets :
        ℕ
        → Children
        → Ir G (PayloadStructure (TrackedTable h k))
        → Result GadgetError (Ir G (PayloadStructure (TrackedTable h k)))
    unfolding branch_tables insert
    verifier_initialize_gadgets id ids ir =
        initialize_with (err GadgetError.panic) ids ir (payload_for_node ir id)

-- the claim that the output is zero wherever the shared activator is
abbrev pub claim_inactive : {k : PrimeField} → Option (Poly k) → Poly k → List (Claim k)
claim_inactive none output = []
claim_inactive {k} (some a) output =
    Claim.zerocheck (λ i. k.mul (sub_F k (a i) k.one_F) (output i)) ∷ []

module _ {h : Host} {k : PrimeField} where
  -- `prove` and `verify` make the same claims
  unfoldable pub verify :
      Option (PayloadStructure (TrackedTable h k)) → Result GadgetError (List (Claim k))
  verify none = ok []
  verify (some (PayloadStructure.plan_payload t)) = ok []
  verify (some (PayloadStructure.gadget_payload payload)) =
      or_panic (find_name left_input_label payload) λ left.
        or_panic (find_name right_input_label payload) λ right.
          or_panic (find_name output_label payload) λ output. data_col output >>= λ out.
          ok (claim_inactive (activator_tracked_poly k left) out.data_poly)
