-- ===== src/Gadgets/Compare.antt =====
-- The gadgets that show a column to be at most, or at least, another
-- (crates/tt-core/src/irs/nodes/utils/leq/mod.rs, geq/mod.rs): they give the difference of the columns
-- to a sign gadget. The prover's and the verifier's `initialize_gadgets` do the same, to polynomials and
-- to oracles, and one definition stands for both. The debug assertions are left out.
pub mod Order
pub mod Initialize
pub mod Rows
use truth_table.Common.{
  ℕ, List, [], ◌∷◌, Option, none, some, Bool, String, Result, ok, err, ◌>>=◌, if◌then◌else◌,
}
use truth_table.Datafusion.Host.{Host}
use truth_table.Datafusion.Arrow.{Field}
use truth_table.Field.{PrimeField, sub_F}
use truth_table.Sign.Config.{Sign, SignConfig}
use truth_table.Sign.Column.{TrackedCol}
use truth_table.Sign.Node.{input_label}
use truth_table.Ir.Passes.{Ir, payload_for_node, set_payload_for_node}
use truth_table.Ir.GadgetPasses.{PayloadStructure}
use truth_table.Join.Constraints.{find_name}
use truth_table.Join.Text.{same_text}
use truth_table.Table.{
  TrackedTable, is_system_column, name_of, insert, data_tracked_polys_indices, tracked_col_by_ind,
  tracked_col_by_indices, single_column_with_activator,
}
use truth_table.Gadgets.{GadgetError, or_panic}
use truth_table.Gadgets.Equality.{left_label, right_label}

pub data Comparison : Type 0 where
  leq geq : Comparison

-- the sign configuration of the child that `new` makes
unfoldable pub new : Comparison → SignConfig
new Comparison.leq = SignConfig.uniform Sign.non_positive
new Comparison.geq = SignConfig.uniform Sign.non_negative

abbrev pub first : {A : Type 0} → List A → Option A
first [] = none
first (x ∷ xs) = some x

-- the first key that is not the system's
abbrev pub data_field : {h : Host} {P : Type 0} → List (Field h × P) → Option (Field h)
data_field [] = none
data_field ((f, p) ∷ polys) =
    let rest = data_field polys in if is_system_column (name_of f) then rest else some f

-- the payload that the sign gadget has so far
abbrev pub sign_payload : {T : Type 0} → Option (PayloadStructure T) → List (String × T)
sign_payload none = []
sign_payload (some (PayloadStructure.plan_payload t)) = []
sign_payload (some (PayloadStructure.gadget_payload entries)) = entries

abbrev pub set_sign_payload :
    {G T : Type 0} → ℕ → Ir G (PayloadStructure T) → T → Ir G (PayloadStructure T)
set_sign_payload sign_id ir t =
    set_payload_for_node sign_id
      (some (
        PayloadStructure.gadget_payload
          (insert same_text input_label t (sign_payload (payload_for_node ir sign_id)))))
      ir

module _ {h : Host} {k : PrimeField} where
  -- the columns that the sign gadget goes through
  abbrev pub data_cols : TrackedTable h k → Option (List (TrackedCol h k))
  data_cols t = tracked_col_by_indices k t (data_tracked_polys_indices k t)

  -- the first data column of an input
  unfoldable pub data_col : TrackedTable h k → Result GadgetError (TrackedCol h k)
  data_col t =
      or_panic (first (data_tracked_polys_indices k t))
        λ ind. or_panic (tracked_col_by_ind k t ind) λ c. ok c

  module _ (eqb : Field h → Field h → Bool) where
    unfoldable pub diff_table :
        TrackedTable h k → TrackedTable h k → Result GadgetError (TrackedTable h k)
    unfolding data_col
    diff_table left right = data_col left >>= λ l. data_col right >>= λ r.
        or_panic (data_field left.tracked_polys) λ f. ok (
          single_column_with_activator k eqb f left.log_size
            (λ i. sub_F k (l.data_poly i) (r.data_poly i)) l.activator)

    module _ {G : Type 0} where
      abbrev pub initialize_with :
          ℕ
          → Ir G (PayloadStructure (TrackedTable h k))
          → Option (PayloadStructure (TrackedTable h k))
          → Result GadgetError (Ir G (PayloadStructure (TrackedTable h k)))
      initialize_with sign_id ir none = ok ir
      initialize_with sign_id ir (some (PayloadStructure.plan_payload t)) = ok ir
      initialize_with sign_id ir (some (PayloadStructure.gadget_payload payload)) =
          or_panic (find_name left_label payload) λ left.
            or_panic (find_name right_label payload)
              λ right. diff_table left right >>= λ t. ok (set_sign_payload sign_id ir t)

      -- `id` is the gadget, `sign_id` its child
      unfoldable pub initialize_gadgets :
          (id sign_id : ℕ)
          → Ir G (PayloadStructure (TrackedTable h k))
          → Result GadgetError (Ir G (PayloadStructure (TrackedTable h k)))
      unfolding insert diff_table
      initialize_gadgets id sign_id ir = initialize_with sign_id ir (payload_for_node ir id)
