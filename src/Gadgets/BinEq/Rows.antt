-- ===== src/Gadgets/BinEq/Rows.antt =====
-- What the claims of the children of `=` and `<>` show of the output
-- (crates/tt-core/src/irs/nodes/plan/exprs/binary_expr/gadget/bin_eq/mod.rs, bin_neq/mod.rs).
use mathlib.Core.Path.{subst}
use truth_table.Common.{
  ℕ, ◌^◌, ◌<◌, ◌≡◌, ◌≢◌, ◌⊎◌, inl, inr, refl, sym, ap, ◌∙◌, List, [], ◌∷◌, Option, some, Bool, true,
  String, ok, length, arith,
}
use truth_table.Datafusion.Host.{Host}
use truth_table.Datafusion.Arrow.{Field}
use truth_table.Field.{PrimeField, IsLawful}
use truth_table.Field.Arithmetic.{into_bigint-injective}
use truth_table.Sign.Column.{Poly}
use truth_table.Sign.Claims.{IsActive}
use truth_table.Ir.Passes.{Ir, payload_for_node}
use truth_table.Ir.GadgetPasses.{PayloadStructure}
use truth_table.Join.Constraints.{find_name}
use truth_table.Table.{TrackedTable, size, activator_tracked_poly}
use truth_table.Table.Fold.{data_polys}
use truth_table.Gadgets.{payload_input, Constants}
use truth_table.Gadgets.Claims.{Met}
use truth_table.Gadgets.Boolean.Value.{IsBooleanAt}
use truth_table.Gadgets.Equality.{left_label, right_label, verify_eq, verify_neq}
use truth_table.Gadgets.Equality.Folded.{row_value, challenges}
use truth_table.Gadgets.Equality.Rows.{verify_eq-row_of}
use truth_table.Gadgets.Equality.Differ.{honest_neq_check-verify_neq}
use truth_table.Gadgets.Compare.Initialize.{first_col}
use truth_table.Gadgets.Strict.Inputs.{set_neq_payload-inputs}
use truth_table.Gadgets.Strict.{set_neq_payload}
use truth_table.Gadgets.BinCmp.{left_input_label, right_input_label, output_label}
use truth_table.Gadgets.BinCmp.Initialize.{payload_for_node-set_other}
use truth_table.Gadgets.BinCmp.Rows.{false_activator-one}
use truth_table.Gadgets.BinEq.{
  EqOp, EqChildren, eq_activator, neq_activator, verifier_log_size, set_payloads,
  verifier_initialize_gadgets,
}
use truth_table.Gadgets.BinEq.Tables.{built, build_table-polys, build_table-size}

-- what the comparisons mean of two values
abbrev pub EqHolds : {A : Type 0} → EqOp → A → A → Type 0
EqHolds EqOp.equal x y = x ≡ y
EqHolds EqOp.not_equal x y = x ≢ y

module _ {h : Host} {k : PrimeField} (law : IsLawful k) (eqb : Field h → Field h → Bool)
    (eqb-≡ : (f g : Field h) → eqb f g ≡ true → f ≡ g) (left right : TrackedTable h k)
    (l r : Poly k) (n : ℕ) (l_size : left.log_size ≡ n) (r_size : right.log_size ≡ n)
    (l_e : data_polys left.tracked_polys ≡ l ∷ []) (r_e : data_polys right.tracked_polys ≡ r ∷ [])
    (activator : Poly k) (challenge : ℕ → k.F) (o : Option (PayloadStructure (TrackedTable h k)))
    (l_in : payload_input o left_label ≡ some (built eqb eqb-≡ n activator left))
    (r_in : payload_input o right_label ≡ some (built eqb eqb-≡ n activator right)) where
  abbrev value_of : TrackedTable h k → Poly k → ℕ → ℕ
  value_of t p i =
      row_value k (data_polys (built eqb eqb-≡ n activator t).tracked_polys)
        (challenges law challenge (built eqb eqb-≡ n activator left)) i

  value_of-value :
      (t : TrackedTable h k) (p : Poly k)
      → data_polys t.tracked_polys ≡ p ∷ []
      → (i : ℕ) → value_of t p i ≡ k.into_bigint (p i)
  value_of-value t p e i =
      ap (λ ps. row_value k ps (challenges law challenge (built eqb eqb-≡ n activator left)) i)
        (build_table-polys eqb eqb-≡ n activator t p e).0

  one_column : 0 < length (data_polys (built eqb eqb-≡ n activator left).tracked_polys)
  one_column = omega (arith, ap length (build_table-polys eqb eqb-≡ n activator left l l_e).0)

  as_many :
      length (data_polys (built eqb eqb-≡ n activator left).tracked_polys)
      ≡ length (data_polys (built eqb eqb-≡ n activator right).tracked_polys)
  as_many =
      ap length (build_table-polys eqb eqb-≡ n activator left l l_e).0
      ∙ sym (ap length (build_table-polys eqb eqb-≡ n activator right r r_e).0)

  size-built : size k (built eqb eqb-≡ n activator left) ≡ 2 ^ n
  unfolding size
  size-built = ap (λ m. 2 ^ m) (build_table-size eqb eqb-≡ n activator left l_size)

  IsActive-of :
      (i : ℕ)
      → activator i ≡ k.one_F
      → IsActive k (activator_tracked_poly k (built eqb eqb-≡ n activator left)) i
  IsActive-of i on =
      subst (λ b. IsActive k b i) (sym (build_table-polys eqb eqb-≡ n activator left l l_e).1) on

  eq_rows :
      ((i : ℕ) → i < 2 ^ n → IsBooleanAt k (some activator) i)
      → Met (2 ^ n) (verify_eq o challenge)
      → (i : ℕ) → i < 2 ^ n
      → activator i ≡ k.one_F
      → l i ≡ r i
  eq_rows bits met i lt on =
      let claim =
        verify_eq-row_of law challenge o (built eqb eqb-≡ n activator left)
          (built eqb eqb-≡ n activator right) l_in r_in one_column as_many
          (λ j below.
            subst (λ b. IsBooleanAt k b j)
              (sym (build_table-polys eqb eqb-≡ n activator left l l_e).1)
              (bits j (subst (λ m. j < m) size-built below))) in
      into_bigint-injective law (l i) (r i) (
        sym (value_of-value left l l_e i)
        ∙ claim.0 (subst (λ m. Met m (verify_eq o challenge)) (sym size-built) met) i
            (subst (λ m. i < m) (sym size-built) lt) (IsActive-of i on)
        ∙ value_of-value right r r_e i)

  neq_rows :
      (constants : Constants k)
      → Met (2 ^ n) (verify_neq constants o challenge)
      → (i : ℕ) → i < 2 ^ n
      → activator i ≡ k.one_F
      → l i ≢ r i
  neq_rows constants met i lt on =
      let check =
        honest_neq_check-verify_neq law challenge o (built eqb eqb-≡ n activator left)
          (built eqb eqb-≡ n activator right) l_in r_in one_column as_many constants
          (build_table-size eqb eqb-≡ n activator left l_size
            ∙ sym (build_table-size eqb eqb-≡ n activator right r_size)) in
      λ e.
        check.0.0
          (check.1 (subst (λ m. Met m (verify_neq constants o challenge)) (sym size-built) met)) i
          (subst (λ m. i < m) (sym size-built) lt) (IsActive-of i on)
          (value_of-value left l l_e i ∙ ap k.into_bigint e ∙ sym (value_of-value right r r_e i))

by_activators :
    {k : PrimeField} (law : IsLawful k) (op : EqOp) (shared : Option (Poly k)) (out : Poly k)
    (i : ℕ) (x y : k.F)
    → IsActive k shared i
    → IsBooleanAt k (some out) i
    → (eq_activator k op shared out i ≡ k.one_F → x ≡ y)
    → (neq_activator k op shared out i ≡ k.one_F → x ≢ y)
    → ((out i ≡ k.one_F) × EqHolds op x y) ⊎ ((out i ≡ k.zero_F) × (¬ EqHolds op x y))
unfolding eq_activator neq_activator
by_activators law EqOp.equal shared out i x y active (inr one) same apart = inl (one, same one)
by_activators law EqOp.equal shared out i x y active (inl nil) same apart =
    inr (nil, apart (false_activator-one law shared out i active nil))
by_activators law EqOp.not_equal shared out i x y active (inr one) same apart = inl (one, apart one)
by_activators law EqOp.not_equal shared out i x y active (inl nil) same apart =
    inr (nil, λ differ. differ (same (false_activator-one law shared out i active nil)))

module _ {h : Host} {k : PrimeField} (law : IsLawful k) (eqb : Field h → Field h → Bool)
    (eqb-≡ : (f g : Field h) → eqb f g ≡ true → f ≡ g) (constants : Constants k) where
  -- Over a lawful field, with a field equality that is right when it says yes: let `=` or `<>`, whose
  -- children differ, have two inputs of one data column and an output with one, all of the same size; let
  -- the verifier's initialization succeed, and let the verifiers of the gadgets for equal and for differing
  -- rows, on the payloads they have then, succeed with claims that hold, where the activator of the one for
  -- equal rows is zero or one at every row. Then at a row that the shared activator keeps and at which the
  -- output is zero or one, the output is one and the comparison holds of the values, or it is zero and
  -- does not.
  pub verify-EqHolds :
      {G : Type 0} (op : EqOp) (id : ℕ) (ids : EqChildren)
      (ir ir' : Ir G (PayloadStructure (TrackedTable h k)))
      (payload : List (String × TrackedTable h k)) (left right output : TrackedTable h k)
      (l r out : Poly k) (outs : List (Poly k)) (n : ℕ) (eq_challenge neq_challenge : ℕ → k.F)
      → ids.eq_gadget ≢ ids.neq_gadget
      → ids.eq_gadget ≢ ids.bool_check
      → ids.neq_gadget ≢ ids.bool_check
      → payload_for_node ir id ≡ some (PayloadStructure.gadget_payload payload)
      → find_name left_input_label payload ≡ some left
      → find_name right_input_label payload ≡ some right
      → find_name output_label payload ≡ some output
      → data_polys left.tracked_polys ≡ l ∷ []
      → data_polys right.tracked_polys ≡ r ∷ []
      → data_polys output.tracked_polys ≡ out ∷ outs
      → left.log_size ≡ n
      → right.log_size ≡ n
      → output.log_size ≡ n
      → verifier_initialize_gadgets k eqb op id ids ir ≡ ok ir'
      → ((i : ℕ)
          → i < 2 ^ n
          → IsBooleanAt k (some (eq_activator k op (activator_tracked_poly k left) out)) i)
      → Met (2 ^ n) (verify_eq (payload_for_node ir' ids.eq_gadget) eq_challenge)
      → Met (2 ^ n) (verify_neq constants (payload_for_node ir' ids.neq_gadget) neq_challenge)
      → (i : ℕ) → i < 2 ^ n
      → IsActive k (activator_tracked_poly k left) i
      → IsBooleanAt k (some out) i
      → ((out i ≡ k.one_F) × EqHolds op (l i) (r i))
        ⊎ ((out i ≡ k.zero_F) × (¬ EqHolds op (l i) (r i)))
  unfolding verifier_initialize_gadgets
  verify-EqHolds op id ids ir ir' payload left right output l r out outs n ec nc en eb nb here l_in
        r_in out_in l_e r_e out_e l_size r_size out_size init bits eq_met neq_met i lt active bit =
      let (outf, out_col, out_field, out_other) = first_col output out outs out_e in
      let shared = activator_tracked_poly k left in
      let on_eq = built eqb eqb-≡ output.log_size (eq_activator k op shared out) in
      let on_neq = built eqb eqb-≡ output.log_size (neq_activator k op shared out) in
      let ir1 = set_neq_payload k eqb ids.eq_gadget ir (on_eq left) (on_eq right) in
      let ir2 = set_neq_payload k eqb ids.neq_gadget ir1 (on_neq left) (on_neq right) in
      let done : verifier_initialize_gadgets k eqb op id ids ir
          ≡ ok (set_payloads k eqb verifier_log_size op ids ir left right output out) =
        rw (here, l_in, r_in, out_in, out_col) refl in
      let same_ir : ir' ≡ set_payloads k eqb verifier_log_size op ids ir left right output out =
        cc (init, done) in
      let at_eq : payload_for_node ir' ids.eq_gadget ≡ payload_for_node ir1 ids.eq_gadget =
        ap (λ (x : Ir _ (PayloadStructure (TrackedTable h k))). payload_for_node x ids.eq_gadget)
          same_ir
        ∙ payload_for_node-set_other ids.eq_gadget ids.bool_check _ ir2 eb
        ∙ payload_for_node-set_other ids.eq_gadget ids.neq_gadget _ ir1 en in
      let at_neq : payload_for_node ir' ids.neq_gadget ≡ payload_for_node ir2 ids.neq_gadget =
        ap (λ (x : Ir _ (PayloadStructure (TrackedTable h k))). payload_for_node x ids.neq_gadget)
          same_ir
        ∙ payload_for_node-set_other ids.neq_gadget ids.bool_check _ ir2 nb in
      let eq_in = set_neq_payload-inputs eqb ids.eq_gadget ir (on_eq left) (on_eq right) _ at_eq in
      let neq_in =
        set_neq_payload-inputs eqb ids.neq_gadget ir1 (on_neq left) (on_neq right) _ at_neq in
      let sized : (activator : Poly k) (t : TrackedTable h k)
          → some (built eqb eqb-≡ output.log_size activator t)
            ≡ some (built eqb eqb-≡ n activator t) =
        (λ activator t. ap (λ m. some (built eqb eqb-≡ m activator t)) out_size) in
      by_activators law op shared out i (l i) (r i) active bit
        (eq_rows law eqb eqb-≡ left right l r n l_size r_size l_e r_e (eq_activator k op shared out)
          ec _ (eq_in.0 ∙ sized _ left) (eq_in.1 ∙ sized _ right) bits eq_met i lt)
        (neq_rows law eqb eqb-≡ left right l r n l_size r_size l_e r_e
          (neq_activator k op shared out) nc _ (neq_in.0 ∙ sized _ left) (neq_in.1 ∙ sized _ right)
          constants neq_met i lt)
