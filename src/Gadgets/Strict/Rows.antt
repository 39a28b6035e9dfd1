-- ===== src/Gadgets/Strict/Rows.antt =====
-- What the gadget for differing rows shows of the one column of a sign gadget with a strict sign
-- (crates/tt-core/src/irs/nodes/utils/sign/mod.rs, neq/mod.rs).
use mathlib.Core.Path.{subst}
use truth_table.Common.{
  ℕ, ◌+◌, ◌<◌, ◌≡◌, ◌≢◌, refl, sym, ap, ◌∙◌, List, [], ◌∷◌, Option, none, some, Bool, true, false,
  String, ok, get_elem?, length, arith,
}
use truth_table.Datafusion.Host.{Host}
use truth_table.Datafusion.Arrow.{Field}
use truth_table.Field.{PrimeField, IsLawful}
use truth_table.Sign.Config.{Sign, SignConfig, is_strict, needs_zero_check, zero_sensitive_indices}
use truth_table.Sign.Column.{Poly}
use truth_table.Sign.Claims.{IsActive}
use truth_table.Sign.Node.{input_label}
use truth_table.Ir.Passes.{Ir, payload_for_node}
use truth_table.Ir.GadgetPasses.{PayloadStructure}
use truth_table.Join.Constraints.{find_name}
use truth_table.Table.{
  TrackedTable, is_system_column, name_of, size, insert, find_activator, activator_tracked_poly,
  data_tracked_polys_indices, with_activator_entry,
}
use truth_table.Table.Fold.{data_polys}
use truth_table.Gadgets.{payload_input, Constants}
use truth_table.Gadgets.Claims.{Met}
use truth_table.Gadgets.Equality.{left_label, right_label, verify_neq}
use truth_table.Gadgets.Equality.Folded.{row_value, challenges, length-indices_from}
use truth_table.Gadgets.Equality.Differ.{honest_neq_check-verify_neq}
use truth_table.Gadgets.Compare.{first}
use truth_table.Gadgets.Compare.Initialize.{first_data, not_activator_name, not_activator_field}
use truth_table.Gadgets.Strict.Inputs.{set_neq_payload-inputs}
use truth_table.Gadgets.Strict.{strict_cols, strict_table, set_neq_payload, initialize_gadgets}

only_one : (xs : List ℕ) (i : ℕ) → first xs ≡ some i → length xs ≡ 1 → xs ≡ i ∷ []
only_one [] i e len = cc
only_one (x ∷ []) i e len = cc
only_one (x ∷ y ∷ xs) i e len = absurd (omega arith)

module _ {h : Host} {P : Type 0} (eqb : Field h → Field h → Bool)
    (eqb-≡ : (f g : Field h) → eqb f g ≡ true → f ≡ g) where
  -- a table of a column and an activator
  pub entry-data_polys :
      (a : Option P) (f : Field h) (p : P)
      → is_system_column (name_of f) ≡ false
      → data_polys (with_activator_entry eqb a ((f, p) ∷ [])) ≡ p ∷ []
  unfolding insert is_system_column
  entry-data_polys none f p other = rw other refl
  entry-data_polys (some a) f p other = rw (not_activator_field eqb eqb-≡ f other) (rw other refl)

  pub entry-activator :
      (a : Option P) (f : Field h) (p : P)
      → is_system_column (name_of f) ≡ false
      → find_activator (with_activator_entry eqb a ((f, p) ∷ [])) ≡ a
  unfolding insert
  entry-activator none f p other = rw (not_activator_name f other) refl
  entry-activator (some a) f p other =
      rw (not_activator_field eqb eqb-≡ f other) (rw (not_activator_name f other) refl)

abbrev zeros : (k : PrimeField) → Poly k
zeros k row = k.zero_F

is_strict-needs_zero_check :
    (s : Sign) → is_strict s ≡ true → needs_zero_check (SignConfig.uniform s) ≡ true
unfolding needs_zero_check
is_strict-needs_zero_check s strict = strict

is_strict-zero_sensitive_indices :
    (s : Sign) → is_strict s ≡ true → zero_sensitive_indices (SignConfig.uniform s) 1 ≡ 0 ∷ []
unfolding zero_sensitive_indices
is_strict-zero_sensitive_indices s strict = rw strict refl

module _ {h : Host} (k : PrimeField) (eqb : Field h → Field h → Bool) where
  strict_cols-one :
      (polys : List (Field h × Poly k)) (inds : List ℕ) (i : ℕ) (f : Field h) (p : Poly k)
      → inds ≡ i ∷ []
      → get_elem? polys i ≡ some (f, p)
      → strict_cols k eqb polys inds (0 ∷ []) [] [] ≡ some ((f, p) ∷ [], (f, zeros k) ∷ [])
  unfolding strict_cols insert
  strict_cols-one polys inds i f p e found =
      ap (λ xs. strict_cols k eqb polys xs (0 ∷ []) [] []) e ∙ rw (found, strict_cols) refl

module _ {h : Host} {k : PrimeField} (eqb : Field h → Field h → Bool)
    (eqb-≡ : (f g : Field h) → eqb f g ≡ true → f ≡ g) where
  abbrev column : TrackedTable h k → Field h → Poly k → TrackedTable h k
  column t f p = strict_table k eqb t ((f, p) ∷ [])

  -- the payload of the gadget for differing rows, for an input of one data column
  initialized :
      {G : Type 0} (s : Sign) (id neq_id : ℕ) (ir : Ir G (PayloadStructure (TrackedTable h k)))
      (payload : List (String × TrackedTable h k)) (t : TrackedTable h k) (p : Poly k)
      → is_strict s ≡ true
      → payload_for_node ir id ≡ some (PayloadStructure.gadget_payload payload)
      → find_name input_label payload ≡ some t
      → data_polys t.tracked_polys ≡ p ∷ []
      → (f : Field h) × (is_system_column (name_of f) ≡ false)
        × (initialize_gadgets k eqb (SignConfig.uniform s) id neq_id ir
            ≡ ok (set_neq_payload k eqb neq_id ir (column t f p) (column t f (zeros k))))
  unfolding initialize_gadgets data_tracked_polys_indices
  initialized s id neq_id ir payload t p strict here input one =
      let (i, f, at, found, named, other) =
        first_data t.tracked_polys 0 t.tracked_polys p []
          (λ j. let same : 0 + j ≡ j = omega arith in ap (get_elem? t.tracked_polys) same) one in
      let inds = only_one _ i at (length-indices_from 0 t.tracked_polys ∙ ap length one) in
      (
        f,
        other,
        rw
            (
              is_strict-needs_zero_check s strict,
              here,
              input,
              length-indices_from 0 t.tracked_polys ∙ ap length one,
              is_strict-zero_sensitive_indices s strict,
              strict_cols-one k eqb t.tracked_polys _ i f p inds found,
            )
            refl,
      )

module _ {h : Host} {k : PrimeField} (law : IsLawful k) (eqb : Field h → Field h → Bool)
    (eqb-≡ : (f g : Field h) → eqb f g ≡ true → f ≡ g) (constants : Constants k)
    (challenge : ℕ → k.F) where
  -- the two inputs, compared
  columns-differ :
      (payload : Option (PayloadStructure (TrackedTable h k))) (t : TrackedTable h k) (f : Field h)
      (p : Poly k)
      → is_system_column (name_of f) ≡ false
      → payload_input payload left_label ≡ some (column eqb eqb-≡ t f p)
      → payload_input payload right_label ≡ some (column eqb eqb-≡ t f (zeros k))
      → Met (size k t) (verify_neq constants payload challenge)
      → (i : ℕ) → i < size k t
      → IsActive k (activator_tracked_poly k t) i
      → k.into_bigint (p i) ≢ 0
  unfolding size activator_tracked_poly
  columns-differ payload t f p other l_in r_in met i lt active =
      let l = column eqb eqb-≡ t f p in
      let r = column eqb eqb-≡ t f (zeros k) in
      let a = activator_tracked_poly k t in
      let l_polys : data_polys l.tracked_polys ≡ p ∷ [] = entry-data_polys eqb eqb-≡ a f p other in
      let r_polys : data_polys r.tracked_polys ≡ zeros k ∷ [] =
        entry-data_polys eqb eqb-≡ a f (zeros k) other in
      let one : length (data_polys l.tracked_polys) ≡ 1 = ap length l_polys in
      let check =
        honest_neq_check-verify_neq law challenge payload l r l_in r_in (omega (arith, one))
          (one ∙ sym (ap length r_polys)) constants refl in
      let active' : IsActive k (activator_tracked_poly k l) i =
        subst (λ b. IsActive k b i) (sym (entry-activator eqb eqb-≡ a f p other)) active in
      λ e. check.0.0 (check.1 met) i lt active' (
        ap (λ ps. row_value k ps (challenges law challenge l) i) l_polys
        ∙ e
        ∙ sym law.into_bigint-zero
        ∙ sym (ap (λ ps. row_value k ps (challenges law challenge l) i) r_polys))

  -- Over a lawful field, with a field equality that is right when it says yes: let a sign gadget that is
  -- for one strict sign have an input of one data column, let its initialization succeed, and let the
  -- verifier of the gadget for differing rows, on the payload it has then, succeed with claims that hold.
  -- Then the column is not zero at any row that the activator keeps.
  pub initialize_gadgets-≢ :
      {G : Type 0} (s : Sign) (id neq_id : ℕ) (ir ir' : Ir G (PayloadStructure (TrackedTable h k)))
      (payload : List (String × TrackedTable h k)) (t : TrackedTable h k) (p : Poly k)
      → is_strict s ≡ true
      → payload_for_node ir id ≡ some (PayloadStructure.gadget_payload payload)
      → find_name input_label payload ≡ some t
      → data_polys t.tracked_polys ≡ p ∷ []
      → initialize_gadgets k eqb (SignConfig.uniform s) id neq_id ir ≡ ok ir'
      → Met (size k t) (verify_neq constants (payload_for_node ir' neq_id) challenge)
      → (i : ℕ) → i < size k t
      → IsActive k (activator_tracked_poly k t) i
      → k.into_bigint (p i) ≢ 0
  unfolding payload_input
  initialize_gadgets-≢ s id neq_id ir ir' payload t p strict here input one init met i lt active =
      let (f, other, done) =
        initialized eqb eqb-≡ s id neq_id ir payload t p strict here input one in
      let l = column eqb eqb-≡ t f p in
      let r = column eqb eqb-≡ t f (zeros k) in
      let same_ir : set_neq_payload k eqb neq_id ir l r ≡ ir' = cc (init, done) in
      let inputs = set_neq_payload-inputs eqb neq_id ir l r (payload_for_node ir' neq_id) (
        ap (λ (x : Ir _ (PayloadStructure (TrackedTable h k))). payload_for_node x neq_id)
          (sym same_ir)) in
      columns-differ (payload_for_node ir' neq_id) t f p other inputs.0 inputs.1 met i lt active
