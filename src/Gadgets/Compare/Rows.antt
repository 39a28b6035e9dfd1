-- ===== src/Gadgets/Compare/Rows.antt =====
-- The order that the claims of the sign gadget show, on the table that the gadgets for `<=` and `>=`
-- leave it (crates/tt-core/src/irs/nodes/utils/leq/mod.rs, geq/mod.rs, sign/mod.rs).
use truth_table.Common.{
  ℕ, ◌+◌, ◌^◌, ◌≤◌, ◌<◌, ◌≡◌, refl, sym, ap, ◌∙◌, List, [], ◌∷◌, Option, some, Bool, true, String,
  ok,
}
use truth_table.Common.Int.{ℤ}
use truth_table.Datafusion.Host.{Host}
use truth_table.Datafusion.Arrow.{Field}
use truth_table.Field.{PrimeField, IsLawful, sub_F}
use truth_table.Sign.Config.{sign_for_index}
use truth_table.Sign.Column.{Poly, TrackedCol, Claim, negated_col}
use truth_table.Sign.Claims.{AllHold, IsActive, range_size}
use truth_table.Sign.Protocol.{verify, signed_col}
use truth_table.Sign.Protocol.Gadget.{verify-lt}
use truth_table.Sign.Node.{input_label}
use truth_table.Ir.Passes.{Ir, payload_for_node}
use truth_table.Ir.GadgetPasses.{PayloadStructure}
use truth_table.Join.Constraints.{find_name}
use truth_table.Table.{TrackedTable, data_type_of, activator_tracked_poly}
use truth_table.Table.Fold.{data_polys}
use truth_table.Gadgets.{payload_input}
use truth_table.Gadgets.Equality.{left_label, right_label}
use truth_table.Gadgets.Compare.{Comparison, new, data_field, data_cols, initialize_gadgets}
use truth_table.Gadgets.Compare.Order.{LeZ, Fits, LeZ-of_sub, into_bigint-negated_sub}
use truth_table.Gadgets.Compare.Initialize.{col, initialize_gadgets-data_cols}

abbrev pub Ordered : Comparison → ℤ → ℤ → Type 0
Ordered Comparison.leq a b = LeZ a b
Ordered Comparison.geq a b = LeZ b a

some-injective : {A : Type 0} {a b : A} → some a ≡ some b → a ≡ b
some-injective e = cc

module _ {h : Host} {k : PrimeField} (law : IsLawful k) (rows : ℕ) where
  -- at one row of the difference of two columns
  verify-Ordered :
      (cmp : Comparison) (l r : Poly k) (activator : Option (Poly k)) (f : Field h)
      (coms : List (Poly k)) {claims : List (Claim k)} {rest : List (Poly k)}
      → verify (new cmp) (col (λ i. sub_F k (l i) (r i)) activator f ∷ []) coms ≡ ok (claims, rest)
      → AllHold rows claims
      → (i : ℕ) → i < rows
      → IsActive k activator i
      → (w : ℕ) (a b : ℤ) → 2 ^ w + 2 ^ w + range_size (data_type_of f) ≤ k.modulus
      → Fits w a
      → Fits w b
      → l i ≡ k.from_signed a
      → r i ≡ k.from_signed b
      → Ordered cmp a b
  unfolding new sign_for_index signed_col negated_col
  verify-Ordered Comparison.leq l r activator f coms done holds i lt active w a b room fa fb le re =
      let small =
        verify-lt law rows (new Comparison.leq) (col (λ i. sub_F k (l i) (r i)) activator f ∷ [])
          coms done holds 0 refl refl i lt active in
      LeZ-of_sub law w (range_size (data_type_of f)) a b room fa fb
        (rw (← le, ← re, ← into_bigint-negated_sub law (l i) (r i)) small)
  verify-Ordered Comparison.geq l r activator f coms done holds i lt active w a b room fa fb le re =
      let small =
        verify-lt law rows (new Comparison.geq) (col (λ i. sub_F k (l i) (r i)) activator f ∷ [])
          coms done holds 0 refl refl i lt active in
      LeZ-of_sub law w (range_size (data_type_of f)) b a room fb fa (rw (← le, ← re) small)

  module _ (eqb : Field h → Field h → Bool) (eqb-≡ : (f g : Field h) → eqb f g ≡ true → f ≡ g) where
    -- Over a lawful field, with an equality of fields that is right when it says yes: let a gadget for
    -- `<=` or `>=` have two inputs with a data column each, let its initialization succeed, and let the
    -- verifier of its sign gadget, on the columns of the table that it finds in its payload then, succeed
    -- with claims that hold on the rows. Then at every row that the left activator keeps, if the values
    -- of the first data columns are the encodings of two integers of at most `w` bits and a sign, and
    -- the field has room for them and for the range of the column's type, the integers are in the order
    -- that the gadget is for.
    pub initialize_gadgets-Ordered :
        {G : Type 0} (cmp : Comparison) (id sign_id : ℕ)
        (ir ir' : Ir G (PayloadStructure (TrackedTable h k)))
        (payload : List (String × TrackedTable h k)) (left right t : TrackedTable h k)
        (l r : Poly k) (ls rs : List (Poly k)) (f : Field h) (cols : List (TrackedCol h k))
        (coms : List (Poly k)) {claims : List (Claim k)} {rest : List (Poly k)}
        → payload_for_node ir id ≡ some (PayloadStructure.gadget_payload payload)
        → find_name left_label payload ≡ some left
        → find_name right_label payload ≡ some right
        → data_polys left.tracked_polys ≡ l ∷ ls
        → data_polys right.tracked_polys ≡ r ∷ rs
        → data_field left.tracked_polys ≡ some f
        → initialize_gadgets eqb id sign_id ir ≡ ok ir'
        → payload_input (payload_for_node ir' sign_id) input_label ≡ some t
        → data_cols t ≡ some cols
        → verify (new cmp) cols coms ≡ ok (claims, rest)
        → AllHold rows claims
        → (i : ℕ) → i < rows
        → IsActive k (activator_tracked_poly k left) i
        → (w : ℕ) (a b : ℤ) → 2 ^ w + 2 ^ w + range_size (data_type_of f) ≤ k.modulus
        → Fits w a
        → Fits w b
        → l i ≡ k.from_signed a
        → r i ≡ k.from_signed b
        → Ordered cmp a b
    initialize_gadgets-Ordered cmp id sign_id ir ir' payload left right t l r ls rs f cols coms here
          l_in r_in l_e r_e f_e init input col_e done holds i lt active w a b room fa fb le re =
        let (made, table, g, init', input', cols', g_e) =
          initialize_gadgets-data_cols eqb eqb-≡ id sign_id ir payload left right l r ls rs here
            l_in r_in l_e r_e in
        let same_field : g ≡ f = some-injective (sym g_e ∙ f_e) in
        let same_ir : made ≡ ir' = cc (init, init') in
        let same_table : table ≡ t = some-injective (
          sym input'
          ∙ ap
              (λ (x : Ir _ (PayloadStructure (TrackedTable h k))).
                payload_input (payload_for_node x sign_id) input_label)
              same_ir
          ∙ input) in
        let same_cols : col (λ i. sub_F k (l i) (r i)) (activator_tracked_poly k left) f ∷ []
            ≡ cols =
          some-injective (
            ap
              (λ (x : Field h).
                some (col (λ i. sub_F k (l i) (r i)) (activator_tracked_poly k left) x ∷ []))
              (sym same_field)
            ∙ sym cols'
            ∙ ap (λ (x : TrackedTable h k). data_cols x) same_table
            ∙ col_e) in
        verify-Ordered cmp l r (activator_tracked_poly k left) f coms
          (ap (λ (x : List (TrackedCol h k)). verify (new cmp) x coms) same_cols ∙ done) holds i lt
          active w a b room fa fb le re
