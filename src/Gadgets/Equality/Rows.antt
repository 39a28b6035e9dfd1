-- ===== src/Gadgets/Equality/Rows.antt =====
-- What the claim of the gadget for equal rows says of the rows
-- (crates/tt-core/src/irs/nodes/utils/eq/mod.rs).
use truth_table.Common.{
  ℕ, ◌<◌, ◌≡◌, ◌↔◌, refl, sym, ◌∙◌, Option, none, some, length, arith, inl, inr,
}
use truth_table.Datafusion.Host.{Host}
use truth_table.Field.{PrimeField, IsLawful}
use truth_table.Field.Arithmetic.{into_bigint-mul_one, into_bigint-eq_of_sub, into_bigint-sub_self}
use truth_table.Sign.Column.{Poly, activate}
use truth_table.Sign.Claims.{IsActive}
use truth_table.Ir.GadgetPasses.{PayloadStructure}
use truth_table.Table.{TrackedTable, FoldedCol, size, activator_tracked_poly}
use truth_table.Table.Fold.{data_polys}
use truth_table.Gadgets.{payload_input}
use truth_table.Gadgets.Claims.{Met}
use truth_table.Gadgets.Boolean.Value.{IsBooleanAt, product_zero, zero_F_iff}
use truth_table.Gadgets.Equality.{left_label, right_label, difference, verify_eq}
use truth_table.Gadgets.Equality.Folded.{row_value, challenges, fold_value}

module _ {k : PrimeField} (law : IsLawful k) where
  -- a product with an activator that is zero or one
  activate-zero_iff :
      (a : Option (Poly k)) (p : Poly k) (i : ℕ)
      → IsBooleanAt k a i
      → (activate k a p i ≡ k.zero_F) ↔ (IsActive k a i → k.into_bigint (p i) ≡ 0)
  activate-zero_iff none p i b =
      (λ e active. (zero_F_iff law (p i)).0 e, λ all. (zero_F_iff law (p i)).1 (all tt))
  activate-zero_iff (some a) p i (inl zero_here) = (
    λ e active. sym (into_bigint-mul_one law (p i) (a i) active) ∙ (zero_F_iff law _).0 e,
    λ all. (zero_F_iff law _).1 (product_zero law (p i) (a i) ((zero_F_iff law (a i)).0 zero_here)),
  )
  activate-zero_iff (some a) p i (inr one_here) = (
    λ e active. sym (into_bigint-mul_one law (p i) (a i) active) ∙ (zero_F_iff law _).0 e,
    λ all. (zero_F_iff law _).1 (into_bigint-mul_one law (p i) (a i) one_here ∙ all one_here),
  )

  pub difference_iff :
      (l r : FoldedCol k) (i : ℕ)
      → (k.into_bigint (difference k l r i) ≡ 0)
        ↔ (k.into_bigint (l.data_poly i) ≡ k.into_bigint (r.data_poly i))
  difference_iff l r i = (
    into_bigint-eq_of_sub law (l.data_poly i) (r.data_poly i),
    into_bigint-sub_self law (l.data_poly i) (r.data_poly i),
  )

module _ {h : Host} {k : PrimeField} (law : IsLawful k) (challenge : ℕ → k.F) where
  -- the rows of the data columns of a table, folded with the challenges of the left one
  abbrev pub row_of : TrackedTable h k → TrackedTable h k → ℕ → ℕ
  row_of left t = row_value k (data_polys t.tracked_polys) (challenges law challenge left)

  -- Over a lawful field, for two inputs with as many data columns, one at least, and an activator of the
  -- left one that is zero or one at every row: the verifier of the gadget for equal rows succeeds with
  -- claims that hold exactly when at every row that the activator keeps, the data columns of both inputs
  -- have the same sum, weighted with the challenges.
  pub verify_eq-row_of :
      (payload : Option (PayloadStructure (TrackedTable h k))) (left right : TrackedTable h k)
      → payload_input payload left_label ≡ some left
      → payload_input payload right_label ≡ some right
      → 0 < length (data_polys left.tracked_polys)
      → length (data_polys left.tracked_polys) ≡ length (data_polys right.tracked_polys)
      → ((i : ℕ) → i < size k left → IsBooleanAt k (activator_tracked_poly k left) i)
      → Met (size k left) (verify_eq payload challenge) ↔ (
          (i : ℕ)
          → i < size k left
          → IsActive k (activator_tracked_poly k left) i
          → row_of left left i ≡ row_of left right i)
  unfolding verify_eq
  verify_eq-row_of payload left right l_in r_in pos same_len activator =
      let (l, l_fold, l_act, l_value) = fold_value law challenge left left pos refl in
      let (r, r_fold, r_act, r_value) =
        fold_value law challenge left right (omega (arith, same_len)) same_len in
      rw (l_in, r_in, l_fold, r_fold)
        (
          λ met i lt active.
              sym (l_value i)
              ∙ (difference_iff law l r i).0 (
                  (activate-zero_iff law (activator_tracked_poly k left) (difference k l r) i
                      (activator i lt)).0
                    (met.0 i lt) active)
              ∙ r_value i,
          λ all. (
            λ i lt.
                (activate-zero_iff law (activator_tracked_poly k left) (difference k l r) i
                    (activator i lt)).1
                  (λ active.
                    (difference_iff law l r i).1 (l_value i ∙ all i lt active ∙ sym (r_value i))),
            tt,
          ),
        )
