-- ===== src/Gadgets/BinCmp/Inactive.antt =====
-- The output of a comparison at the rows that are not active
-- (crates/tt-core/src/irs/nodes/plan/exprs/binary_expr/gadget/bin_cmp/mod.rs).
use native.Mathlib.Nat.{mod-eq_of_lt, mul_comm}
use truth_table.Common.{ℕ, ◌+◌, ◌-◌, ◌%◌, ◌<◌, ◌≡◌, sym, ap, ◌∙◌, List, ◌∷◌, some, String, arith}
use truth_table.Datafusion.Host.{Host}
use truth_table.Field.{PrimeField, IsLawful, sub_F}
use truth_table.Field.Arithmetic.{into_bigint-injective, into_bigint-mul_neg_one, eq_of_difference}
use truth_table.Sign.Column.{Poly}
use truth_table.Ir.GadgetPasses.{PayloadStructure}
use truth_table.Join.Constraints.{find_name}
use truth_table.Table.{TrackedTable, activator_tracked_poly}
use truth_table.Table.Fold.{data_polys}
use truth_table.Gadgets.Claims.{Met}
use truth_table.Gadgets.Compare.Initialize.{first_col}
use truth_table.Gadgets.BinCmp.{left_input_label, right_input_label, output_label, verify}

module _ {k : PrimeField} (law : IsLawful k) where
  minus_one : (a : k.F) → a ≡ k.zero_F → sub_F k a k.one_F ≡ k.neg k.one_F
  minus_one a e =
      let z : k.into_bigint a ≡ 0 = ap k.into_bigint e ∙ law.into_bigint-zero in
      let plain : 0 + k.into_bigint (k.neg k.one_F) ≡ k.into_bigint (k.neg k.one_F) = omega arith in
      into_bigint-injective law _ _ (
        law.into_bigint-add a (k.neg k.one_F)
        ∙ ap (λ t. (t + k.into_bigint (k.neg k.one_F)) % k.modulus) z
        ∙ ap (λ t. t % k.modulus) plain
        ∙ mod-eq_of_lt (law.into_bigint-lt (k.neg k.one_F)))

  mul_comm_F : (x y : k.F) → k.into_bigint (k.mul x y) ≡ k.into_bigint (k.mul y x)
  mul_comm_F x y =
      law.into_bigint-mul x y
      ∙ ap (λ t. t % k.modulus) (mul_comm (k.into_bigint x) (k.into_bigint y))
      ∙ sym (law.into_bigint-mul y x)

  only_zero : (a o : k.F) → a ≡ k.zero_F → k.mul (sub_F k a k.one_F) o ≡ k.zero_F → o ≡ k.zero_F
  only_zero a o e claim =
      let negated : (k.modulus - k.into_bigint o) % k.modulus ≡ 0 =
        sym (into_bigint-mul_neg_one law o)
        ∙ mul_comm_F o (k.neg k.one_F)
        ∙ ap (λ x. k.into_bigint (k.mul x o)) (sym (minus_one a e))
        ∙ ap k.into_bigint claim
        ∙ law.into_bigint-zero in
      let plain : 0 + (k.modulus - k.into_bigint o) % k.modulus ≡ 0 = omega (arith, negated) in
      into_bigint-injective law o k.zero_F (
        sym (
          eq_of_difference 0 (k.into_bigint o) k.modulus (omega (arith, law.one-lt-modulus))
            (law.into_bigint-lt o)
            (ap (λ t. t % k.modulus) plain ∙ mod-eq_of_lt (omega (arith, law.one-lt-modulus))))
        ∙ sym law.into_bigint-zero)

-- Over a lawful field: if the verifier of a comparison, whose left input has an activator, succeeds with a
-- claim that holds, the output is zero at every row at which the activator is.
pub verify-inactive :
    {h : Host} {k : PrimeField} (rows : ℕ) (payload : List (String × TrackedTable h k))
    (left right output : TrackedTable h k) (a out : Poly k) (outs : List (Poly k))
    → IsLawful k
    → find_name left_input_label payload ≡ some left
    → find_name right_input_label payload ≡ some right
    → find_name output_label payload ≡ some output
    → activator_tracked_poly k left ≡ some a
    → data_polys output.tracked_polys ≡ out ∷ outs
    → Met rows (verify (some (PayloadStructure.gadget_payload payload)))
    → (i : ℕ) → i < rows
    → a i ≡ k.zero_F
    → out i ≡ k.zero_F
unfolding verify
verify-inactive rows payload left right output a out outs law l_in r_in out_in act out_e met i lt
      e =
    let (f, out_col, named, other) = first_col output out outs out_e in
    let holds = rw (l_in, r_in, out_in, out_col, act) at (met) in
    only_zero law (a i) (out i) e (holds.0 i lt)
