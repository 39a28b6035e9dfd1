-- ===== src/Gadgets/BinCmp/Narrow.antt =====
-- Differences that the merged type of two operands has no room for
-- (crates/tt-core/src/irs/nodes/plan/exprs/binary_expr/gadget/bin_cmp/mod.rs, utils/sign/mod.rs).
use native.Mathlib.Nat.{mod-eq_of_lt}
use truth_table.Common.{
  ℕ, suc, ◌+◌, ◌-◌, ◌%◌, ◌^◌, ◌≤◌, ◌<◌, ◌≡◌, refl, ap, ◌∙◌, List, [], ◌∷◌, some, Bool, true, ok,
  arith,
}
use truth_table.Common.Int.{pos, negsuc}
use truth_table.Datafusion.Host.{Host}
use truth_table.Datafusion.Arrow.{DataType, Field}
use truth_table.Field.{PrimeField, IsLawful, sub_F}
use truth_table.Sign.Config.{sign_for_index}
use truth_table.Sign.Column.{Poly, Claim}
use truth_table.Sign.Claims.{AllHold, range_size}
use truth_table.Sign.Protocol.{verify, signed_col}
use truth_table.Sign.Protocol.Gadget.{verify-lt}
use truth_table.Table.{data_type_of}
use truth_table.Gadgets.Operands.{merged_sign_field, merged_sign_data_type}
use truth_table.Gadgets.Compare.Order.{into_bigint-sub}
use truth_table.Gadgets.Compare.Initialize.{col}
use truth_table.Gadgets.BinCmp.{BinCmpOp, sign_pair, sign_configs}

module _ {k : PrimeField} (law : IsLawful k) where
  -- a number minus a negative one
  into_bigint-sub_negative :
      (a b : ℕ)
      → a + suc b < k.modulus
      → k.into_bigint (sub_F k (k.from_signed (pos a)) (k.from_signed (negsuc b))) ≡ a + suc b
  into_bigint-sub_negative a b room =
      let p = k.modulus in
      let x : k.into_bigint (k.from_signed (pos a)) ≡ a =
        ap k.into_bigint (law.from_signed-pos a)
        ∙ law.into_bigint-from a
        ∙ mod-eq_of_lt (omega arith) in
      let small : suc b % p ≡ suc b = mod-eq_of_lt (omega arith) in
      let y : k.into_bigint (k.from_signed (negsuc b)) ≡ p - suc b =
        ap k.into_bigint (law.from_signed-negsuc b)
        ∙ law.into_bigint-neg (k.from (suc b))
        ∙ ap (λ t. (p - t) % p) (law.into_bigint-from (suc b) ∙ small)
        ∙ mod-eq_of_lt (omega arith) in
      let back : p - (p - suc b) ≡ suc b = omega arith in
      into_bigint-sub law (k.from_signed (pos a)) (k.from_signed (negsuc b))
      ∙ ap (λ t. (t + (p - k.into_bigint (k.from_signed (negsuc b))) % p) % p) x
      ∙ ap (λ t. (a + (p - t) % p) % p) y
      ∙ ap (λ t. (a + t % p) % p) back
      ∙ ap (λ t. (a + t) % p) small
      ∙ mod-eq_of_lt room

-- Two columns of type `Int8` are compared in `Int8`, which only has room for differences below 128. Over a
-- lawful field with room for the sum: where the output of `>=` is one and the left value is a number and
-- the right one negative, 128 or more below it, so that the comparison holds, the claims that the verifier
-- of the true branch makes cannot hold.
pub verify-too_far :
    {h : Host} {k : PrimeField} (same_type : DataType h → DataType h → Bool) (rows : ℕ)
    (l r out : Poly k) (lf rf : Field h) (coms : List (Poly k)) {claims : List (Claim k)}
    {rest : List (Poly k)}
    → IsLawful k
    → same_type DataType.int8 DataType.int8 ≡ true
    → data_type_of lf ≡ DataType.int8
    → data_type_of rf ≡ DataType.int8
    → verify
        (sign_configs BinCmpOp.geq).0
        (col (λ i. sub_F k (l i) (r i)) (some out) (merged_sign_field same_type lf rf) ∷ [])
        coms
      ≡ ok (claims, rest)
    → (i a b : ℕ) → i < rows
    → out i ≡ k.one_F
    → l i ≡ k.from_signed (pos a)
    → r i ≡ k.from_signed (negsuc b)
    → a + suc b < k.modulus
    → 2 ^ 7 ≤ a + suc b
    → ¬ AllHold rows claims
unfolding sign_configs sign_pair sign_for_index signed_col merged_sign_field merged_sign_data_type
    range_size
verify-too_far {h} {k} same_type rows l r out lf rf coms law same lt rt done i a b below active le
      re room far =
    λ holds.
      let merged : data_type_of (merged_sign_field same_type lf rf) ≡ DataType.int8 =
        rw (lt, rt, same) refl in
      let less =
        verify-lt law rows (sign_configs BinCmpOp.geq).0
          (col (λ i. sub_F k (l i) (r i)) (some out) (merged_sign_field same_type lf rf) ∷ []) coms
          done holds 0 refl refl i below active in
      let range : range_size (merged_sign_data_type same_type (data_type_of lf) (data_type_of rf))
          ≡ 2 ^ 7 =
        ap range_size merged in
      let value : k.into_bigint (sub_F k (l i) (r i)) ≡ a + suc b =
        ap (λ x. k.into_bigint (sub_F k x (r i))) le
        ∙ ap (λ x. k.into_bigint (sub_F k (k.from_signed (pos a)) x)) re
        ∙ into_bigint-sub_negative law a b room in
      omega (arith, less, range, value, far)
