-- ===== src/Gadgets/Boolean/Rows.antt =====
-- When the claims of the Boolean gadget hold, and when the honest prover's check passes
-- (crates/tt-core/src/irs/nodes/utils/bool/mod.rs).
use truth_table.Common.{
  ℕ, ◌+◌, ◌≤◌, ◌<◌, ◌≡◌, ◌↔◌, refl, sym, ◌∙◌, List, [], ◌∷◌, ◌++◌, Option, none, some, Bool, true,
  false, not, ◌||◌, Result, ok, ◌>>=◌, get_elem?, if◌then◌else◌, arith, Bool-cases, inl, inr,
}
use truth_table.Datafusion.Host.{Host}
use truth_table.Datafusion.Arrow.{Field}
use truth_table.Field.{PrimeField, IsLawful, is_zero}
use truth_table.Field.Arithmetic.{HasNoZeroDivisors}
use truth_table.Sign.Column.{Poly, TrackedCol, Claim}
use truth_table.Ir.GadgetPasses.{PayloadStructure}
use truth_table.Table.{
  TrackedTable, size, activator_tracked_poly, data_tracked_polys_indices, tracked_col_by_ind,
  col_of, data_type_of,
}
use truth_table.Gadgets.{GadgetError, payload_input, or_panic, Constants}
use truth_table.Gadgets.Claims.{
  Met, Met-append, then_ok_iff, is_zero_iff, size_pos, true_ne_false, loop_iff,
}
use truth_table.Gadgets.Boolean.Value.{IsBooleanAt, check_poly_iff}
use truth_table.Gadgets.Boolean.{
  table_label, check_poly, is_checked, is_boolean, check_rows, check_cols, honest_prover_check,
  claim_unless_constant, claim_cols, verify,
}

passing :
    {A : Type 0} (a b : Bool) (x y : A)
    → (not a || b) ≡ true
    → (if not a then x else if b then x else y) ≡ x
passing true true x y e = refl
passing true false x y e = cc
passing false b x y e = refl

failing :
    {A : Type 0} (a b : Bool) (x y : A)
    → (not a || b) ≡ false
    → (if not a then x else if b then x else y) ≡ y
failing true true x y e = cc
failing true false x y e = refl
failing false b x y e = cc

module _ {h : Host} {k : PrimeField} where
  abbrev row_passes : TrackedCol h k → ℕ → Bool
  row_passes c i = not (is_checked k c.activator i) || is_boolean k (c.data_poly i)

  check_rows_iff :
      (c : TrackedCol h k) (i n : ℕ)
      → (check_rows c i n ≡ ok tt) ↔ ((j : ℕ) → i ≤ j → j < i + n → row_passes c j ≡ true)
  unfolding check_rows
  check_rows_iff c =
      loop_iff (check_rows c) (row_passes c) (λ i. refl)
        (λ i n. passing (is_checked k c.activator i) (is_boolean k (c.data_poly i)) _ _)
        (λ i n. failing (is_checked k c.activator i) (is_boolean k (c.data_poly i)) _ _)

module _ {k : PrimeField} (law : IsLawful k) (n : ℕ) (pos : 0 < n) where
  -- a claim that is made, or a constant that is checked at once
  claim_unless_constant_iff :
      (error : GadgetError) (p : Poly k) (o : Option k.F)
      → ((c : k.F) → o ≡ some c → (i : ℕ) → p i ≡ c)
      → Met n (claim_unless_constant k error p o) ↔ ((i : ℕ) → i < n → p i ≡ k.zero_F)
  claim_unless_constant_iff error p none value = (λ met. met.0, λ all. (all, tt))
  claim_unless_constant_iff error p (some c) value = elim (Bool-cases (is_zero k c)) [
    | inl z ↦ (λ met i lt. value c refl i ∙ (is_zero_iff law c).0 z, λ all. rw z tt)
    | inr nonzero ↦ (
      λ met. absurd (rw nonzero at (met)),
      λ all. absurd (
          true_ne_false (sym ((is_zero_iff law c).1 (sym (value c refl 0) ∙ all 0 pos)) ∙ nonzero)),
    )
  ]

  module _ {h : Host} (domain : HasNoZeroDivisors k) (constants : Constants k)
      (error : GadgetError) where
    -- the claim of a column, and the check of its rows
    claim_iff :
        (c : TrackedCol h k)
        → ((i : ℕ) → i < n → IsBooleanAt k c.activator i)
        → Met n
            (claim_unless_constant k error (check_poly c) (constants.as_constant (check_poly c)))
          ↔ (check_rows c 0 n ≡ ok tt)
    claim_iff c activator =
        let claim =
          claim_unless_constant_iff error (check_poly c) (constants.as_constant (check_poly c))
            (constants.constant_value (check_poly c)) in
        let rows = check_rows_iff c 0 n in
        (
          λ met. rows.1 (λ j le lt.
              (check_poly_iff law domain c j (activator j (omega arith))).0
                (claim.0 met j (omega arith))),
          λ e. claim.1 (λ i lt.
              (check_poly_iff law domain c i (activator i lt)).1
                (rows.0 e i (omega arith) (omega arith))),
        )

    -- a column of a table, if there is one at the index
    col_iff :
        (a : Option (Poly k)) (o : Option (Field h × Poly k))
        (others : Result GadgetError (List (Claim k))) (rest : Result GadgetError (Unit {0}))
        → ((i : ℕ) → i < n → IsBooleanAt k a i)
        → Met n others ↔ (rest ≡ ok tt)
        → Met n (
            or_panic (col_of k a o) λ c.
              claim_unless_constant k error (check_poly c) (constants.as_constant (check_poly c))
              >>= λ first. others >>= λ more. ok (first ++ more))
          ↔ (or_panic (col_of k a o) (λ c. check_rows c 0 n >>= λ _. rest) ≡ ok tt)
    col_iff a none others rest activator ih = (λ met. absurd met, λ e. cc)
    col_iff a (some (f, p)) others rest activator ih =
        let c : TrackedCol h k = record {
          data_poly = p;
          activator = a;
          data_type = data_type_of f;
        } in
        let claims =
          Met-append n
            (claim_unless_constant k error (check_poly c) (constants.as_constant (check_poly c)))
            others in
        let checks = then_ok_iff (check_rows c 0 n) rest in
        let here = claim_iff c activator in
        (
          λ met. let (first, more) = claims.0 met in checks.1 (here.0 first, ih.0 more),
          λ e. let (first, more) = checks.0 e in claims.1 (here.1 first, ih.1 more),
        )

module _ {h : Host} {k : PrimeField} (law : IsLawful k) (domain : HasNoZeroDivisors k)
    (constants : Constants k) (t : TrackedTable h k)
    (activator : (i : ℕ) → i < size k t → IsBooleanAt k (activator_tracked_poly k t) i) where
  claim_cols_iff :
      (error : GadgetError) (idxs : List ℕ)
      → Met (size k t) (claim_cols constants error t idxs) ↔ (check_cols t idxs ≡ ok tt)
  unfolding claim_cols check_cols tracked_col_by_ind
  claim_cols_iff error [] = (λ met. refl, λ e. tt)
  claim_cols_iff error (idx ∷ idxs) =
      col_iff law (size k t) (size_pos t) domain constants error (activator_tracked_poly k t)
        (get_elem? t.tracked_polys idx) (claim_cols constants error t idxs) (check_cols t idxs)
        activator (claim_cols_iff error idxs)

-- Over a lawful field without zero divisors, for a table whose activator is zero or one at every row:
-- the verifier of the gadget succeeds with claims that hold on all rows exactly when the honest
-- prover's check passes.
pub verify-honest_prover_check :
    {h : Host} {k : PrimeField} (constants : Constants k)
    (payload : Option (PayloadStructure (TrackedTable h k))) (t : TrackedTable h k)
    → IsLawful k
    → HasNoZeroDivisors k
    → payload_input payload table_label ≡ some t
    → ((i : ℕ) → i < size k t → IsBooleanAt k (activator_tracked_poly k t) i)
    → Met (size k t) (verify constants payload) ↔ (honest_prover_check payload ≡ ok tt)
unfolding verify honest_prover_check
verify-honest_prover_check constants payload t law domain input activator = rw input (
    claim_cols_iff law domain constants t activator GadgetError.check_failed
      (data_tracked_polys_indices _ t))
