-- ===== src/Gadgets/Boolean.antt =====
-- The gadget that shows columns to be Boolean (crates/tt-core/src/irs/nodes/utils/bool/mod.rs).
pub mod Value
pub mod Rows
use truth_table.Common.{
  ℕ, zero, suc, ◌+◌, List, [], ◌∷◌, ◌++◌, Option, none, some, Bool, true, false, not, ◌&&◌, ◌||◌,
  String, Result, ok, err, ◌>>=◌, if◌then◌else◌,
}
use truth_table.Datafusion.Host.{Host}
use truth_table.Field.{PrimeField, eqb_F, is_zero}
use truth_table.Sign.Column.{Poly, TrackedCol, Claim, activate}
use truth_table.Ir.GadgetPasses.{PayloadStructure}
use truth_table.Table.{TrackedTable, size, data_tracked_polys_indices, tracked_col_by_ind}
use truth_table.Gadgets.{GadgetError, payload_input, or_panic, Constants}

abbrev pub table_label : String
table_label = "__table__"

module _ (k : PrimeField) where
  -- whether a row is checked
  abbrev pub is_checked : Option (Poly k) → ℕ → Bool
  is_checked none i = true
  is_checked (some a) i = eqb_F k (a i) k.one_F

  abbrev pub is_boolean : k.F → Bool
  is_boolean value = is_zero k value || eqb_F k value k.one_F

  -- a constant is checked at once; `error` is what is returned where it is not zero
  abbrev pub claim_unless_constant :
      GadgetError → Poly k → Option k.F → Result GadgetError (List (Claim k))
  claim_unless_constant error p none = ok (Claim.zerocheck p ∷ [])
  claim_unless_constant error p (some c) = if is_zero k c then ok [] else err error

module _ {h : Host} {k : PrimeField} where
  -- `predicate * (1 - predicate)`, times the activator if there is one
  unfoldable pub check_poly : TrackedCol h k → Poly k
  check_poly c =
      activate k c.activator
        (λ i. k.mul (c.data_poly i) (k.add (k.mul (c.data_poly i) (k.neg k.one_F)) k.one_F))

  -- the loop over the rows from `i` on, of which `n` are left
  unfoldable pub check_rows : TrackedCol h k → ℕ → ℕ → Result GadgetError (Unit {0})
  check_rows c i zero = ok tt
  check_rows c i (suc n) =
      let rest = check_rows c (i + 1) n in
      if not (is_checked k c.activator i)
      then rest
      else if is_boolean k (c.data_poly i)
      then rest
      else err GadgetError.false_claim

  unfoldable pub check_cols : TrackedTable h k → List ℕ → Result GadgetError (Unit {0})
  unfolding check_rows
  check_cols t [] = ok tt
  check_cols t (idx ∷ idxs) =
      let rest = check_cols t idxs in
      or_panic (tracked_col_by_ind k t idx) λ c. check_rows c 0 (size k t) >>= λ _. rest

  abbrev pub check_input : Option (TrackedTable h k) → Result GadgetError (Unit {0})
  check_input none = ok tt
  check_input (some t) = check_cols t (data_tracked_polys_indices k t)

  unfoldable pub honest_prover_check :
      Option (PayloadStructure (TrackedTable h k)) → Result GadgetError (Unit {0})
  unfolding check_cols
  honest_prover_check payload = check_input (payload_input payload table_label)

  module _ (constants : Constants k) where
    -- the loop of `prove`, and of `verify`, which differ in their error
    unfoldable pub claim_cols :
        GadgetError → TrackedTable h k → List ℕ → Result GadgetError (List (Claim k))
    unfolding check_poly
    claim_cols error t [] = ok []
    claim_cols error t (idx ∷ idxs) =
        let rest = claim_cols error t idxs in
        or_panic (tracked_col_by_ind k t idx) λ c.
          claim_unless_constant k error (check_poly c) (constants.as_constant (check_poly c))
          >>= λ first. rest >>= λ others. ok (first ++ others)

    unfoldable pub prove :
        Option (PayloadStructure (TrackedTable h k)) → Result GadgetError (List (Claim k))
    unfolding claim_cols
    prove payload =
        or_panic (payload_input payload table_label)
          λ t. claim_cols GadgetError.false_claim t (data_tracked_polys_indices k t)

    unfoldable pub verify :
        Option (PayloadStructure (TrackedTable h k)) → Result GadgetError (List (Claim k))
    unfolding claim_cols
    verify payload =
        or_panic (payload_input payload table_label)
          λ t. claim_cols GadgetError.check_failed t (data_tracked_polys_indices k t)
