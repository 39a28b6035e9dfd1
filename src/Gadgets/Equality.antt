-- ===== src/Gadgets/Equality.antt =====
-- The gadgets that show rows of two tables to be equal, and to differ
-- (crates/tt-core/src/irs/nodes/utils/eq/mod.rs, neq/mod.rs). `prove` and `verify` of each read the same
-- challenges from the transcript and make the same claims, so that one definition stands for both. The
-- challenges are a function of their position.
pub mod Folded
pub mod Rows
pub mod Differ
use truth_table.Common.{
  ℕ, zero, suc, ◌+◌, List, [], ◌∷◌, Option, none, some, Bool, true, false, not, ◌&&◌, ◌||◌, String,
  Result, ok, err, length, if◌then◌else◌, leb,
}
use truth_table.Datafusion.Host.{Host}
use truth_table.Field.{PrimeField, eqb_F, is_zero, sub_F}
use truth_table.Sign.Column.{Poly, Claim, activate}
use truth_table.Ir.GadgetPasses.{PayloadStructure}
use truth_table.Table.{
  TrackedTable, FoldedCol, size, activator_tracked_poly, data_tracked_polys_indices,
  fold_all_data_columns,
}
use truth_table.Gadgets.{GadgetError, payload_input, or_panic, Constants}
use truth_table.Gadgets.Boolean.{is_checked}

abbrev pub left_label : String
left_label = "left"

abbrev pub right_label : String
right_label = "right"

-- the challenges at `start`, `start + 1`, …, `n` of them
abbrev pub drawn : {F : Type 0} → (ℕ → F) → ℕ → ℕ → List F
drawn challenge start zero = []
drawn challenge start (suc n) = challenge start ∷ drawn challenge (start + 1) n

-- how many pairs a `zip` has
abbrev pub zipped : ℕ → ℕ → ℕ
zipped m n = if leb m n then m else n

module _ (k : PrimeField) where
  abbrev pub difference : FoldedCol k → FoldedCol k → Poly k
  difference l r i = sub_F k (l.data_poly i) (r.data_poly i)

  -- `one_minus_activator`
  abbrev pub one_minus_activator : Option (Poly k) → Poly k → Poly k
  one_minus_activator none p i = k.mul (p i) k.zero_F
  one_minus_activator (some a) p i = k.add (k.mul (a i) (k.neg k.one_F)) k.one_F

  -- what must not be zero
  unfoldable pub non_zero_poly : FoldedCol k → FoldedCol k → k.F → Poly k
  non_zero_poly l r chall i =
      k.add (difference l r i) (k.mul (one_minus_activator l.activator (difference l r) i) chall)

  -- a constant must not be zero, which is asserted
  abbrev pub unless_constant : Poly k → Option k.F → Result GadgetError (List (Claim k))
  unless_constant p none = ok (Claim.nozerocheck p ∷ [])
  unless_constant p (some c) = if is_zero k c then err GadgetError.panic else ok []

  -- the honest prover's loop over the rows from `i` on, of which `n` are left
  unfoldable pub check_rows : FoldedCol k → FoldedCol k → ℕ → ℕ → Result GadgetError (Unit {0})
  check_rows l r i zero = ok tt
  check_rows l r i (suc n) =
      let rest = check_rows l r (i + 1) n in
      if not (is_checked k l.activator i)
      then rest
      else if eqb_F k (l.data_poly i) (r.data_poly i)
      then err GadgetError.false_claim
      else rest

module _ {h : Host} {k : PrimeField} where
  abbrev pub num_challenges : TrackedTable h k → ℕ
  num_challenges left = length (data_tracked_polys_indices k left)

  -- what is done with the folds of the two inputs
  abbrev pub with_folds :
      {A : Type 0}
      → TrackedTable h k
      → TrackedTable h k
      → (ℕ → k.F)
      → (FoldedCol k → FoldedCol k → Result GadgetError A)
      → Result GadgetError A
  with_folds left right challenge f =
      or_panic (fold_all_data_columns k left (drawn challenge 0 (num_challenges left))) λ l.
        or_panic (fold_all_data_columns k right (drawn challenge 0 (num_challenges left)))
          λ r. f l r

  abbrev pub with_inputs :
      {A : Type 0}
      → Option (PayloadStructure (TrackedTable h k))
      → (TrackedTable h k → TrackedTable h k → Result GadgetError A)
      → Result GadgetError A
  with_inputs payload f =
      or_panic (payload_input payload left_label)
        λ left. or_panic (payload_input payload right_label) λ right. f left right

  unfoldable pub verify_eq :
      Option (PayloadStructure (TrackedTable h k)) → (ℕ → k.F) → Result GadgetError (List (Claim k))
  verify_eq payload challenge = with_inputs payload λ left right.
      with_folds left right challenge λ l r.
        ok (Claim.zerocheck (activate k (activator_tracked_poly k left) (difference k l r)) ∷ [])

  unfoldable pub verify_neq :
      Constants k
      → Option (PayloadStructure (TrackedTable h k))
      → (ℕ → k.F)
      → Result GadgetError (List (Claim k))
  unfolding non_zero_poly
  verify_neq constants payload challenge = with_inputs payload λ left right.
      with_folds left right challenge λ l r.
        let p = non_zero_poly k l r (challenge (num_challenges left)) in
        unless_constant k p (constants.as_constant p)

  abbrev pub check_inputs :
      Option (TrackedTable h k)
      → Option (TrackedTable h k)
      → (ℕ → k.F)
      → Result GadgetError (Unit {0})
  check_inputs none right challenge = ok tt
  check_inputs (some left) none challenge = ok tt
  check_inputs (some left) (some right) challenge =
      with_folds left right challenge
        λ l r. check_rows k l r 0 (zipped (size k left) (size k right))

  unfoldable pub honest_neq_check :
      Option (PayloadStructure (TrackedTable h k)) → (ℕ → k.F) → Result GadgetError (Unit {0})
  unfolding check_rows
  honest_neq_check payload challenge =
      check_inputs (payload_input payload left_label) (payload_input payload right_label) challenge
