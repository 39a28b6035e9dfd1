-- ===== src/Gadgets/Equality/Differ.antt =====
-- What the claim of the gadget for differing rows, and its honest prover's check, say of the rows
-- (crates/tt-core/src/irs/nodes/utils/neq/mod.rs).
use native.Mathlib.Nat.{mod-eq_of_lt}
use mathlib.Core.Path.{subst}
use truth_table.Common.{
  ℕ, ◌+◌, ◌%◌, ◌≤◌, ◌<◌, ◌≡◌, ◌≢◌, ◌↔◌, refl, sym, ap, ◌∙◌, Option, none, some, Bool, true, false,
  not, ◌||◌, ◌^◌, ok, length, if◌then◌else◌, arith, Bool-cases, inl, inr,
}
use truth_table.Datafusion.Host.{Host}
use truth_table.Field.{PrimeField, IsLawful, eqb_F, is_zero}
use truth_table.Field.Arithmetic.{into_bigint-mul_zero, into_bigint-injective}
use truth_table.Sign.Column.{Poly}
use truth_table.Sign.Claims.{IsActive}
use truth_table.Ir.GadgetPasses.{PayloadStructure}
use truth_table.Table.{TrackedTable, FoldedCol, size, activator_tracked_poly}
use truth_table.Table.Fold.{data_polys}
use truth_table.Gadgets.{payload_input, Constants}
use truth_table.Gadgets.Claims.{Met, is_zero_iff, true_ne_false, loop_iff}
use truth_table.Gadgets.Boolean.{is_checked}
use truth_table.Gadgets.Boolean.Value.{one_minus_iff, product_zero, zero_F_iff, checked}
use truth_table.Gadgets.Equality.{
  left_label, zipped, right_label, num_challenges, difference, one_minus_activator, non_zero_poly,
  unless_constant, check_rows, verify_neq, honest_neq_check,
}
use truth_table.Gadgets.Equality.Folded.{fold_value}
use truth_table.Gadgets.Equality.Rows.{difference_iff, row_of}

module _ {k : PrimeField} (law : IsLawful k) where
  -- at an active row the challenge of the other rows has no part
  one_minus-zero :
      (a : Option (Poly k)) (p : Poly k) (i : ℕ)
      → IsActive k a i
      → k.into_bigint (one_minus_activator k a p i) ≡ 0
  one_minus-zero none p i active = product_zero law (p i) k.zero_F law.into_bigint-zero
  one_minus-zero (some a) p i active =
      (one_minus_iff law (a i)).1 (ap k.into_bigint active ∙ law.into_bigint-one)

  non_zero_poly-zero :
      (l r : FoldedCol k) (chall : k.F) (i : ℕ)
      → IsActive k l.activator i
      → k.into_bigint (l.data_poly i) ≡ k.into_bigint (r.data_poly i)
      → non_zero_poly k l r chall i ≡ k.zero_F
  unfolding non_zero_poly
  non_zero_poly-zero l r chall i active same =
      let d = (difference_iff law l r i).1 same in
      let m =
        into_bigint-mul_zero law _ chall (one_minus-zero l.activator (difference k l r) i active) in
      (zero_F_iff law _).1 (
        law.into_bigint-add (difference k l r i)
          (k.mul (one_minus_activator k l.activator (difference k l r) i) chall)
        ∙ ap
            (λ t.
              (t
                + k.into_bigint
                    (k.mul (one_minus_activator k l.activator (difference k l r) i) chall))
              % k.modulus)
            d
        ∙ ap (λ t. (0 + t) % k.modulus) m
        ∙ mod-eq_of_lt (omega (arith, law.one-lt-modulus)))

passing :
    {A : Type 0} (a e : Bool) (x y : A)
    → (not a || not e) ≡ true
    → (if not a then x else if e then y else x) ≡ x
passing true true x y p = cc
passing true false x y p = refl
passing false e x y p = refl

failing :
    {A : Type 0} (a e : Bool) (x y : A)
    → (not a || not e) ≡ false
    → (if not a then x else if e then y else x) ≡ y
failing true true x y p = refl
failing true false x y p = cc
failing false e x y p = cc

module _ {k : PrimeField} (law : IsLawful k) where
  abbrev differs : FoldedCol k → FoldedCol k → ℕ → Bool
  differs l r i = not (is_checked k l.activator i) || not (eqb_F k (l.data_poly i) (r.data_poly i))

  check_rows_iff :
      (l r : FoldedCol k) (i n : ℕ)
      → (check_rows k l r i n ≡ ok tt) ↔ ((j : ℕ) → i ≤ j → j < i + n → differs l r j ≡ true)
  unfolding check_rows
  check_rows_iff l r =
      loop_iff (check_rows k l r) (differs l r) (λ i. refl)
        (λ i n. passing (is_checked k l.activator i) (eqb_F k (l.data_poly i) (r.data_poly i)) _ _)
        (λ i n. failing (is_checked k l.activator i) (eqb_F k (l.data_poly i) (r.data_poly i)) _ _)

  IsActive-of_checked : (a : Option (Poly k)) (i : ℕ) → is_checked k a i ≡ true → IsActive k a i
  IsActive-of_checked none i e = tt
  IsActive-of_checked (some a) i e = into_bigint-injective law (a i) k.one_F (ground (arith, e))

  checked_of_active : (a : Option (Poly k)) (i : ℕ) → IsActive k a i → is_checked k a i ≡ true
  checked_of_active none i active = refl
  checked_of_active (some a) i active = checked law a i active

  differs_iff :
      (l r : FoldedCol k) (i : ℕ)
      → (differs l r i ≡ true)
        ↔ (IsActive k l.activator i → k.into_bigint (l.data_poly i) ≢ k.into_bigint (r.data_poly i))
  differs_iff l r i = (
    λ e active same. absurd (ground (arith, e, checked_of_active l.activator i active, same)),
    λ apart. elim (Bool-cases (is_checked k l.activator i)) [
      | inl here ↦
          (let other = apart (IsActive-of_checked l.activator i here) in
            ground (arith, here, other))
      | inr passed ↦ rw passed refl
    ],
  )

  unless_constant-≢ :
      (n : ℕ) (p : Poly k) (o : Option k.F)
      → ((c : k.F) → o ≡ some c → (i : ℕ) → p i ≡ c)
      → Met n (unless_constant k p o)
      → (i : ℕ) → i < n
      → p i ≢ k.zero_F
  unless_constant-≢ n p none value met i lt = met.0 i lt
  unless_constant-≢ n p (some c) value met i lt = elim (Bool-cases (is_zero k c)) [
    | inl z ↦ absurd (rw z at (met))
    | inr nonzero ↦
        λ e. true_ne_false (sym ((is_zero_iff law c).1 (sym (value c refl i) ∙ e)) ∙ nonzero)
  ]

  -- a claim of the gadget for differing rows, at an active row
  verify_neq-≢ :
      (n : ℕ) (l r : FoldedCol k) (chall : k.F) (o : Option k.F)
      → ((c : k.F) → o ≡ some c → (i : ℕ) → non_zero_poly k l r chall i ≡ c)
      → Met n (unless_constant k (non_zero_poly k l r chall) o)
      → (i : ℕ) → i < n
      → IsActive k l.activator i
      → k.into_bigint (l.data_poly i) ≢ k.into_bigint (r.data_poly i)
  verify_neq-≢ n l r chall o value met i lt active = λ same.
      unless_constant-≢ n (non_zero_poly k l r chall) o value met i lt
        (non_zero_poly-zero law l r chall i active same)

  -- the check of all rows
  check_rows_all :
      (l r : FoldedCol k) (n : ℕ)
      → (check_rows k l r 0 n ≡ ok tt) ↔ (
          (i : ℕ)
          → i < n
          → IsActive k l.activator i
          → k.into_bigint (l.data_poly i) ≢ k.into_bigint (r.data_poly i))
  check_rows_all l r n =
      let rows = check_rows_iff l r 0 n in
      (
        λ e i lt. (differs_iff l r i).0 (rows.0 e i (omega arith) (omega arith)),
        λ all. rows.1 (λ j le lt. (differs_iff l r j).1 (all j (omega arith))),
      )

  -- the same of a fold whose activator and values are known
  check_rows_of :
      (a : Option (Poly k)) (x y : ℕ → ℕ) (l r : FoldedCol k) (n : ℕ)
      → l.activator ≡ a
      → ((i : ℕ) → k.into_bigint (l.data_poly i) ≡ x i)
      → ((i : ℕ) → k.into_bigint (r.data_poly i) ≡ y i)
      → (check_rows k l r 0 n ≡ ok tt) ↔ ((i : ℕ) → i < n → IsActive k a i → x i ≢ y i)
  check_rows_of a x y l r n act left right =
      let all = check_rows_all l r n in
      (
        λ e i lt active same.
            all.0 e i lt (subst (λ b. IsActive k b i) (sym act) active)
              (left i ∙ same ∙ sym (right i)),
        λ apart. all.1 (λ i lt active same.
            apart i lt (subst (λ b. IsActive k b i) act active) (sym (left i) ∙ same ∙ right i)),
      )

zipped-same : (m n : ℕ) → m ≡ n → zipped m n ≡ m
zipped-same m n e = ground (arith, e)

module _ {h : Host} {k : PrimeField} (law : IsLawful k) (challenge : ℕ → k.F)
    (payload : Option (PayloadStructure (TrackedTable h k))) (left right : TrackedTable h k)
    (l_in : payload_input payload left_label ≡ some left)
    (r_in : payload_input payload right_label ≡ some right)
    (pos : 0 < length (data_polys left.tracked_polys))
    (same_len : length (data_polys left.tracked_polys)
      ≡ length (data_polys right.tracked_polys)) where
  -- Over a lawful field, for two inputs with as many data columns, one at least, and as many rows: the
  -- honest prover's check of the gadget for differing rows passes exactly when at every row that the
  -- left activator keeps, the data columns of the inputs have different sums, weighted with the
  -- challenges; and it passes if the verifier succeeds with claims that hold.
  pub honest_neq_check-verify_neq :
      (constants : Constants k)
      → left.log_size ≡ right.log_size
      → ((honest_neq_check payload challenge ≡ ok tt) ↔ (
          (i : ℕ)
          → i < size k left
          → IsActive k (activator_tracked_poly k left) i
          → row_of law challenge left left i ≢ row_of law challenge left right i))
        × (Met (size k left) (verify_neq constants payload challenge)
            → honest_neq_check payload challenge ≡ ok tt)
  unfolding verify_neq honest_neq_check size
  honest_neq_check-verify_neq constants rows =
      let (l, l_fold, l_act, l_value) = fold_value law challenge left left pos refl in
      let (r, r_fold, r_act, r_value) =
        fold_value law challenge left right (omega (arith, same_len)) same_len in
      let n_rows : zipped (2 ^ left.log_size) (2 ^ right.log_size) ≡ 2 ^ left.log_size =
        zipped-same _ _ (ap (λ n. 2 ^ n) rows) in
      let chall = challenge (num_challenges left) in
      let p = non_zero_poly k l r chall in
      (
        rw (l_in, r_in, l_fold, r_fold, n_rows)
            (check_rows_of law (activator_tracked_poly k left) (row_of law challenge left left)
              (row_of law challenge left right) l r (2 ^ left.log_size) l_act l_value r_value),
        λ met.
            let holds : Met (2 ^ left.log_size) (unless_constant k p (constants.as_constant p)) =
              rw (l_in, r_in, l_fold, r_fold) at (met) in
            rw (l_in, r_in, l_fold, r_fold, n_rows)
              ((check_rows_all law l r (2 ^ left.log_size)).1 (
                verify_neq-≢ law (2 ^ left.log_size) l r chall (constants.as_constant p)
                  (constants.constant_value p) holds)),
      )
