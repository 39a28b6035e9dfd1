-- ===== src/Gadgets/Boolean/Value.antt =====
-- The claim and the check of the Boolean gadget at one row
-- (crates/tt-core/src/irs/nodes/utils/bool/mod.rs).
use native.Mathlib.Nat.{mod-eq_of_lt}
use truth_table.Common.{
  ℕ, ◌+◌, ◌-◌, ◌%◌, ◌≡◌, ◌↔◌, ◌⊎◌, refl, sym, ap, ◌∙◌, Option, none, some, true, false, not, ◌||◌,
  arith, Bool-cases, inl, inr, ==_iff, ◌*◌,
}
use truth_table.Datafusion.Host.{Host}
use truth_table.Field.{PrimeField, IsLawful, is_zero}
use truth_table.Field.Arithmetic.{
  HasNoZeroDivisors, eq_of_difference, add-neg_self, into_bigint-mul_neg_one, into_bigint-mul_zero,
  into_bigint-injective, into_bigint-mul_one,
}
use truth_table.Sign.Column.{Poly, TrackedCol, activate}
use truth_table.Gadgets.Boolean.{check_poly, is_checked, is_boolean}

-- the activator is zero or one at a row
abbrev pub IsBooleanAt : (k : PrimeField) → Option (Poly k) → ℕ → Type 0
IsBooleanAt k none i = Unit
IsBooleanAt k (some a) i = (a i ≡ k.zero_F) ⊎ (a i ≡ k.one_F)

module _ {k : PrimeField} (law : IsLawful k) where
  pub one_minus_iff :
      (d : k.F)
      → (k.into_bigint (k.add (k.mul d (k.neg k.one_F)) k.one_F) ≡ 0) ↔ (k.into_bigint d ≡ 1)
  one_minus_iff d =
      let value : k.into_bigint (k.add (k.mul d (k.neg k.one_F)) k.one_F)
          ≡ (1 + (k.modulus - k.into_bigint d) % k.modulus) % k.modulus =
        law.into_bigint-add (k.mul d (k.neg k.one_F)) k.one_F
        ∙ ap (λ t. (t + k.into_bigint k.one_F) % k.modulus) (into_bigint-mul_neg_one law d)
        ∙ ap (λ t. ((k.modulus - k.into_bigint d) % k.modulus + t) % k.modulus) law.into_bigint-one
        ∙ ap (λ t. t % k.modulus) (omega arith) in
      (
        λ e. sym (
            eq_of_difference 1 (k.into_bigint d) k.modulus law.one-lt-modulus (law.into_bigint-lt d)
              (sym value ∙ e)),
        λ e.
            value
            ∙ ap (λ t. (1 + (k.modulus - t) % k.modulus) % k.modulus) e
            ∙ add-neg_self 1 k.modulus law.one-lt-modulus,
      )

  pub product_zero : (x y : k.F) → k.into_bigint y ≡ 0 → k.into_bigint (k.mul x y) ≡ 0
  product_zero x y e =
      let z : k.into_bigint x * 0 ≡ 0 = omega arith in
      law.into_bigint-mul x y
      ∙ ap (λ t. k.into_bigint x * t % k.modulus) e
      ∙ ap (λ t. t % k.modulus) z
      ∙ mod-eq_of_lt (omega (arith, law.one-lt-modulus))

  is_boolean_iff :
      HasNoZeroDivisors k
      → (d : k.F)
      → (k.into_bigint (k.mul d (k.add (k.mul d (k.neg k.one_F)) k.one_F)) ≡ 0)
        ↔ (is_boolean k d ≡ true)
  is_boolean_iff domain d = (
    λ e. elim (domain d (k.add (k.mul d (k.neg k.one_F)) k.one_F) e) [
      | inl z ↦ ground (arith, z, law.into_bigint-zero)
      | inr z ↦ ground (arith, (one_minus_iff d).0 z, law.into_bigint-one)
    ],
    λ e. elim (Bool-cases (is_zero k d)) [
      | inl z ↦
          into_bigint-mul_zero law d (k.add (k.mul d (k.neg k.one_F)) k.one_F)
            (((==_iff _ _).0 z) ∙ law.into_bigint-zero)
      | inr other ↦
          let one : k.into_bigint d ≡ 1 = ground (arith, e, other, law.into_bigint-one) in
          product_zero d _ ((one_minus_iff d).1 one)
    ],
  )

  pub zero_F_iff : (x : k.F) → (x ≡ k.zero_F) ↔ (k.into_bigint x ≡ 0)
  zero_F_iff x = (
    λ e. ap k.into_bigint e ∙ law.into_bigint-zero,
    λ e. into_bigint-injective law x k.zero_F (e ∙ sym law.into_bigint-zero),
  )

  abbrev product : k.F → k.F
  product d = k.mul d (k.add (k.mul d (k.neg k.one_F)) k.one_F)

  product_iff : HasNoZeroDivisors k → (d : k.F) → (product d ≡ k.zero_F) ↔ (is_boolean k d ≡ true)
  product_iff domain d = (
    λ e. (is_boolean_iff domain d).0 ((zero_F_iff (product d)).0 e),
    λ e. (zero_F_iff (product d)).1 ((is_boolean_iff domain d).1 e),
  )

  unchecked : (a : Poly k) (i : ℕ) → a i ≡ k.zero_F → is_checked k (some a) i ≡ false
  unchecked a i e =
      let value : k.into_bigint (a i) ≡ 0 = (zero_F_iff (a i)).0 e in
      ground (arith, value, law.into_bigint-one)

  pub checked : (a : Poly k) (i : ℕ) → a i ≡ k.one_F → is_checked k (some a) i ≡ true
  checked a i e =
      let value : k.into_bigint (a i) ≡ k.into_bigint k.one_F = ap k.into_bigint e in
      ground (arith, value)

  activate_iff :
      HasNoZeroDivisors k
      → (a : Option (Poly k)) (p : Poly k) (i : ℕ) → IsBooleanAt k a i
      → (activate k a (λ j. product (p j)) i ≡ k.zero_F)
        ↔ ((not (is_checked k a i) || is_boolean k (p i)) ≡ true)
  activate_iff domain none p i b = product_iff domain (p i)
  activate_iff domain (some a) p i (inl zero_here) = (
    λ e. rw (unchecked a i zero_here) refl,
    λ e. (zero_F_iff _).1 (product_zero (product (p i)) (a i) ((zero_F_iff (a i)).0 zero_here)),
  )
  activate_iff domain (some a) p i (inr one_here) =
      let same = into_bigint-mul_one law (product (p i)) (a i) one_here in
      (
        λ e.
            rw (checked a i one_here)
              ((product_iff domain (p i)).0 ((zero_F_iff _).1 (sym same ∙ (zero_F_iff _).0 e))),
        λ e. (zero_F_iff _).1 (
            same
            ∙ (zero_F_iff _).0
                ((product_iff domain (p i)).1 (ground (arith, e, checked a i one_here)))),
      )

  -- the claim at a row, and the row's check
  pub check_poly_iff :
      {h : Host}
      → HasNoZeroDivisors k
      → (c : TrackedCol h k) (i : ℕ) → IsBooleanAt k c.activator i
      → (check_poly c i ≡ k.zero_F)
        ↔ ((not (is_checked k c.activator i) || is_boolean k (c.data_poly i)) ≡ true)
  unfolding check_poly
  check_poly_iff domain c i b = activate_iff domain c.activator c.data_poly i b
