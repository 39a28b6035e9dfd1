-- ===== src/Gadgets/BinCmp/Rows.antt =====
-- What the claims of the children of a comparison show of its output
-- (crates/tt-core/src/irs/nodes/plan/exprs/binary_expr/gadget/bin_cmp/mod.rs).
use native.Mathlib.Nat.{mod-eq_of_lt, mod_self}
use truth_table.Common.{
  ℕ, ◌+◌, ◌-◌, ◌%◌, ◌^◌, ◌≤◌, ◌<◌, ◌≡◌, ◌≢◌, ◌⊎◌, inl, inr, refl, sym, ap, ◌∙◌, List, [], ◌∷◌,
  Option, none, some, true, ok, arith,
}
use truth_table.Common.Int.{ℤ, pos, negsuc}
use truth_table.Datafusion.Host.{Host}
use truth_table.Datafusion.Arrow.{Field}
use truth_table.Field.{PrimeField, IsLawful, sub_F}
use truth_table.Field.Arithmetic.{into_bigint-sub_self, into_bigint-mul_zero, into_bigint-injective}
use truth_table.Sign.Config.{Sign, SignConfig, sign_for_index, is_strict}
use truth_table.Sign.Column.{Poly, TrackedCol, Claim, negated_col}
use truth_table.Sign.Claims.{AllHold, IsActive, range_size}
use truth_table.Sign.Protocol.{verify, signed_col}
use truth_table.Sign.Protocol.Gadget.{verify-lt}
use truth_table.Table.{data_type_of}
use truth_table.Gadgets.Boolean.Value.{IsBooleanAt}
use truth_table.Gadgets.Compare.Order.{LeZ, Fits, LeZ-of_sub, into_bigint-negated_sub}
use truth_table.Gadgets.Compare.Initialize.{col}
use truth_table.Gadgets.BinCmp.{BinCmpOp, sign_pair, sign_configs, false_activator}

-- what the comparisons mean
abbrev pub OpHolds : BinCmpOp → ℤ → ℤ → Type 0
OpHolds BinCmpOp.geq a b = LeZ b a
OpHolds BinCmpOp.leq a b = LeZ a b
OpHolds BinCmpOp.gt a b = ¬ LeZ a b
OpHolds BinCmpOp.lt a b = ¬ LeZ b a

-- what a sign of `a - b` means
abbrev SignHolds : Sign → ℤ → ℤ → Type 0
SignHolds Sign.non_negative a b = LeZ b a
SignHolds Sign.non_positive a b = LeZ a b
SignHolds Sign.positive a b = ¬ LeZ a b
SignHolds Sign.negative a b = ¬ LeZ b a

LeZ-antisym : (a b : ℤ) → LeZ a b → LeZ b a → a ≡ b
LeZ-antisym (pos a) (pos b) ab ba = let e : a ≡ b = omega (arith, ab, ba) in ap pos e
LeZ-antisym (pos a) (negsuc b) ab ba = absurd ab
LeZ-antisym (negsuc a) (pos b) ab ba = absurd ba
LeZ-antisym (negsuc a) (negsuc b) ab ba = let e : a ≡ b = omega (arith, ab, ba) in ap negsuc e

module _ {h : Host} {k : PrimeField} (law : IsLawful k) (rows : ℕ) (w : ℕ) (a b : ℤ) (f : Field h)
    (room : 2 ^ w + 2 ^ w + range_size (data_type_of f) ≤ k.modulus) (fits_a : Fits w a)
    (fits_b : Fits w b) (l r : Poly k) where
  abbrev diff : Poly k
  diff i = sub_F k (l i) (r i)

  abbrev diff_col : Poly k → TrackedCol h k
  diff_col activator = col diff (some activator) f

  -- integers that are the same have a difference of zero
  apart :
      (i : ℕ)
      → l i ≡ k.from_signed a
      → r i ≡ k.from_signed b
      → k.into_bigint (diff i) ≢ 0
      → LeZ a b
      → LeZ b a
      → ⊥
  apart i le re nonzero ab ba = nonzero (
      into_bigint-sub_self law (l i) (r i)
        (ap k.into_bigint (le ∙ ap k.from_signed (LeZ-antisym a b ab ba) ∙ sym re)))

  -- the column of a sign gadget at an active row
  verify-SignHolds :
      (s : Sign) (activator : Poly k) (coms : List (Poly k)) {claims : List (Claim k)}
      {rest : List (Poly k)}
      → verify (SignConfig.uniform s) (diff_col activator ∷ []) coms ≡ ok (claims, rest)
      → AllHold rows claims
      → (i : ℕ) → i < rows
      → activator i ≡ k.one_F
      → (is_strict s ≡ true → k.into_bigint (diff i) ≢ 0)
      → l i ≡ k.from_signed a
      → r i ≡ k.from_signed b
      → SignHolds s a b
  unfolding sign_for_index signed_col negated_col is_strict
  verify-SignHolds s activator coms done holds i lt active nonzero le re = by_sign s small nonzero
    where
      small :
          k.into_bigint ((signed_col s (diff_col activator)).data_poly i)
          < range_size (data_type_of f)
      small =
          verify-lt law rows (SignConfig.uniform s) (diff_col activator ∷ []) coms done holds 0 refl
            refl i lt active

      at_least : k.into_bigint (diff i) < range_size (data_type_of f) → LeZ b a
      at_least less =
          LeZ-of_sub law w (range_size (data_type_of f)) b a room fits_b fits_a
            (rw (← le, ← re) less)

      at_most :
          k.into_bigint (k.mul (diff i) (k.neg k.one_F)) < range_size (data_type_of f) → LeZ a b
      at_most less =
          LeZ-of_sub law w (range_size (data_type_of f)) a b room fits_a fits_b
            (rw (← le, ← re, ← into_bigint-negated_sub law (l i) (r i)) less)

      by_sign :
          (s : Sign)
          → k.into_bigint ((signed_col s (diff_col activator)).data_poly i)
            < range_size (data_type_of f)
          → (is_strict s ≡ true → k.into_bigint (diff i) ≢ 0)
          → SignHolds s a b
      by_sign Sign.non_negative less strict = at_least less
      by_sign Sign.non_positive less strict = at_most less
      by_sign Sign.positive less strict = λ ab. apart i le re (strict refl) ab (at_least less)
      by_sign Sign.negative less strict = λ ba. apart i le re (strict refl) (at_most less) ba

module _ {k : PrimeField} (law : IsLawful k) where
  -- where the output is zero, the false branch is active
  pub false_activator-one :
      (shared : Option (Poly k)) (out : Poly k) (i : ℕ)
      → IsActive k shared i
      → out i ≡ k.zero_F
      → false_activator k shared out i ≡ k.one_F
  false_activator-one none out i active e =
      let o : k.into_bigint (out i) ≡ 0 = ap k.into_bigint e ∙ law.into_bigint-zero in
      let plain : 0 + k.into_bigint k.one_F ≡ k.into_bigint k.one_F = omega arith in
      into_bigint-injective law _ k.one_F (
        law.into_bigint-add (k.mul (out i) (k.neg k.one_F)) k.one_F
        ∙ ap (λ t. (t + k.into_bigint k.one_F) % k.modulus)
            (into_bigint-mul_zero law (out i) (k.neg k.one_F) o)
        ∙ ap (λ t. t % k.modulus) plain
        ∙ mod-eq_of_lt (law.into_bigint-lt k.one_F))
  false_activator-one (some a) out i active e =
      let o : k.into_bigint (out i) ≡ 0 = ap k.into_bigint e ∙ law.into_bigint-zero in
      let whole : k.modulus - 0 ≡ k.modulus = omega arith in
      let plain : k.into_bigint (a i) + 0 ≡ k.into_bigint (a i) = omega arith in
      into_bigint-injective law _ k.one_F (
        law.into_bigint-add (a i) (k.neg (out i))
        ∙ ap (λ t. (k.into_bigint (a i) + t) % k.modulus)
            (law.into_bigint-neg (out i)
              ∙ ap (λ t. (k.modulus - t) % k.modulus) o
              ∙ ap (λ t. t % k.modulus) whole
              ∙ mod_self k.modulus)
        ∙ ap (λ t. t % k.modulus) plain
        ∙ mod-eq_of_lt (law.into_bigint-lt (a i))
        ∙ ap k.into_bigint active)

-- the sign of the false branch is that of the opposite
opposite : (op : BinCmpOp) (a b : ℤ) → SignHolds (sign_pair op).1 a b → ¬ OpHolds op a b
unfolding sign_pair
opposite BinCmpOp.geq a b holds = holds
opposite BinCmpOp.leq a b holds = holds
opposite BinCmpOp.gt a b holds = λ n. n holds
opposite BinCmpOp.lt a b holds = λ n. n holds

same : (op : BinCmpOp) (a b : ℤ) → SignHolds (sign_pair op).0 a b → OpHolds op a b
unfolding sign_pair
same BinCmpOp.geq a b holds = holds
same BinCmpOp.leq a b holds = holds
same BinCmpOp.gt a b holds = holds
same BinCmpOp.lt a b holds = holds

-- Over a lawful field: let the verifiers of both sign gadgets of a comparison, on the difference of two
-- columns with the output as activator, and with the activator of the false branch, succeed with claims
-- that hold, and let the difference not be zero where a strict one of the two is active. Then at a row
-- that the shared activator keeps and at which the output is zero or one, if the values are the encodings
-- of two integers of at most `w` bits and a sign, and the field has room for them and for the range of the
-- type, the output is one and the comparison holds of the integers, or it is zero and does not.
pub verify-OpHolds :
    {h : Host} {k : PrimeField} (op : BinCmpOp) (rows : ℕ) (l r out : Poly k)
    (shared : Option (Poly k)) (f : Field h) (true_coms false_coms : List (Poly k))
    {true_claims false_claims : List (Claim k)} {true_rest false_rest : List (Poly k)}
    → IsLawful k
    → verify (sign_configs op).0 (col (λ i. sub_F k (l i) (r i)) (some out) f ∷ []) true_coms
      ≡ ok (true_claims, true_rest)
    → AllHold rows true_claims
    → verify
        (sign_configs op).1
        (col (λ i. sub_F k (l i) (r i)) (some (false_activator k shared out)) f ∷ [])
        false_coms
      ≡ ok (false_claims, false_rest)
    → AllHold rows false_claims
    → (i : ℕ) → i < rows
    → (is_strict (sign_pair op).0 ≡ true
        → out i ≡ k.one_F
        → k.into_bigint (sub_F k (l i) (r i)) ≢ 0)
    → (is_strict (sign_pair op).1 ≡ true
        → false_activator k shared out i ≡ k.one_F
        → k.into_bigint (sub_F k (l i) (r i)) ≢ 0)
    → IsActive k shared i
    → IsBooleanAt k (some out) i
    → (w : ℕ) (a b : ℤ) → 2 ^ w + 2 ^ w + range_size (data_type_of f) ≤ k.modulus
    → Fits w a
    → Fits w b
    → l i ≡ k.from_signed a
    → r i ≡ k.from_signed b
    → ((out i ≡ k.one_F) × OpHolds op a b) ⊎ ((out i ≡ k.zero_F) × (¬ OpHolds op a b))
unfolding sign_configs
verify-OpHolds {k = k} op rows l r out shared f tc fc law t_done t_holds f_done f_holds i lt
      t_strict f_strict active (inr one) w a b room fa fb le re =
    inl (
      one,
      same op a b (
          verify-SignHolds law rows w a b f room fa fb l r (sign_pair op).0 out tc t_done t_holds i
            lt one (λ s. t_strict s one) le re),
    )
verify-OpHolds {k = k} op rows l r out shared f tc fc law t_done t_holds f_done f_holds i lt
      t_strict f_strict active (inl nil) w a b room fa fb le re =
    let on = false_activator-one law shared out i active nil in
    inr (
      nil,
      opposite op a b (
          verify-SignHolds law rows w a b f room fa fb l r (sign_pair op).1
            (false_activator k shared out) fc f_done f_holds i lt on (λ s. f_strict s on) le re),
    )
