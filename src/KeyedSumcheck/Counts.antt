-- ===== src/KeyedSumcheck/Counts.antt =====
-- How often each side holds an element: an independent count over the rows' numbers.
use native.Mathlib.Nat.{mod-eq_of_lt, mod-add-mod, add-mul-mod_self_right, div-add-mod, zero-mod}
use truth_table.Common.{
  ℕ, zero, suc, ◌+◌, ◌*◌, ◌/◌, ◌%◌, ◌≡◌, ◌↔◌, refl, sym, ap, ◌∙◌, List, [], ◌∷◌, ◌++◌, Option, none,
  some, Bool, true, false, ◌&&◌, length, get_elem?, if◌then◌else◌, ◌==◌, arith, Bool-cases, inl,
  inr, ==_iff,
}
use truth_table.Field.{PrimeField, IsLawful, eqb_F, is_zero}
use truth_table.Field.Arithmetic.{add-neg_self}
use truth_table.KeyedSumcheck.{
  Evaluations, active_weighted, active_ones, ones, weighted, column_counts, side_counts, negated,
}
use truth_table.KeyedSumcheck.Bookkeeping.{balance}

-- `f 0 + f 1 + … + f (n - 1)`
abbrev pub sum_rows : (ℕ → ℕ) → ℕ → ℕ
sum_rows f zero = 0
sum_rows f (suc n) = f 0 + sum_rows (λ i. f (suc i)) n

sum_rows_zero : (f : ℕ → ℕ) (n : ℕ) → ((i : ℕ) → f i ≡ 0) → sum_rows f n ≡ 0
sum_rows_zero f zero h = refl
sum_rows_zero f (suc n) h = omega (arith, h 0, sum_rows_zero (λ i. f (suc i)) n (λ i. h (suc i)))

module _ (k : PrimeField) where
  -- an activator is one at a row, and a column without one is active throughout
  abbrev pub is_active : Option (List k.F) → ℕ → Bool
  is_active none i = true
  is_active (some acts) i = elim (get_elem? acts i) [
    | none ↦ false
    | some a ↦ k.into_bigint a == k.into_bigint k.one_F
  ]

  -- a column without multiplicities counts each row once
  abbrev pub weight : Option (List k.F) → ℕ → ℕ
  weight none i = 1
  weight (some ms) i = elim (get_elem? ms i) [ none ↦ 0 | some m ↦ k.into_bigint m ]

  abbrev pub holds : k.F → List k.F → ℕ → Bool
  holds x xs i = elim (get_elem? xs i) [
    | none ↦ false
    | some y ↦ k.into_bigint y == k.into_bigint x
  ]

  abbrev pub row_count : k.F → List k.F → Option (List k.F) → Option (List k.F) → ℕ → ℕ
  row_count x xs ms acts i = if is_active acts i && holds x xs i then weight ms i else 0

  -- the multiplicities of the active rows of a side that hold an element, added up
  abbrev pub occurrences : k.F → List (Evaluations k) → List (Option (List k.F)) → ℕ
  occurrences x (c ∷ cs) (m ∷ ms) =
      sum_rows (row_count x c.data_evals m c.activator_evals) (length c.data_evals)
      + occurrences x cs ms
  occurrences x _ _ = 0

  -- what a list of changes adds to an element
  abbrev pub added : k.F → List (k.F × k.F) → ℕ
  added x [] = 0
  added x ((y, d) ∷ ds) = (if eqb_F k y x then k.into_bigint d else 0) + added x ds

  added-append : (x : k.F) (ds es : List (k.F × k.F)) → added x (ds ++ es) ≡ added x ds + added x es
  added-append x [] es = omega arith
  added-append x ((y, d) ∷ ds) es = omega (arith, added-append x ds es)

  no_rows : (x : k.F) (ms acts : Option (List k.F)) (i : ℕ) → row_count x [] ms acts i ≡ 0
  no_rows x ms none i = refl
  no_rows x ms (some acts) i = ground arith

  added-active_weighted :
      (x : k.F) (xs ms acts : List k.F)
      → added x (active_weighted k xs ms acts)
        ≡ sum_rows (row_count x xs (some ms) (some acts)) (length xs)
  unfolding active_weighted
  added-active_weighted x [] ms acts = refl
  added-active_weighted x (y ∷ xs) [] acts = sym (
      sum_rows_zero (row_count x (y ∷ xs) (some []) (some acts)) (suc (length xs))
        (λ i. ground arith))
  added-active_weighted x (y ∷ xs) (m ∷ ms) [] =
      sym (
        sum_rows_zero (row_count x (y ∷ xs) (some (m ∷ ms)) (some [])) (suc (length xs))
          (λ i. refl))
  added-active_weighted x (y ∷ xs) (m ∷ ms) (a ∷ acts) =
      ground (arith, added-active_weighted x xs ms acts)

  added-active_ones :
      (x : k.F) (xs acts : List k.F)
      → k.into_bigint k.one_F ≡ 1
      → added x (active_ones k xs acts) ≡ sum_rows (row_count x xs none (some acts)) (length xs)
  unfolding active_ones
  added-active_ones x [] acts one = refl
  added-active_ones x (y ∷ xs) [] one =
      sym (sum_rows_zero (row_count x (y ∷ xs) none (some [])) (suc (length xs)) (λ i. refl))
  added-active_ones x (y ∷ xs) (a ∷ acts) one = ground (arith, one, added-active_ones x xs acts one)

  added-ones :
      (x : k.F) (xs : List k.F)
      → k.into_bigint k.one_F ≡ 1
      → added x (ones k xs) ≡ sum_rows (row_count x xs none none) (length xs)
  unfolding ones
  added-ones x [] one = refl
  added-ones x (y ∷ xs) one = ground (arith, one, added-ones x xs one)

  added-weighted :
      (x : k.F) (xs ms : List k.F)
      → added x (weighted k xs ms) ≡ sum_rows (row_count x xs (some ms) none) (length xs)
  unfolding weighted
  added-weighted x [] ms = refl
  added-weighted x (y ∷ xs) [] =
      sym
        (sum_rows_zero (row_count x (y ∷ xs) (some []) none) (suc (length xs)) (λ i. ground arith))
  added-weighted x (y ∷ xs) (m ∷ ms) = ground (arith, added-weighted x xs ms)

  added-column_counts :
      (x : k.F) (ms acts : Option (List k.F)) (xs : List k.F)
      → k.into_bigint k.one_F ≡ 1
      → added x (column_counts k ms acts xs) ≡ sum_rows (row_count x xs ms acts) (length xs)
  unfolding column_counts
  added-column_counts x (some ms) (some acts) xs one = added-active_weighted x xs ms acts
  added-column_counts x none (some acts) xs one = added-active_ones x xs acts one
  added-column_counts x none none xs one = added-ones x xs one
  added-column_counts x (some ms) none xs one = added-weighted x xs ms

  pub added-side_counts :
      (x : k.F) (cs : List (Evaluations k)) (ms : List (Option (List k.F)))
      → k.into_bigint k.one_F ≡ 1
      → added x (side_counts k cs ms) ≡ occurrences x cs ms
  unfolding side_counts
  added-side_counts x [] ms one = refl
  added-side_counts x (c ∷ cs) [] one = refl
  added-side_counts x (c ∷ cs) (m ∷ ms) one = omega (
    arith,
    added-append x (column_counts k m c.activator_evals c.data_evals) (side_counts k cs ms),
    added-column_counts x m c.activator_evals c.data_evals one,
    added-side_counts x cs ms one,
  )

add_mul : (a b p : ℕ) → (a + b) * p ≡ a * p + b * p
add_mul a b p = grind arith

multiple : (n p : ℕ) → n % p ≡ 0 → n ≡ n / p * p
multiple n p e = grind (arith, e, div-add-mod n p)

-- a difference is a multiple exactly when the remainders agree
pub eq-mod_iff : (a b n c p : ℕ) → b + n ≡ c * p → ((a + n) % p ≡ 0) ↔ (a % p ≡ b % p)
eq-mod_iff a b n c p e = (
  (λ z.
      sym (add-mul-mod_self_right a c p)
      ∙ ap (λ t. t % p)
          (let m = multiple (a + n) p z in
            let same : a + c * p ≡ b + (a + n) / p * p = omega (arith, m, e) in same)
      ∙ add-mul-mod_self_right b ((a + n) / p) p),
  (λ s.
      sym (mod-add-mod a p n)
      ∙ ap (λ t. (t + n) % p) s
      ∙ mod-add-mod b p n
      ∙ ap (λ t. t % p) e
      ∙ (let z : 0 + c * p ≡ c * p = omega arith in
          ap (λ t. t % p) (sym z) ∙ add-mul-mod_self_right 0 c p ∙ zero-mod p)),
)

module _ {k : PrimeField} (law : IsLawful k) where
  -- a balance is what is added, modulo the characteristic
  balance-added :
      (x acc : k.F) (ds : List (k.F × k.F))
      → k.into_bigint (balance k x acc ds) ≡ (k.into_bigint acc + added k x ds) % k.modulus
  balance-added x acc [] =
      let whole : k.into_bigint acc + 0 ≡ k.into_bigint acc = omega arith in
      sym (ap (λ t. t % k.modulus) whole ∙ mod-eq_of_lt (law.into_bigint-lt acc))
  balance-added x acc ((y, d) ∷ ds) = ground (
    arith,
    balance-added x acc ds,
    balance-added x (k.add acc d) ds,
    law.into_bigint-add acc d,
    mod-add-mod (k.into_bigint acc + k.into_bigint d) k.modulus (added k x ds),
  )

  negation : (d : k.F) → (c : ℕ) × (k.into_bigint d + k.into_bigint (k.neg d) ≡ c * k.modulus)
  negation d =
      let n : ℕ = k.into_bigint d + k.into_bigint (k.neg d) in
      (
        n / k.modulus,
        multiple n k.modulus (
            ap (λ t. (k.into_bigint d + t) % k.modulus) (law.into_bigint-neg d)
            ∙ add-neg_self (k.into_bigint d) k.modulus (law.into_bigint-lt d)),
      )

  -- what is subtracted adds up to a multiple of the characteristic with what is added
  added-negated :
      (x : k.F) (ds : List (k.F × k.F))
      → (c : ℕ) × (added k x ds + added k x (negated k ds) ≡ c * k.modulus)
  added-negated x [] = (0, omega arith)
  added-negated x ((y, d) ∷ ds) =
      let (c, e) = added-negated x ds in
      let (c', e') = negation d in
      elim (Bool-cases (eqb_F k y x)) [
        | inl q ↦ (c' + c, ground (arith, e, e', q, add_mul c' c k.modulus))
        | inr q ↦ (c, ground (arith, e, q))
      ]

  -- Every balance is zero exactly when the two sides count each element alike, modulo the
  -- characteristic.
  pub balances-occurrences :
      (x : k.F) (fxs gxs : List (Evaluations k)) (mfxs mgxs : List (Option (List k.F)))
      → (is_zero k
            (balance k x k.zero_F (side_counts k fxs mfxs ++ negated k (side_counts k gxs mgxs)))
          ≡ true)
        ↔ (occurrences k x fxs mfxs % k.modulus ≡ occurrences k x gxs mgxs % k.modulus)
  balances-occurrences x fxs gxs mfxs mgxs =
      let l = side_counts k fxs mfxs in
      let r = side_counts k gxs mgxs in
      let (c, e) = added-negated x r in
      let total = balance-added x k.zero_F (l ++ negated k r) in
      let parts = added-append k x l (negated k r) in
      let whole : k.into_bigint k.zero_F + added k x (l ++ negated k r)
          ≡ added k x l + added k x (negated k r) =
        omega (arith, parts, law.into_bigint-zero) in
      let value = total ∙ ap (λ t. t % k.modulus) whole in
      let sides = eq-mod_iff (added k x l) (added k x r) (added k x (negated k r)) c k.modulus e in
      let left = added-side_counts k x fxs mfxs law.into_bigint-one in
      let right = added-side_counts k x gxs mgxs law.into_bigint-one in
      (
        (λ h. rw (← left, ← right) (sides.0 (sym value ∙ (==_iff _ _).0 h ∙ law.into_bigint-zero))),
        (λ h. (==_iff _ _).1 (value ∙ sides.1 (rw (left, right) h) ∙ sym law.into_bigint-zero)),
      )
