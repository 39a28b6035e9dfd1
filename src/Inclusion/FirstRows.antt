-- ===== src/Inclusion/FirstRows.antt =====
-- What the multiplicities of an inclusion are (crates/tt-col-toolbox/src/lookup/utils.rs).
use native.Mathlib.Nat.{mod-eq_of_lt}
use truth_table.Common.{
  ℕ, suc, ◌+◌, ◌%◌, ◌≡◌, refl, sym, ap, ap₂, ◌∙◌, List, [], ◌∷◌, map, length, Option, none, some,
  Bool, true, false, ◌||◌, if◌then◌else◌, arith, Bool-cases, inl, inr,
}
use truth_table.Field.{PrimeField, IsLawful, eqb_F}
use truth_table.Inclusion.{
  Column, rows_of, add_one, count_rows, vec_multiplicity_count, get_count, insert_zero, pushed_mult,
  map_after, super_mults, calc_inclusion_multiplicity,
}

module _ (k : PrimeField) where
  -- the number of active rows with a value
  abbrev pub occurrences : k.F → List (k.F × Bool) → ℕ
  occurrences x [] = 0
  occurrences x ((v, false) ∷ rows) = occurrences x rows
  occurrences x ((v, true) ∷ rows) =
      let rest = occurrences x rows in if eqb_F k v x then 1 + rest else rest

  abbrev pub is_in : k.F → List k.F → Bool
  is_in x [] = false
  is_in x (v ∷ vs) = eqb_F k v x || is_in x vs

  -- the first active row of a value has all its occurrences, every other row none
  abbrev pub first_rows : List (k.F × Bool) → List k.F → List (k.F × Bool) → List ℕ
  first_rows included seen [] = []
  first_rows included seen ((v, false) ∷ rows) = 0 ∷ first_rows included seen rows
  first_rows included seen ((v, true) ∷ rows) =
      (if is_in v seen then 0 else occurrences v included) ∷ first_rows included (v ∷ seen) rows

  length-first_rows :
      (included : List (k.F × Bool)) (seen : List k.F) (rows : List (k.F × Bool))
      → length (first_rows included seen rows) ≡ length rows
  length-first_rows included seen [] = refl
  length-first_rows included seen ((v, false) ∷ rows) =
      ap suc (length-first_rows included seen rows)
  length-first_rows included seen ((v, true) ∷ rows) =
      ap suc (length-first_rows included (v ∷ seen) rows)

  abbrev or_zero : Option ℕ → ℕ
  or_zero none = 0
  or_zero (some c) = c

  abbrev count_in : k.F → List (k.F × ℕ) → ℕ
  count_in x [] = 0
  count_in x ((key, count) ∷ m) = let rest = count_in x m in if eqb_F k key x then count else rest

  count_in-get_count : (x : k.F) (m : List (k.F × ℕ)) → or_zero (get_count k x m) ≡ count_in x m
  count_in-get_count x [] = refl
  count_in-get_count x ((key, count) ∷ m) = ground (arith, count_in-get_count x m)

  count_in-add_one :
      (x v : k.F) (m : List (k.F × ℕ))
      → count_in x (add_one k v m) ≡ (if eqb_F k v x then 1 + count_in x m else count_in x m)
  unfolding add_one
  count_in-add_one x v [] = refl
  count_in-add_one x v ((key, count) ∷ m) = ground (arith, count_in-add_one x v m)

  count_in-insert_zero :
      (x v : k.F) (m : List (k.F × ℕ))
      → count_in x (insert_zero k v m) ≡ (if eqb_F k v x then 0 else count_in x m)
  unfolding insert_zero
  count_in-insert_zero x v [] = ground arith
  count_in-insert_zero x v ((key, count) ∷ m) = ground (arith, count_in-insert_zero x v m)

  count_in-count_rows :
      (x : k.F) (rows : List (k.F × Bool)) (m : List (k.F × ℕ))
      → count_in x (count_rows k rows m) ≡ occurrences x rows + count_in x m
  unfolding count_rows
  count_in-count_rows x [] m = omega arith
  count_in-count_rows x ((v, false) ∷ rows) m = count_in-count_rows x rows m
  count_in-count_rows x ((v, true) ∷ rows) m =
      ground (arith, count_in-count_rows x rows (add_one k v m), count_in-add_one x v m)

  occurrences-eqb_F :
      (v x : k.F) (rows : List (k.F × Bool))
      → eqb_F k v x ≡ true
      → occurrences v rows ≡ occurrences x rows
  occurrences-eqb_F v x [] e = refl
  occurrences-eqb_F v x ((w, false) ∷ rows) e = occurrences-eqb_F v x rows e
  occurrences-eqb_F v x ((w, true) ∷ rows) e = ground (arith, e, occurrences-eqb_F v x rows e)

  count_in-eqb_F :
      (v x : k.F) (m : List (k.F × ℕ)) → eqb_F k v x ≡ true → count_in v m ≡ count_in x m
  count_in-eqb_F v x [] e = refl
  count_in-eqb_F v x ((key, count) ∷ m) e = ground (arith, e, count_in-eqb_F v x m e)

  is_in-eqb_F : (v x : k.F) (vs : List k.F) → eqb_F k v x ≡ true → is_in v vs ≡ is_in x vs
  is_in-eqb_F v x [] e = refl
  is_in-eqb_F v x (w ∷ vs) e = ground (arith, e, is_in-eqb_F v x vs e)

  abbrev pub is_active : k.F → List (k.F × Bool) → Bool
  is_active x [] = false
  is_active x ((v, false) ∷ rows) = is_active x rows
  is_active x ((v, true) ∷ rows) = eqb_F k v x || is_active x rows

  -- the sum over the active rows of a value
  abbrev pub sum_at : k.F → List (k.F × Bool) → List ℕ → ℕ
  sum_at x [] ns = 0
  sum_at x (row ∷ rows) [] = 0
  sum_at x ((v, false) ∷ rows) (n ∷ ns) = sum_at x rows ns
  sum_at x ((v, true) ∷ rows) (n ∷ ns) =
      let rest = sum_at x rows ns in if eqb_F k v x then n + rest else rest

  sum_at-first_rows :
      (x : k.F) (included : List (k.F × Bool)) (seen : List k.F) (rows : List (k.F × Bool))
      → sum_at x rows (first_rows included seen rows)
        ≡ (if is_in x seen then 0 else if is_active x rows then occurrences x included else 0)
  sum_at-first_rows x included seen [] = ground arith
  sum_at-first_rows x included seen ((v, false) ∷ rows) = sum_at-first_rows x included seen rows
  sum_at-first_rows x included seen ((v, true) ∷ rows) =
      let ih = sum_at-first_rows x included (v ∷ seen) rows in
      elim (Bool-cases (eqb_F k v x)) [
        | inl e ↦ ground (arith, e, ih, occurrences-eqb_F v x included e, is_in-eqb_F v x seen e)
        | inr e ↦ ground (arith, e, ih)
      ]

  module _ (lawful : IsLawful k) (included : List (k.F × Bool)) where
    -- the map holds what is left of the occurrences
    abbrev Left : List k.F → List (k.F × ℕ) → Type 0
    Left seen m = (x : k.F) → count_in x m ≡ (if is_in x seen then 0 else occurrences x included)

    into_bigint-pushed_mult :
        (o : Option ℕ) → k.into_bigint (pushed_mult k o) ≡ or_zero o % k.modulus
    into_bigint-pushed_mult none =
        lawful.into_bigint-zero ∙ sym (mod-eq_of_lt (omega (arith, lawful.one-lt-modulus)))
    into_bigint-pushed_mult (some n) = lawful.into_bigint-from n

    Left-map_after :
        (v : k.F) (o : Option ℕ) (seen : List k.F) (m : List (k.F × ℕ))
        → get_count k v m ≡ o
        → Left seen m
        → Left (v ∷ seen) (map_after k v o m)
    Left-map_after v none seen m e left x =
        let none_left : count_in v m ≡ 0 = sym (count_in-get_count v m) ∙ ap or_zero e in
        elim (Bool-cases (eqb_F k v x)) [
          | inl same ↦ rw same (sym (count_in-eqb_F v x m same) ∙ none_left)
          | inr other ↦ rw other (left x)
        ]
    Left-map_after v (some n) seen m e left x = ground (arith, left x, count_in-insert_zero x v m)

    super_mults-first_rows :
        (rows : List (k.F × Bool)) (seen : List k.F) (m : List (k.F × ℕ))
        → Left seen m
        → map k.into_bigint (super_mults k rows m)
          ≡ map (λ n. n % k.modulus) (first_rows included seen rows)
    unfolding super_mults
    super_mults-first_rows [] seen m left = refl
    super_mults-first_rows ((v, false) ∷ rows) seen m left =
        ap₂ (λ n ns. n ∷ ns) (into_bigint-pushed_mult none)
          (super_mults-first_rows rows seen m left)
    super_mults-first_rows ((v, true) ∷ rows) seen m left =
        ap₂ (λ n ns. n ∷ ns)
          (into_bigint-pushed_mult (get_count k v m)
            ∙ ap (λ n. n % k.modulus) (count_in-get_count v m ∙ left v))
          (super_mults-first_rows rows (v ∷ seen) _
            (Left-map_after v (get_count k v m) seen m refl left))

  -- Over a lawful field, where the rows of both columns can be read: `calc_inclusion_multiplicity`
  -- gives one multiplicity for each row of the super column, modulo the characteristic; at the active
  -- rows that hold any one value they add up to the number of active rows of the included column that
  -- hold it, if there is such a row.
  pub calc_inclusion_multiplicity-sum_at :
      (included_col super_col : Column k) (included super : List (k.F × Bool))
      → IsLawful k
      → rows_of k included_col.data_evals included_col.activator_evals ≡ some included
      → rows_of k super_col.data_evals super_col.activator_evals ≡ some super
      → (mults : List k.F) × (ns : List ℕ) × (calc_inclusion_multiplicity k included_col super_col
          ≡ some mults)
        × (map k.into_bigint mults ≡ map (λ n. n % k.modulus) ns)
        × (length ns ≡ length super)
        × ((x : k.F)
            → sum_at x super ns ≡ (if is_active x super then occurrences x included else 0))
  unfolding calc_inclusion_multiplicity vec_multiplicity_count
  calc_inclusion_multiplicity-sum_at included_col super_col included super lawful ei es = (
    super_mults k super (count_rows k included []),
    first_rows included [] super,
    rw (ei, es) refl,
    super_mults-first_rows lawful included super [] (count_rows k included [])
        (λ x. omega (arith, count_in-count_rows x included [])),
    length-first_rows included [] super,
    λ x. sum_at-first_rows x included [] super,
  )
