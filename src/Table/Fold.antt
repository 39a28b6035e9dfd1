-- ===== src/Table/Fold.antt =====
-- What `fold_all_data_columns` makes of the data columns of a table
-- (crates/tt-arithmetic/src/table.rs, table_oracle.rs).
use native.Mathlib.Nat.{mod-eq_of_lt, mod-add-mod, add-mod-mod}
use truth_table.Common.{
  ℕ, suc, ◌+◌, ◌*◌, ◌%◌, ◌≡◌, refl, sym, ap, ◌∙◌, List, [], ◌∷◌, Option, none, some, get_elem?,
  if◌then◌else◌, arith, Bool-cases, inl, inr,
}
use truth_table.Datafusion.Host.{Host}
use truth_table.Datafusion.Arrow.{Field}
use truth_table.Field.{PrimeField, IsLawful}
use truth_table.Sign.Column.{Poly}
use truth_table.Table.{
  TrackedTable, FoldedCol, is_system_column, name_of, indices_from, activator_tracked_poly,
  fold_rest, fold_polys, with_activator, fold_all_data_columns,
}

module _ {h : Host} {P : Type 0} where
  -- the entries that are not the system's
  abbrev pub data_polys : List (Field h × P) → List P
  data_polys [] = []
  data_polys ((f, p) ∷ polys) =
      let rest = data_polys polys in if is_system_column (name_of f) then rest else p ∷ rest

  -- what stands at the indices
  abbrev pub Picks : List (Field h × P) → List ℕ → List P → Type 0
  Picks polys [] [] = Unit
  Picks polys (i ∷ is) [] = ⊥
  Picks polys [] (p ∷ ps) = ⊥
  Picks polys (i ∷ is) (p ∷ ps) =
      ((f : Field h) × (get_elem? polys i ≡ some (f, p))) × Picks polys is ps

  indices_from-Picks :
      (polys : List (Field h × P)) (idx : ℕ) (rest : List (Field h × P))
      → ((j : ℕ) → get_elem? polys (idx + j) ≡ get_elem? rest j)
      → Picks polys (indices_from idx rest) (data_polys rest)
  unfolding indices_from
  indices_from-Picks polys idx [] found = tt
  indices_from-Picks polys idx ((f, p) ∷ rest) found =
      let step : Picks polys (indices_from (idx + 1) rest) (data_polys rest) =
        indices_from-Picks polys (idx + 1) rest (λ j.
          let e : idx + 1 + j ≡ idx + suc j = omega arith in
          ap (get_elem? polys) e ∙ found (suc j)) in
      let here : get_elem? polys idx ≡ some (f, p) =
        (let e : idx ≡ idx + 0 = omega arith in ap (get_elem? polys) e ∙ found 0) in
      elim (Bool-cases (is_system_column (name_of f))) [
        | inl system ↦ rw system step
        | inr other ↦ rw other ((f, here), step)
      ]

module _ (k : PrimeField) where
  -- the sum of the products of the polynomials with the challenges, at a row
  abbrev pub weighted : List (Poly k) → List k.F → ℕ → ℕ
  weighted [] challs row = 0
  weighted (p ∷ ps) [] row = 0
  weighted (p ∷ ps) (chall ∷ challs) row =
      k.into_bigint (p row) * k.into_bigint chall + weighted ps challs row

  -- the column that a fold of the given data columns is
  abbrev pub FoldsTo : Option (Poly k) → List (Poly k) → List k.F → Option (FoldedCol k) → Type 0
  FoldsTo a [] challs r = r ≡ none
  FoldsTo a (p ∷ []) challs r = r ≡ some (record { data_poly = p; activator = a })
  FoldsTo a (p ∷ q ∷ ps) [] r = r ≡ none
  FoldsTo a (p ∷ q ∷ ps) (chall ∷ challs) r =
      (s : Poly k) × (r ≡ some (record { data_poly = s; activator = a }))
      × ((row : ℕ) → k.into_bigint (s row) ≡ weighted (p ∷ q ∷ ps) (chall ∷ challs) row % k.modulus)

mod-add_term : (a b w m s : ℕ) → s ≡ (a + b % m) % m → (s + w) % m ≡ (a + (b + w)) % m
mod-add_term a b w m s e =
    let assoc : a + b + w ≡ a + (b + w) = omega arith in
    ap (λ t. (t + w) % m) (e ∙ add-mod-mod a b m) ∙ mod-add-mod (a + b) m w ∙ ap (λ t. t % m) assoc

module _ {k : PrimeField} (law : IsLawful k) where
  nothing_added :
      (folded : Poly k) (row : ℕ)
      → k.into_bigint (folded row) ≡ (k.into_bigint (folded row) + 0) % k.modulus
  nothing_added folded row =
      let e : k.into_bigint (folded row) ≡ k.into_bigint (folded row) + 0 = omega arith in
      sym (mod-eq_of_lt (law.into_bigint-lt (folded row))) ∙ ap (λ t. t % k.modulus) e

module _ {h : Host} {k : PrimeField} (law : IsLawful k) where
  fold_rest-weighted :
      (polys : List (Field h × Poly k)) (is : List ℕ) (ps : List (Poly k)) (challs : List k.F)
      (folded : Poly k)
      → Picks polys is ps
      → (s : Poly k) × (fold_rest k polys is challs folded ≡ some s)
        × ((row : ℕ)
            → k.into_bigint (s row)
              ≡ (k.into_bigint (folded row) + weighted k ps challs row) % k.modulus)
  unfolding fold_rest
  fold_rest-weighted polys [] [] challs folded found = (folded, refl, nothing_added law folded)
  fold_rest-weighted polys [] (p ∷ ps) challs folded found = absurd found
  fold_rest-weighted polys (i ∷ is) [] challs folded found = absurd found
  fold_rest-weighted polys (i ∷ is) (p ∷ ps) [] folded found =
      (folded, refl, nothing_added law folded)
  fold_rest-weighted polys (i ∷ is) (p ∷ ps) (chall ∷ challs) folded ((f, here), found) =
      let (s, e, value) =
        fold_rest-weighted polys is ps challs (λ row. k.add (folded row) (k.mul (p row) chall))
          found in
      (
        s,
        rw (here, fold_rest) e,
        λ row.
            value row
            ∙ mod-add_term (k.into_bigint (folded row))
                (k.into_bigint (p row) * k.into_bigint chall) (weighted k ps challs row) k.modulus _
                (law.into_bigint-add (folded row) (k.mul (p row) chall)
                  ∙ ap (λ t. (k.into_bigint (folded row) + t) % k.modulus)
                      (law.into_bigint-mul (p row) chall)),
      )

  fold_polys-FoldsTo :
      (a : Option (Poly k)) (polys : List (Field h × Poly k)) (is : List ℕ) (ps : List (Poly k))
      (challs : List k.F)
      → Picks polys is ps
      → FoldsTo k a ps challs (with_activator k a (fold_polys k polys is challs))
  unfolding fold_polys
  fold_polys-FoldsTo a polys [] [] challs found = refl
  fold_polys-FoldsTo a polys [] (p ∷ ps) challs found = absurd found
  fold_polys-FoldsTo a polys (i ∷ is) [] challs found = absurd found
  fold_polys-FoldsTo a polys (i ∷ []) (p ∷ []) challs ((f, here), found) =
      rw (here, fold_polys, with_activator) refl
  fold_polys-FoldsTo a polys (i ∷ []) (p ∷ q ∷ ps) challs ((f, here), found) = absurd found
  fold_polys-FoldsTo a polys (i ∷ j ∷ is) (p ∷ []) challs ((f, here), found) = absurd found
  fold_polys-FoldsTo a polys (i ∷ j ∷ is) (p ∷ q ∷ ps) [] ((f, here), found) =
      rw (here, fold_polys, with_activator) refl
  fold_polys-FoldsTo a polys (i ∷ j ∷ is) (p ∷ q ∷ ps) (chall ∷ challs) ((f, here), found) =
      let (s, e, value) =
        fold_rest-weighted polys (j ∷ is) (q ∷ ps) challs (λ row. k.mul (p row) chall) found in
      (
        s,
        rw (here, fold_polys, with_activator) (ap (with_activator k a) e),
        λ row.
            value row
            ∙ ap (λ t. (t + weighted k (q ∷ ps) challs row) % k.modulus)
                (law.into_bigint-mul (p row) chall)
            ∙ mod-add-mod (k.into_bigint (p row) * k.into_bigint chall) k.modulus _,
      )

  -- Over a lawful field, the fold of all data columns has the table's activator. It panics where there
  -- is no data column, or where there are several and no challenge. Of one data column it is that
  -- column, whatever the challenges; of several it is at each row the sum of the products of the
  -- columns' values with the challenges, modulo the characteristic. The system's columns have no part
  -- in it.
  pub fold_all_data_columns-FoldsTo :
      (t : TrackedTable h k) (challs : List k.F)
      → FoldsTo k
          (activator_tracked_poly k t)
          (data_polys t.tracked_polys)
          challs
          (fold_all_data_columns k t challs)
  unfolding fold_all_data_columns
  fold_all_data_columns-FoldsTo t challs =
      fold_polys-FoldsTo (activator_tracked_poly k t) t.tracked_polys
        (indices_from 0 t.tracked_polys) (data_polys t.tracked_polys) challs
        (indices_from-Picks t.tracked_polys 0 t.tracked_polys
          (λ j. let e : 0 + j ≡ j = omega arith in ap (get_elem? t.tracked_polys) e))
