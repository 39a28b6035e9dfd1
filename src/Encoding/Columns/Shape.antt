-- ===== src/Encoding/Columns/Shape.antt =====
-- The columns that `collect_by_columns` makes: their number, their lengths and their values.
use mathlib.Core.Path.{subst}
use truth_table.Common.{
  ℕ, zero, suc, ◌+◌, ◌-◌, ◌≤◌, ◌<◌, ◌≡◌, refl, sym, ap, ◌∙◌, List, [], ◌∷◌, ◌++◌, ltb, length,
  replicate, get_elem?, some, arith, Bool-cases, inl, inr, length-append, length-replicate,
}
use truth_table.Field.{PrimeField}
use truth_table.Encoding.Columns.{
  field_at, push_row, first_column, resize, add_row, collect_rows, or_one_column,
  collect_by_columns,
}

get_elem?-last {ℓ} :
    {A : Type ℓ} (xs : List A) (x : A) → get_elem? (xs ++ x ∷ []) (length xs) ≡ some x
get_elem?-last [] x = refl
get_elem?-last (y ∷ xs) x = get_elem?-last xs x

get_elem?-init {ℓ} :
    {A : Type ℓ} (xs : List A) (x : A) (i : ℕ)
    → i < length xs
    → get_elem? (xs ++ x ∷ []) i ≡ get_elem? xs i
get_elem?-init [] x i h = absurd (omega arith)
get_elem?-init (y ∷ xs) x zero h = refl
get_elem?-init (y ∷ xs) x (suc i) h = get_elem?-init xs x i (omega arith)

pub get_elem?-replicate {ℓ} :
    {A : Type ℓ} (n : ℕ) (x : A) (i : ℕ) → i < n → get_elem? (replicate n x) i ≡ some x
get_elem?-replicate zero x i h = absurd (omega arith)
get_elem?-replicate (suc n) x zero h = refl
get_elem?-replicate (suc n) x (suc i) h = get_elem?-replicate n x i (omega arith)

module _ (k : PrimeField) where
  field_at-beyond : (xs : List k.F) (c : ℕ) → length xs ≤ c → field_at k xs c ≡ k.zero_F
  field_at-beyond [] c h = refl
  field_at-beyond (x ∷ xs) zero h = absurd (omega arith)
  field_at-beyond (x ∷ xs) (suc c) h = field_at-beyond xs c (omega arith)

  module _ (row_fn : ℕ → List k.F) where
    -- The column is column `c` of the first `idx` rows.
    abbrev pub IsColumn : ℕ → ℕ → List k.F → Type 0
    IsColumn idx c column =
        (length column ≡ idx)
        × ((i : ℕ) → i < idx → get_elem? column i ≡ some (field_at k (row_fn i) c))

    -- the columns from `c` on
    unfoldable pub AreColumns : ℕ → ℕ → List (List k.F) → Type 0
    AreColumns idx c [] = Unit
    AreColumns idx c (column ∷ columns) = IsColumn idx c column × AreColumns idx (c + 1) columns

    push-IsColumn :
        (idx c : ℕ) (column : List k.F)
        → IsColumn idx c column
        → IsColumn (idx + 1) c (column ++ field_at k (row_fn idx) c ∷ [])
    push-IsColumn idx c column h = (
      rw (length-append column (field_at k (row_fn idx) c ∷ []), h.0),
      λ i lt. elim (Bool-cases (ltb i idx)) [
        | inl e ↦
            get_elem?-init column (field_at k (row_fn idx) c) i (ground (arith, h.0))
            ∙ h.1 i (ground arith)
        | inr e ↦
            let last : i ≡ length column = ground (arith, h.0) in
            let last' : i ≡ idx = ground arith in
            ap (get_elem? (column ++ field_at k (row_fn idx) c ∷ [])) last
            ∙ get_elem?-last column (field_at k (row_fn idx) c)
            ∙ ap (λ j. some (field_at k (row_fn j) c)) (sym last')
      ],
    )

    push_row-AreColumns :
        (idx c : ℕ) (columns : List (List k.F))
        → AreColumns idx c columns
        → AreColumns (idx + 1) c (push_row k columns (row_fn idx) c)
    unfolding AreColumns push_row
    push_row-AreColumns idx c [] h = tt
    push_row-AreColumns idx c (column ∷ columns) h =
        (push-IsColumn idx c column h.0, push_row-AreColumns idx (c + 1) columns h.1)

    AreColumns-append :
        (idx c : ℕ) (xs ys : List (List k.F))
        → AreColumns idx c xs
        → AreColumns idx (c + length xs) ys
        → AreColumns idx c (xs ++ ys)
    unfolding AreColumns
    AreColumns-append idx c [] ys h hy = subst (λ n. AreColumns idx n ys) (omega arith) hy
    AreColumns-append idx c (x ∷ xs) ys h hy = (
      h.0,
      AreColumns-append idx (c + 1) xs ys h.1 (subst (λ n. AreColumns idx n ys) (omega arith) hy),
    )

    -- no row before `idx` has more than `n` values
    abbrev pub FitsIn : ℕ → ℕ → Type 0
    FitsIn idx n = (i : ℕ) → i < idx → length (row_fn i) ≤ n

    replicate-AreColumns :
        (idx m c : ℕ) → FitsIn idx c → AreColumns idx c (replicate m (replicate idx k.zero_F))
    unfolding AreColumns
    replicate-AreColumns idx zero c fits = tt
    replicate-AreColumns idx (suc m) c fits = (
      (
        length-replicate idx k.zero_F,
        λ i lt.
            get_elem?-replicate idx k.zero_F i lt
            ∙ ap some (sym (field_at-beyond (row_fn i) c (fits i lt))),
      ),
      replicate-AreColumns idx m (c + 1) (λ i lt. omega (arith, fits i lt)),
    )

    -- what the loop keeps
    abbrev Collected : ℕ → List (List k.F) → Type 0
    Collected idx columns =
        AreColumns idx 0 columns × FitsIn idx (length columns) × (0 < idx → 0 < length columns)

    length-push_row :
        (row : List k.F) (columns : List (List k.F)) (c : ℕ)
        → length (push_row k columns row c) ≡ length columns
    unfolding push_row
    length-push_row row [] c = refl
    length-push_row row (x ∷ xs) c = ap suc (length-push_row row xs (c + 1))

    resize-Collected :
        (idx : ℕ) (columns : List (List k.F))
        → AreColumns idx 0 columns
        → FitsIn idx (length columns)
        → AreColumns idx 0 (resize k idx columns (row_fn idx))
    resize-Collected idx columns h fits =
        elim (Bool-cases (ltb (length columns) (length (row_fn idx)))) [
          | inl e ↦ rw e (
              AreColumns-append idx 0 columns _ h (
                subst
                  (λ n.
                    AreColumns idx n
                      (replicate (length (row_fn idx) - length columns) (replicate idx k.zero_F)))
                  (omega arith)
                  (replicate-AreColumns idx (length (row_fn idx) - length columns) (length columns)
                    fits)))
          | inr e ↦ rw e h
        ]

    length-resize-le :
        (idx : ℕ) (columns : List (List k.F))
        → (length columns ≤ length (resize k idx columns (row_fn idx)))
          × (length (row_fn idx) ≤ length (resize k idx columns (row_fn idx)))
    length-resize-le idx columns = elim (Bool-cases (ltb (length columns) (length (row_fn idx)))) [
      | inl e ↦
          let m : ℕ = length (row_fn idx) - length columns in
          let n = length-append columns (replicate m (replicate idx k.zero_F)) in
          let r = length-replicate m (replicate idx k.zero_F) in rw e (ground arith)
      | inr e ↦ rw e (ground arith)
    ]

    first_column-Collected :
        (idx : ℕ) (columns : List (List k.F)) (row : List k.F)
        → Collected idx columns
        → AreColumns idx 0 (first_column k columns row)
          × FitsIn idx (length (first_column k columns row))
          × (0 < length (first_column k columns row) + length row)
    unfolding AreColumns
    first_column-Collected idx [] [] h = (
      ((ground (arith, h.2), λ i lt. absurd (ground (arith, h.2))), tt),
      λ i lt. absurd (ground (arith, h.2)),
      omega arith,
    )
    first_column-Collected idx [] (x ∷ row) h = (h.0, h.1, omega arith)
    first_column-Collected idx (c ∷ cs) row h = (h.0, h.1, omega arith)

    -- one row more
    add_row-Collected :
        (idx : ℕ) (columns : List (List k.F))
        → Collected idx columns
        → Collected (idx + 1) (add_row k idx columns (row_fn idx))
    unfolding add_row
    add_row-Collected idx columns h =
        let row : List k.F = row_fn idx in
        let first : List (List k.F) = first_column k columns row in
        let resized : List (List k.F) = resize k idx first row in
        let made = first_column-Collected idx columns row h in
        let long = length-resize-le idx first in
        let same : length (push_row k resized row 0) ≡ length resized =
          length-push_row row resized 0 in
        (
          push_row-AreColumns idx 0 resized (resize-Collected idx first made.0 made.1),
          λ i lt. elim (Bool-cases (ltb i idx)) [
            | inl e ↦ omega (arith, made.1 i (ground arith), long.0, same)
            | inr e ↦
                let last : i ≡ idx = ground arith in
                let fits : length (row_fn i) ≤ length resized =
                  subst (λ j. length (row_fn j) ≤ length resized) (sym last) long.1 in
                omega (arith, fits, same)
          ],
          λ p. omega (arith, made.2, long.0, long.1, same),
        )

    collect_rows-Collected :
        (n idx : ℕ) (columns : List (List k.F))
        → Collected idx columns
        → Collected (idx + n) (collect_rows k row_fn idx n columns)
    unfolding collect_rows
    collect_rows-Collected zero idx columns h = subst (λ m. Collected m columns) (omega arith) h
    collect_rows-Collected (suc n) idx columns h =
        subst
          (λ m.
            Collected m (collect_rows k row_fn (idx + 1) n (add_row k idx columns (row_fn idx))))
          (omega arith)
          (collect_rows-Collected n (idx + 1) (add_row k idx columns (row_fn idx))
            (add_row-Collected idx columns h))

    or_one_column-AreColumns :
        (rows : ℕ) (columns : List (List k.F))
        → Collected rows columns
        → AreColumns rows 0 (or_one_column k columns)
          × FitsIn rows (length (or_one_column k columns))
          × (0 < length (or_one_column k columns))
    unfolding AreColumns
    or_one_column-AreColumns rows [] h = (
      ((ground (arith, h.2), λ i lt. absurd (ground (arith, h.2))), tt),
      λ i lt. absurd (ground (arith, h.2)),
      omega arith,
    )
    or_one_column-AreColumns rows (c ∷ cs) h = (h.0, h.1, omega arith)

    -- For every number of rows: `collect_by_columns` makes at least one column; each has one value
    -- for each row, in column `c` the value that the row has at `c`, and zero where the row is
    -- shorter; and no row has more values than there are columns.
    pub collect_by_columns-AreColumns :
        (rows : ℕ)
        → AreColumns rows 0 (collect_by_columns k rows row_fn)
          × FitsIn rows (length (collect_by_columns k rows row_fn))
          × (0 < length (collect_by_columns k rows row_fn))
    unfolding collect_by_columns AreColumns
    collect_by_columns-AreColumns rows =
        or_one_column-AreColumns rows (collect_rows k row_fn 0 rows []) (
          subst (λ n. Collected n (collect_rows k row_fn 0 rows [])) (omega arith)
            (collect_rows-Collected rows 0 []
              (tt, λ i lt. absurd (omega arith), λ p. absurd (omega arith))))

    -- rows of at most one value make no second column
    add_row-one :
        (idx : ℕ) (columns : List (List k.F)) (row : List k.F)
        → length columns ≤ 1
        → length row ≤ 1
        → length (add_row k idx columns row) ≤ 1
    unfolding add_row push_row
    add_row-one idx [] [] h hr = omega arith
    add_row-one idx [] (x ∷ []) h hr = omega arith
    add_row-one idx [] (x ∷ y ∷ row) h hr = absurd (omega arith)
    add_row-one idx (c ∷ []) [] h hr = omega arith
    add_row-one idx (c ∷ []) (x ∷ []) h hr = omega arith
    add_row-one idx (c ∷ []) (x ∷ y ∷ row) h hr = absurd (omega arith)
    add_row-one idx (c ∷ d ∷ columns) row h hr = absurd (omega arith)

    collect_rows-one :
        (n idx : ℕ) (columns : List (List k.F))
        → length columns ≤ 1
        → ((i : ℕ) → length (row_fn i) ≤ 1)
        → length (collect_rows k row_fn idx n columns) ≤ 1
    unfolding collect_rows
    collect_rows-one zero idx columns h short = h
    collect_rows-one (suc n) idx columns h short =
        collect_rows-one n (idx + 1) (add_row k idx columns (row_fn idx))
          (add_row-one idx columns (row_fn idx) h (short idx)) short

    or_one_column-one :
        (columns : List (List k.F)) → length columns ≤ 1 → length (or_one_column k columns) ≡ 1
    or_one_column-one [] h = refl
    or_one_column-one (c ∷ cs) h = omega (arith, h)

    pub collect_by_columns-one :
        (rows : ℕ)
        → ((i : ℕ) → length (row_fn i) ≤ 1)
        → length (collect_by_columns k rows row_fn) ≡ 1
    unfolding collect_by_columns
    collect_by_columns-one rows short =
        or_one_column-one (collect_rows k row_fn 0 rows [])
          (collect_rows-one rows 0 [] (omega arith) short)
