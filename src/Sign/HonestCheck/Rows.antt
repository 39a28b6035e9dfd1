-- ===== src/Sign/HonestCheck/Rows.antt =====
-- The rows of a column that passes the honest prover's check.
use mathlib.Core.Path.{subst}
use truth_table.Common.{
  ℕ, zero, suc, ◌+◌, ◌<◌, ◌≡◌, refl, List, [], ◌∷◌, Option, none, some, true, false, Result, ok,
  err, ◌>>=◌, ◌↔◌, length, get_elem?, arith,
}
use truth_table.Datafusion.Host.{Host}
use truth_table.Field.{PrimeField}
use truth_table.Sign.Config.{Sign, SignConfig, sign_for_index}
use truth_table.Sign.Column.{TrackedCol, is_inactive}
use truth_table.Sign.HonestCheck.{
  HonestCheckError, row_passes, check_rows, check_col, check_cols, honest_prover_check,
}

both_ok :
    (m n : Result HonestCheckError (Unit {0})) → (m >>= λ _. n) ≡ ok tt → (m ≡ ok tt) × (n ≡ ok tt)
both_ok (ok u) n e = (refl, e)
both_ok (err x) n e = cc

-- what holds of the head and, from the next index on, of the tail
cons_case :
    {A : Type 0} (at : ℕ → A → Type 0) (idx : ℕ) (a : A) (xs : List A)
    → at idx a
    → ((j : ℕ) (b : A) → get_elem? xs j ≡ some b → at (idx + 1 + j) b)
    → (j : ℕ) (b : A) → get_elem? (a ∷ xs) j ≡ some b
    → at (idx + j) b
cons_case at idx a xs head tail zero b found =
    let same : a ≡ b = ground (arith, found) in
    let first : idx ≡ idx + 0 = omega arith in subst (λ i. at i b) first (subst (at idx) same head)
cons_case at idx a xs head tail (suc j) b found =
    let next : idx + 1 + j ≡ idx + suc j = omega arith in subst (λ i. at i b) next (tail j b found)

module _ {h : Host} {k : PrimeField} where
  check_rows-row_passes :
      (s : Sign) (c : TrackedCol h k) (start n j : ℕ)
      → check_rows s c start n ≡ ok tt
      → j < n
      → is_inactive c (start + j) ≡ false
      → row_passes k s c.data_type (c.data_poly (start + j)) ≡ true
  unfolding check_rows
  check_rows-row_passes s c start zero j e lt active = absurd (omega arith)
  check_rows-row_passes s c start (suc n) zero e lt active = grind arith
  check_rows-row_passes s c start (suc n) (suc j) e lt active =
      grind (arith, check_rows-row_passes s c (start + 1) n j)

  check_rows_intro :
      (s : Sign) (c : TrackedCol h k) (start n : ℕ)
      → ((j : ℕ)
          → j < n
          → is_inactive c (start + j) ≡ false
          → row_passes k s c.data_type (c.data_poly (start + j)) ≡ true)
      → check_rows s c start n ≡ ok tt
  unfolding check_rows
  check_rows_intro s c start zero passes = refl
  check_rows_intro s c start (suc n) passes =
      let rest : check_rows s c (start + 1) n ≡ ok tt =
        check_rows_intro s c (start + 1) n
          (λ j lt active. grind (arith, passes (suc j) (omega (arith, lt)) (grind arith))) in
      let head = passes 0 (omega arith) in grind (arith, rest, head)

  -- The loop over the rows of a column succeeds exactly when the value of each row that is not passed
  -- over passes the test of the sign.
  check_rows_iff :
      (s : Sign) (c : TrackedCol h k) (start n : ℕ)
      → (check_rows s c start n ≡ ok tt) ↔ (
          (j : ℕ)
          → j < n
          → is_inactive c (start + j) ≡ false
          → row_passes k s c.data_type (c.data_poly (start + j)) ≡ true)
  check_rows_iff s c start n =
      ((λ e j. check_rows-row_passes s c start n j e), check_rows_intro s c start n)

  abbrev pub RowPasses : Sign → TrackedCol h k → ℕ → Type 0
  RowPasses s c i = is_inactive c i ≡ false → row_passes k s c.data_type (c.data_poly i) ≡ true

  -- the rows that are not passed over pass the test of the column's sign
  abbrev pub RowsPass : Sign → ℕ → TrackedCol h k → Type 0
  RowsPass s rows c = (i : ℕ) → i < rows → RowPasses s c i

  -- the column has a sign, and its rows pass
  abbrev pub ColPasses : Option Sign → ℕ → TrackedCol h k → Type 0
  ColPasses o rows c = (s : Sign) × (o ≡ some s) × RowsPass s rows c

  check_col_iff :
      (o : Option Sign) (rows : ℕ) (c : TrackedCol h k)
      → (check_col o rows c ≡ ok tt) ↔ ColPasses o rows c
  check_col_iff none rows c = ((λ e. cc), (λ p. cc))
  check_col_iff (some s) rows c =
      let loop = check_rows_iff s c 0 rows in
      (
        (λ e. (
          s,
          refl,
          (λ i lt.
              let start : 0 + i ≡ i = omega arith in subst (RowPasses s c) start (loop.0 e i lt)),
        )),
        (λ p.
            let same : s ≡ p.0 = ground (arith, p.1) in
            loop.1 (λ i lt.
              let start : i ≡ 0 + i = omega arith in
              subst (RowPasses s c) start (rw same (p.2 i lt)))),
      )

  check_cols_iff :
      (cfg : SignConfig) (rows total idx : ℕ) (cs : List (TrackedCol h k))
      → (check_cols cfg rows total idx cs ≡ ok tt) ↔ (
          (j : ℕ) (c : TrackedCol h k)
          → get_elem? cs j ≡ some c
          → ColPasses (sign_for_index cfg (idx + j) total) rows c)
  unfolding check_cols
  check_cols_iff cfg rows total idx [] = ((λ e j c found. cc), (λ h. refl))
  check_cols_iff cfg rows total idx (c ∷ cs) =
      let head = check_col_iff (sign_for_index cfg idx total) rows c in
      let tail = check_cols_iff cfg rows total (idx + 1) cs in
      let at = λ (i : ℕ) (d : TrackedCol h k). ColPasses (sign_for_index cfg i total) rows d in
      let first : idx + 0 ≡ idx = omega arith in
      (
        (λ e.
            let (e0, e1) =
              both_ok (check_col (sign_for_index cfg idx total) rows c)
                (check_cols cfg rows total (idx + 1) cs) e in
            cons_case at idx c cs (head.0 e0) (tail.0 e1)),
        (λ p.
            let e0 = head.1 (subst (λ i. at i c) first (p 0 c refl)) in
            let e1 = tail.1 (λ j d found.
              let next : idx + suc j ≡ idx + 1 + j = omega arith in
              subst (λ i. at i d) next (p (suc j) d found)) in
            rw (e0, e1) refl),
      )

  -- For any values: the check succeeds exactly when each column has a sign, and its rows that are
  -- not passed over pass the test of the sign.
  pub honest_prover_check_iff :
      (cfg : SignConfig) (rows : ℕ) (cs : List (TrackedCol h k))
      → (honest_prover_check cfg rows cs ≡ ok tt) ↔ (
          (j : ℕ) (c : TrackedCol h k)
          → get_elem? cs j ≡ some c
          → ColPasses (sign_for_index cfg j (length cs)) rows c)
  unfolding honest_prover_check
  honest_prover_check_iff cfg rows cs =
      let cols = check_cols_iff cfg rows (length cs) 0 cs in
      let at =
        λ (i : ℕ) (d : TrackedCol h k). ColPasses (sign_for_index cfg i (length cs)) rows d in
      (
        (λ e j c found.
            let z : 0 + j ≡ j = omega arith in subst (λ i. at i c) z (cols.0 e j c found)),
        (λ p.
            cols.1 (λ j c found.
              let z : j ≡ 0 + j = omega arith in subst (λ i. at i c) z (p j c found))),
      )
