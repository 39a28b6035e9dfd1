-- ===== src/Planner/MergeLimits/Rows.antt =====
-- The rows of a limit before and after `merge_limits`.
use truth_table.Common.{
  ℕ, zero, suc, ◌≤◌, ◌≡◌, refl, ap, List, [], ◌∷◌, Option, none, some, Bool, true, false, take,
  drop, length, arith, if◌then◌else◌,
}
use truth_table.Common.Int.{ℤ, pos, negsuc, eqb_ℤ}
use truth_table.Datafusion.Host.{Host}
use truth_table.Datafusion.Plans.{OptExpr, LogicalPlan}
use truth_table.Planner.Rewrite.{Transformed}
use truth_table.Planner.MergeLimits.{
  skip_value, fetch_value, same_bounds, merge_inner, merge_limits,
}

-- The rows that a plan returns. A limit whose bounds are not negative skips and fetches; without a
-- fetch it returns every row that is left, which are at most as many as an `i64` counts.
pub record Rows (h : Host) : Type 1 where
  pub Row : Type 0
  pub rows : LogicalPlan h → List Row
  pub rows-limit :
      (skip fetch : OptExpr h) (input : LogicalPlan h) (s f : ℕ)
      → skip_value skip ≡ some (pos s)
      → fetch_value fetch ≡ some (pos f)
      → rows (LogicalPlan.limit skip fetch input) ≡ take f (drop s (rows input))

module _ {A : Type 0} where
  take-all : (n : ℕ) (xs : List A) → length xs ≤ n → take n xs ≡ xs
  take-all zero [] h = refl
  take-all zero (x ∷ xs) h = absurd (omega (arith, h))
  take-all (suc n) [] h = refl
  take-all (suc n) (x ∷ xs) h = ap (λ ys. x ∷ ys) (take-all n xs (omega (arith, h)))

  length-take_le : (n : ℕ) (xs : List A) → length (take n xs) ≤ n
  length-take_le zero xs = omega arith
  length-take_le (suc n) [] = omega arith
  length-take_le (suc n) (x ∷ xs) = omega (arith, length-take_le n xs)

  length-drop_le : (n : ℕ) (xs : List A) → length (drop n xs) ≤ length xs
  length-drop_le zero xs = omega arith
  length-drop_le (suc n) [] = omega arith
  length-drop_le (suc n) (x ∷ xs) = omega (arith, length-drop_le n xs)

  -- the same limit twice
  take-drop_twice :
      (s f : ℕ) (xs : List A) → take f (drop s (take f (drop s xs))) ≡ drop s (take f (drop s xs))
  take-drop_twice s f xs =
      take-all f (drop s (take f (drop s xs)))
        (omega (arith, length-take_le f (drop s xs), length-drop_le s (take f (drop s xs))))

eqb_ℤ-eq : (a b : ℤ) → eqb_ℤ a b ≡ true → a ≡ b
eqb_ℤ-eq (pos a) (pos b) e = ground arith
eqb_ℤ-eq (negsuc a) (negsuc b) e = ground arith
eqb_ℤ-eq (pos a) (negsuc b) e = cc
eqb_ℤ-eq (negsuc a) (pos b) e = cc

same_bounds-eq :
    (s s' f f' : Option ℤ) (a b : ℤ)
    → s ≡ some a
    → f ≡ some b
    → same_bounds s s' f f' ≡ true
    → (s' ≡ some a) × (f' ≡ some b)
unfolding same_bounds
same_bounds-eq (some s) (some s') (some f) (some f') a b es ef e =
    ground (arith, eqb_ℤ-eq s s', eqb_ℤ-eq f f')
same_bounds-eq none s' f f' a b es ef e = cc
same_bounds-eq (some s) none f f' a b es ef e = cc
same_bounds-eq (some s) (some s') none f' a b es ef e = cc
same_bounds-eq (some s) (some s') (some f) none a b es ef e = cc

module _ {h : Host} (sem : Rows h) where
  twice_rows :
      (skip fetch skip' fetch' : OptExpr h) (input : LogicalPlan h) (s f : ℕ)
      → skip_value skip ≡ some (pos s)
      → fetch_value fetch ≡ some (pos f)
      → (skip_value skip' ≡ some (pos s)) × (fetch_value fetch' ≡ some (pos f))
      → sem.rows (LogicalPlan.limit skip fetch (LogicalPlan.limit skip' fetch' input))
        ≡ drop s (sem.rows (LogicalPlan.limit skip fetch input))
  twice_rows skip fetch skip' fetch' input s f es ef same =
      rw
        (
          sem.rows-limit skip fetch (LogicalPlan.limit skip' fetch' input) s f es ef,
          sem.rows-limit skip' fetch' input s f same.0 same.1,
          sem.rows-limit skip fetch input s f es ef,
        )
        (take-drop_twice s f (sem.rows input))

  merged_rows :
      (same : Bool) (twice kept : LogicalPlan h) (s : ℕ) {plan : LogicalPlan h}
      → (same ≡ true → sem.rows twice ≡ drop s (sem.rows kept))
      → (if same then Transformed.yes kept else Transformed.no twice) ≡ Transformed.yes plan
      → sem.rows twice ≡ drop s (sem.rows plan)
  merged_rows true twice kept s shown e = ground (arith, shown refl)
  merged_rows false twice kept s shown e = cc

  inner_rows :
      (skip fetch : OptExpr h) (input : LogicalPlan h) (s f : ℕ) {plan : LogicalPlan h}
      → skip_value skip ≡ some (pos s)
      → fetch_value fetch ≡ some (pos f)
      → merge_inner skip fetch input ≡ Transformed.yes plan
      → sem.rows (LogicalPlan.limit skip fetch input) ≡ drop s (sem.rows plan)
  unfolding merge_inner
  inner_rows skip fetch (LogicalPlan.limit skip' fetch' input) s f es ef e =
      merged_rows
        (same_bounds (skip_value skip) (skip_value skip') (fetch_value fetch) (fetch_value fetch'))
        (LogicalPlan.limit skip fetch (LogicalPlan.limit skip' fetch' input))
        (LogicalPlan.limit skip fetch input) s
        (λ same.
          twice_rows skip fetch skip' fetch' input s f es ef
            (same_bounds-eq _ _ _ _ (pos s) (pos f) es ef same))
        e
  inner_rows skip fetch _ s f es ef e = cc

  -- Where `merge_limits` changes a limit with bounds that are not negative, the rows of the limit are
  -- those of the new plan without the first `s`, where `s` is the limit's skip.
  pub merge_limits-rows :
      (skip fetch : OptExpr h) (input : LogicalPlan h) (s f : ℕ) {plan : LogicalPlan h}
      → skip_value skip ≡ some (pos s)
      → fetch_value fetch ≡ some (pos f)
      → merge_limits (LogicalPlan.limit skip fetch input) ≡ Transformed.yes plan
      → sem.rows (LogicalPlan.limit skip fetch input) ≡ drop s (sem.rows plan)
  unfolding merge_limits
  merge_limits-rows skip fetch input s f = inner_rows skip fetch input s f
