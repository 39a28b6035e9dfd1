-- ===== src/Planner/Filters/Rows.antt =====
-- The rows of a plan before and after the rules on filters.
use truth_table.Common.{
  ◌≡◌, refl, sym, ap, ap₂, ◌∙◌, List, [], ◌∷◌, ◌++◌, Bool, true, false, ◌&&◌, Result, ok, err,
  ◌>>=◌, arith, if◌then◌else◌,
}
use truth_table.Datafusion.Host.{Host, TtError}
use truth_table.Datafusion.Enums.{JoinType, JoinConstraint}
use truth_table.Datafusion.Plans.{Expr, ExprPairs, OptExpr, LogicalPlan, Library}
use truth_table.Planner.Rewrite.{Transformed}
use truth_table.Planner.Filters.{
  Predicates, merged_predicate, merge_into, merge_filters, lift_join_filter,
}

-- the rows at which a test holds
abbrev pub kept {ℓ} : {A : Type ℓ} → (A → Bool) → List A → List A
kept f [] = []
kept f (x ∷ xs) = let rest = kept f xs in if f x then x ∷ rest else rest

-- The rows of a plan, and whether a predicate holds at a row: a filter keeps the rows at which its
-- predicate holds.
pub record Rows {h : Host} (lib : Library h) (ps : Predicates h) : Type 1 where
  pub Row : Type 0
  pub rows : LogicalPlan h → List Row
  pub holds : Expr h → Row → Bool
  pub rows-filter :
      (e : Expr h) (input : LogicalPlan h) (having : Bool)
      → rows (LogicalPlan.filter e input having) ≡ kept (holds e) (rows input)
  pub rows-filter_try_new :
      (e : Expr h) (input : LogicalPlan h) {plan : LogicalPlan h}
      → lib.filter_try_new e input ≡ ok plan
      → rows plan ≡ kept (holds e) (rows input)
  pub holds-and : (a b : Expr h) (r : Row) → holds (ps.and a b) r ≡ (holds a r && holds b r)
  pub same-eq : (a b : Expr h) → ps.same a b ≡ true → a ≡ b

-- the rows that a left row makes with the right rows that match it
abbrev pub matching {ℓ} : {A : Type ℓ} → (A → A → Bool) → (A → A → A) → A → List A → List A
matching test combine l [] = []
matching test combine l (r ∷ rs) =
    let rest = matching test combine l rs in if test l r then combine l r ∷ rest else rest

abbrev pub nested_loop {ℓ} : {A : Type ℓ} → (A → A → Bool) → (A → A → A) → List A → List A → List A
nested_loop test combine [] rs = []
nested_loop test combine (l ∷ ls) rs = matching test combine l rs ++ nested_loop test combine ls rs

-- whether the filter of a join, if it has one, holds at a row
abbrev pub passes : {h : Host} {Row : Type 0} → (Expr h → Row → Bool) → OptExpr h → Row → Bool
passes holds OptExpr.absent r = true
passes holds (OptExpr.present e) r = holds e r

-- The rows of an inner join: a left and a right row whose keys match make a row, which the join
-- returns if its filter holds there. The left rows are gone through in order, and the right rows for
-- each.
pub record JoinRows {h : Host} {lib : Library h} {ps : Predicates h} (sem : Rows lib ps)
    : Type 0 where
  pub keys_match : ExprPairs h → Bool → sem.Row → sem.Row → Bool
  pub combine : sem.Row → sem.Row → sem.Row
  pub rows-inner_join :
      (left right : LogicalPlan h) (on : ExprPairs h) (flt : OptExpr h)
      (constraint : JoinConstraint) (schema : h.DFSchema) (nulls : Bool)
      → sem.rows (LogicalPlan.join left right on flt JoinType.inner constraint schema nulls)
        ≡ nested_loop
            (λ l r. keys_match on nulls l r && passes sem.holds flt (combine l r))
            combine
            (sem.rows left)
            (sem.rows right)

kept-append :
    {A : Type 0} (f : A → Bool) (xs ys : List A) → kept f (xs ++ ys) ≡ kept f xs ++ kept f ys
kept-append f [] ys = refl
kept-append f (x ∷ xs) ys = ground (arith, kept-append f xs ys)

module _ {A : Type 0} (f : A → Bool) (t : A → A → Bool) (c : A → A → A) where
  kept-matching :
      (l : A) (rs : List A)
      → kept f (matching (λ a b. t a b && true) c l rs)
        ≡ matching (λ a b. t a b && f (c a b)) c l rs
  kept-matching l [] = refl
  kept-matching l (r ∷ rs) = ground (arith, kept-matching l rs)

  -- a test of the joined rows may be made while they are joined
  kept-nested_loop :
      (ls rs : List A)
      → kept f (nested_loop (λ a b. t a b && true) c ls rs)
        ≡ nested_loop (λ a b. t a b && f (c a b)) c ls rs
  kept-nested_loop [] rs = refl
  kept-nested_loop (l ∷ ls) rs =
      kept-append f (matching (λ a b. t a b && true) c l rs)
        (nested_loop (λ a b. t a b && true) c ls rs)
      ∙ ap₂ (λ xs ys. xs ++ ys) (kept-matching l rs) (kept-nested_loop ls rs)

kept-kept :
    {A : Type 0} (f g both : A → Bool) (xs : List A)
    → ((x : A) → both x ≡ (f x && g x))
    → kept both xs ≡ kept f (kept g xs)
kept-kept f g both [] h = refl
kept-kept f g both (x ∷ xs) h = ground (arith, h x, kept-kept f g both xs h)

kept_twice : {A : Type 0} (f : A → Bool) (xs : List A) → kept f xs ≡ kept f (kept f xs)
kept_twice f xs = kept-kept f f f xs (λ x. ground arith)

module _ {h : Host} {lib : Library h} {ps : Predicates h} (sem : Rows lib ps) where
  made_rows :
      (e : Expr h) (input : LogicalPlan h) (made : Result (TtError h) (LogicalPlan h))
      {plan : LogicalPlan h}
      → lib.filter_try_new e input ≡ made
      → (made >>= λ p. ok (Transformed.yes p)) ≡ ok (Transformed.yes plan)
      → sem.rows plan ≡ kept (sem.holds e) (sem.rows input)
  made_rows e input (ok p) f made = ground (arith, sem.rows-filter_try_new e input f)
  made_rows e input (err x) f made = cc

  predicate_rows :
      (same : Bool) (outer inner : Expr h) (xs : List sem.Row)
      → (same ≡ true → outer ≡ inner)
      → kept (sem.holds (if same then outer else ps.and outer inner)) xs
        ≡ kept (sem.holds outer) (kept (sem.holds inner) xs)
  predicate_rows true outer inner xs eq = rw (← eq refl) (kept_twice (sem.holds outer) xs)
  predicate_rows false outer inner xs eq =
      kept-kept (sem.holds outer) (sem.holds inner) (sem.holds (ps.and outer inner)) xs
        (sem.holds-and outer inner)

  merge_into_rows :
      (outer : Expr h) (having : Bool) (input : LogicalPlan h) {plan : LogicalPlan h}
      → merge_into lib ps outer having input ≡ ok (Transformed.yes plan)
      → sem.rows plan ≡ kept (sem.holds outer) (sem.rows input)
  unfolding merge_into merged_predicate
  merge_into_rows outer having (LogicalPlan.filter inner input _) e =
      made_rows (merged_predicate lib ps outer inner) input
        (lib.filter_try_new (merged_predicate lib ps outer inner) input) refl e
      ∙ predicate_rows (ps.same outer inner) outer inner (sem.rows input) (sem.same-eq outer inner)
      ∙ ap (kept (sem.holds outer)) (sym (sem.rows-filter inner input _))
  merge_into_rows outer having _ e = cc

  -- Where `merge_filters` changes a plan, the new plan returns the same rows.
  pub merge_filters-rows :
      (input : LogicalPlan h) {plan : LogicalPlan h}
      → merge_filters lib ps input ≡ ok (Transformed.yes plan)
      → sem.rows plan ≡ sem.rows input
  unfolding merge_filters
  merge_filters-rows (LogicalPlan.filter outer input having) e =
      merge_into_rows outer having input e ∙ sym (sem.rows-filter outer input having)
  merge_filters-rows _ e = cc

  -- Where `lift_join_filter` changes a plan, the new plan returns the same rows in the same order, if
  -- an inner join returns what its nested loops make: each left row with each right row whose keys
  -- match and at which, joined, the join's filter holds.
  pub lift_join_filter-rows :
      (joins : JoinRows sem) (input : LogicalPlan h) {plan : LogicalPlan h}
      → lift_join_filter lib input ≡ ok (Transformed.yes plan)
      → sem.rows plan ≡ sem.rows input
  unfolding lift_join_filter
  lift_join_filter-rows joins
        (LogicalPlan.join left right on
          (OptExpr.present flt)
          JoinType.inner
          constraint
          schema
          nulls)
        e =
      let bare =
        LogicalPlan.join left right on OptExpr.absent JoinType.inner constraint schema nulls in
      made_rows flt bare (lib.filter_try_new flt bare) refl e
      ∙ ap (kept (sem.holds flt))
          (joins.rows-inner_join left right on OptExpr.absent constraint schema nulls)
      ∙ kept-nested_loop (sem.holds flt) (joins.keys_match on nulls) joins.combine (sem.rows left)
          (sem.rows right)
      ∙ sym (joins.rows-inner_join left right on (OptExpr.present flt) constraint schema nulls)
  lift_join_filter-rows joins _ e = cc
