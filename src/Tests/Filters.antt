-- ===== src/Tests/Filters.antt =====
-- The rules on filters, over plans whose rows are the numbers below four.
use truth_table.Common.{
  ℕ, ◌+◌, ◌==◌, List, [], ◌∷◌, some, Bool, true, false, ◌&&◌, ltb, ok, ◌≡◌, refl, sym, ◌∙◌,
  &&_split, arith,
}
use truth_table.Datafusion.Scalar.{ScalarValue}
use truth_table.Datafusion.Enums.{Operator, JoinType, JoinConstraint}
use truth_table.Datafusion.Plans.{Expr, ExprPairs, OptExpr, LogicalPlan}
use truth_table.Planner.Rewrite.{Transformed}
use truth_table.Planner.Filters.{
  Predicates, merge_filters, merge_into, merged_predicate, lift_join_filter,
}
use truth_table.Planner.Filters.Rows.{
  Rows, JoinRows, kept, nested_loop, passes, merge_filters-rows, lift_join_filter-rows,
}
use truth_table.Tests.Database.{host, library}

-- a number stands for the rows above it
unfoldable holds_at : Expr host → ℕ → Bool
holds_at (Expr.binary_expr l Operator.and r) n = holds_at l n && holds_at r n
holds_at (Expr.literal (ScalarValue.uint64 (some bound))) n = ltb bound n
holds_at _ n = true

abbrev is_true : Expr host → Bool
is_true (Expr.literal (ScalarValue.boolean (some true))) = true
is_true _ = false

abbrev predicates : Predicates host
predicates = record {
  same = λ a b. is_true a && is_true b;
  and = λ a b. Expr.binary_expr a Operator.and b;
}

is_true-eq : (a : Expr host) → is_true a ≡ true → a ≡ Expr.literal (ScalarValue.boolean (some true))
is_true-eq (Expr.literal (ScalarValue.boolean (some true))) e = refl
is_true-eq _ e = cc

same-eq : (a b : Expr host) → (is_true a && is_true b) ≡ true → a ≡ b
same-eq a b e =
    let (left, right) = &&_split (is_true a) (is_true b) e in
    is_true-eq a left ∙ sym (is_true-eq b right)

unfoldable numbers_of : LogicalPlan host → List ℕ
numbers_of (LogicalPlan.filter e input _) = kept (holds_at e) (numbers_of input)
numbers_of (LogicalPlan.join left right on flt JoinType.inner _ _ _) =
    nested_loop (λ l r. l == r && passes holds_at flt (l + r)) (λ l r. l + r) (numbers_of left)
      (numbers_of right)
numbers_of _ = 0 ∷ 1 ∷ 2 ∷ 3 ∷ []

four_rows : Rows library predicates
unfolding numbers_of holds_at
four_rows = record {
  Row = ℕ;
  rows = numbers_of;
  holds = holds_at;
  rows-filter = λ e input having. refl;
  rows-filter_try_new = λ e input made. ground arith;
  holds-and = λ a b n. refl;
  same-eq = same-eq;
}

-- equal numbers join to their sum
joined_rows : JoinRows four_rows
unfolding numbers_of four_rows
joined_rows = record {
  keys_match = λ on nulls l r. l == r;
  combine = λ l r. l + r;
  rows-inner_join = λ left right on flt constraint schema nulls. refl;
}

abbrev above : ℕ → Expr host
above n = Expr.literal (ScalarValue.uint64 (some n))

abbrev numbers : LogicalPlan host
numbers = LogicalPlan.other_plan 0

abbrev filtered : LogicalPlan host
filtered = LogicalPlan.filter (above 0) (LogicalPlan.filter (above 1) numbers false) false

abbrev filtered_once : LogicalPlan host
filtered_once = LogicalPlan.filter (Expr.binary_expr (above 0) Operator.and (above 1)) numbers false

filtered-merged : merge_filters library predicates filtered ≡ ok (Transformed.yes filtered_once)
unfolding merge_filters merge_into merged_predicate
filtered-merged = refl

merge_filters-rows_example : four_rows.rows filtered_once ≡ four_rows.rows filtered
merge_filters-rows_example = merge_filters-rows four_rows filtered filtered-merged

abbrev joined : OptExpr host → LogicalPlan host
joined flt =
    LogicalPlan.join numbers numbers ExprPairs.no_pairs flt JoinType.inner JoinConstraint.on 0 false

abbrev lifted : LogicalPlan host
lifted = LogicalPlan.filter (above 1) (joined OptExpr.absent) false

joined-lifted :
    lift_join_filter library (joined (OptExpr.present (above 1))) ≡ ok (Transformed.yes lifted)
unfolding lift_join_filter
joined-lifted = refl

lift_join_filter-rows_example :
    four_rows.rows lifted ≡ four_rows.rows (joined (OptExpr.present (above 1)))
lift_join_filter-rows_example =
    lift_join_filter-rows four_rows joined_rows (joined (OptExpr.present (above 1))) joined-lifted
