-- ===== src/Tests/Planner.antt =====
-- Two nested limits over a table of five rows.
use truth_table.Common.{ℕ, List, [], ◌∷◌, Option, some, none, ok, ◌≡◌, refl, take, drop}
use truth_table.Common.Int.{ℤ, pos}
use truth_table.Datafusion.Scalar.{ScalarValue}
use truth_table.Datafusion.Plans.{Expr, Exprs, OptExpr, Sorts, LogicalPlan}
use truth_table.Planner.Rewrite.{Transformed}
use truth_table.Planner.MergeLimits.{
  skip_value, fetch_value, int64_literal, merge_limits, merge_inner, same_bounds,
}
use truth_table.Planner.MergeLimits.Rows.{Rows, merge_limits-rows}
use truth_table.Planner.SortFetch.{normalize_plan_node}
use truth_table.Planner.SortFetch.Rows.{normalize_plan_node-rows}
use truth_table.Tests.Database.{host}

abbrev limited : Option ℤ → Option ℤ → List ℕ → List ℕ
limited (some (pos s)) (some (pos f)) xs = take f (drop s xs)
limited _ _ xs = xs

unfoldable rows_of : LogicalPlan host → List ℕ
rows_of (LogicalPlan.limit skip fetch input) =
    limited (skip_value skip) (fetch_value fetch) (rows_of input)
rows_of (LogicalPlan.sort _ _ (some n)) = take n (1 ∷ 2 ∷ 3 ∷ 4 ∷ 5 ∷ [])
rows_of _ = 1 ∷ 2 ∷ 3 ∷ 4 ∷ 5 ∷ []

five_rows : Rows host
unfolding rows_of
five_rows = record {
  Row = ℕ;
  rows = rows_of;
  rows-limit = λ skip fetch input s f es ef. rw (es, ef);
}

abbrev number : ℕ → OptExpr host
number n = OptExpr.present (Expr.literal (ScalarValue.int64 (some (pos n))))

abbrev inner : LogicalPlan host
inner =
    LogicalPlan.limit (number 2) (number 3)
      (LogicalPlan.projection Exprs.nil (LogicalPlan.other_plan 0) 0)

abbrev merged : LogicalPlan host
merged = inner

skip-number : skip_value (number 2) ≡ some (pos 2)
unfolding skip_value int64_literal
skip-number = refl

fetch-number : fetch_value (number 3) ≡ some (pos 3)
unfolding fetch_value int64_literal
fetch-number = refl

merge-inner : merge_limits (LogicalPlan.limit (number 2) (number 3) inner) ≡ Transformed.yes merged
unfolding merge_limits merge_inner same_bounds skip_value fetch_value int64_literal
merge-inner = refl

merge_limits-rows_example :
    five_rows.rows (LogicalPlan.limit (number 2) (number 3) inner) ≡ drop 2 (five_rows.rows merged)
merge_limits-rows_example =
    merge_limits-rows five_rows (number 2) (number 3) inner 2 3 skip-number fetch-number merge-inner

-- the two nested limits return one row, the limit that is kept returns three
nested-rows : rows_of (LogicalPlan.limit (number 2) (number 3) inner) ≡ 5 ∷ []
unfolding rows_of skip_value fetch_value int64_literal
nested-rows = refl

merged-rows : rows_of merged ≡ 3 ∷ 4 ∷ 5 ∷ []
unfolding rows_of skip_value fetch_value int64_literal
merged-rows = refl

five_rows-sort :
    (ss : Sorts host) (input : LogicalPlan host) (n : ℕ)
    → five_rows.rows (LogicalPlan.sort ss input (some n))
      ≡ take n (five_rows.rows (LogicalPlan.sort ss input none))
unfolding rows_of five_rows
five_rows-sort ss input n = refl

abbrev top_three : LogicalPlan host
top_three = LogicalPlan.limit OptExpr.absent (number 3) (LogicalPlan.sort Sorts.no_sorts inner none)

sort-normalized :
    normalize_plan_node (LogicalPlan.sort Sorts.no_sorts inner (some 3))
    ≡ ok (Transformed.yes top_three)
unfolding normalize_plan_node
sort-normalized = refl

normalize_plan_node-rows_example :
    five_rows.rows top_three ≡ five_rows.rows (LogicalPlan.sort Sorts.no_sorts inner (some 3))
normalize_plan_node-rows_example =
    normalize_plan_node-rows five_rows five_rows-sort
      (LogicalPlan.sort Sorts.no_sorts inner (some 3)) sort-normalized
