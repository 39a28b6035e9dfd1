-- ===== src/Planner/SortFetch/Rows.antt =====
-- The rows of a sort before and after `normalize_plan_node`.
use truth_table.Common.{ℕ, ◌≡◌, refl, some, none, ok, take, arith}
use truth_table.Common.Int.{pos}
use truth_table.Datafusion.Host.{Host}
use truth_table.Datafusion.Scalar.{ScalarValue}
use truth_table.Datafusion.Plans.{Expr, OptExpr, Sorts, LogicalPlan}
use truth_table.Planner.Rewrite.{Transformed}
use truth_table.Planner.MergeLimits.{skip_value, fetch_value, int64_literal}
use truth_table.Planner.MergeLimits.Rows.{Rows}
use truth_table.Planner.SortFetch.{normalize_plan_node}

skip-absent : (h : Host) → skip_value {h = h} OptExpr.absent ≡ some (pos 0)
unfolding skip_value
skip-absent h = refl

fetch-int64 :
    (h : Host) (n : ℕ)
    → fetch_value {h = h} (OptExpr.present (Expr.literal (ScalarValue.int64 (some (pos n)))))
      ≡ some (pos n)
unfolding fetch_value int64_literal
fetch-int64 h n = refl

-- If a sort that fetches returns the first rows of the full sort, then where `normalize_plan_node`
-- changes a plan, the new plan returns the same rows.
pub normalize_plan_node-rows :
    {h : Host} (sem : Rows h)
    → ((ss : Sorts h) (input : LogicalPlan h) (n : ℕ)
        → sem.rows (LogicalPlan.sort ss input (some n))
          ≡ take n (sem.rows (LogicalPlan.sort ss input none)))
    → (input : LogicalPlan h) {plan : LogicalPlan h}
    → normalize_plan_node input ≡ ok (Transformed.yes plan)
    → sem.rows plan ≡ sem.rows input
unfolding normalize_plan_node
normalize_plan_node-rows {h = h} sem rows-sort (LogicalPlan.sort ss input (some n)) e =
    let cut =
      sem.rows-limit OptExpr.absent
        (OptExpr.present (Expr.literal (ScalarValue.int64 (some (pos n)))))
        (LogicalPlan.sort ss input none) 0 n (skip-absent h) (fetch-int64 h n) in
    let fetched = rows-sort ss input n in ground (arith, cut, fetched, e)
normalize_plan_node-rows sem rows-sort _ e = cc
