-- ===== src/Planner/SortFetch.antt =====
-- `normalize_plan_node` of crates/tt-proof-planner/src/lp_optimizer/normalize_sort_fetch.rs: a sort
-- that fetches is a limit over a full sort.
pub mod Rows
use truth_table.Common.{ℕ, ◌^◌, Option, some, none, Result, ok, err, ltb, if◌then◌else◌}
use truth_table.Common.Int.{pos}
use truth_table.Datafusion.Host.{Host}
use truth_table.Datafusion.Scalar.{ScalarValue}
use truth_table.Datafusion.Plans.{Expr, OptExpr, LogicalPlan}
use truth_table.Planner.Rewrite.{Transformed}

-- the fetch does not fit into i64
pub data FetchError : Type 0 where
  does_not_fit : ℕ → FetchError

module _ {h : Host} where
  unfoldable pub normalize_plan_node : LogicalPlan h → Result FetchError (Transformed h)
  normalize_plan_node (LogicalPlan.sort ss input (some fetch)) =
      if ltb fetch (2 ^ 63)
      then ok (
          Transformed.yes (
            LogicalPlan.limit OptExpr.absent
              (OptExpr.present (Expr.literal (ScalarValue.int64 (some (pos fetch)))))
              (LogicalPlan.sort ss input none)))
      else err (FetchError.does_not_fit fetch)
  normalize_plan_node plan = ok (Transformed.no plan)
