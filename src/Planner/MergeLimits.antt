-- ===== src/Planner/MergeLimits.antt =====
-- `merge_limits` (crates/tt-proof-planner/src/lp_optimizer/merge_limits.rs): of two nested limits
-- with the same literal bounds, one is kept.
pub mod Rows
use truth_table.Common.{
  ℕ, ◌^◌, ◌-◌, Option, none, some, Bool, true, false, not, ◌||◌, if◌then◌else◌,
}
use truth_table.Common.Int.{ℤ, pos, eqb_ℤ}
use truth_table.Datafusion.Host.{Host}
use truth_table.Datafusion.Scalar.{ScalarValue}
use truth_table.Datafusion.Plans.{Expr, OptExpr, LogicalPlan}
use truth_table.Planner.Rewrite.{Transformed}

abbrev pub i64_max : ℤ
i64_max = pos (2 ^ 63 - 1)

-- the test that all four bounds are literals and the limits agree
unfoldable pub same_bounds : Option ℤ → Option ℤ → Option ℤ → Option ℤ → Bool
same_bounds (some outer_skip) (some inner_skip) (some outer_fetch) (some inner_fetch) =
    not (not (eqb_ℤ outer_skip inner_skip) || not (eqb_ℤ outer_fetch inner_fetch))
same_bounds _ _ _ _ = false

module _ {h : Host} where
  -- `Expr::Literal(ScalarValue::Int64(Some(v)))`
  unfoldable pub int64_literal : Expr h → Option ℤ
  int64_literal (Expr.literal (ScalarValue.int64 v)) = v
  int64_literal _ = none

  unfoldable pub skip_value : OptExpr h → Option ℤ
  unfolding int64_literal
  skip_value OptExpr.absent = some (pos 0)
  skip_value (OptExpr.present e) = int64_literal e

  unfoldable pub fetch_value : OptExpr h → Option ℤ
  unfolding int64_literal
  fetch_value OptExpr.absent = some i64_max
  fetch_value (OptExpr.present e) = int64_literal e

  unfoldable pub merge_inner : OptExpr h → OptExpr h → LogicalPlan h → Transformed h
  unfolding same_bounds
  merge_inner skip fetch (LogicalPlan.limit inner_skip inner_fetch input) =
      if same_bounds (skip_value skip) (skip_value inner_skip) (fetch_value fetch)
        (fetch_value inner_fetch)
      then Transformed.yes (LogicalPlan.limit skip fetch input)
      else Transformed.no
          (LogicalPlan.limit skip fetch (LogicalPlan.limit inner_skip inner_fetch input))
  merge_inner skip fetch input = Transformed.no (LogicalPlan.limit skip fetch input)

  unfoldable pub merge_limits : LogicalPlan h → Transformed h
  unfolding merge_inner
  merge_limits (LogicalPlan.limit skip fetch input) = merge_inner skip fetch input
  merge_limits plan = Transformed.no plan
