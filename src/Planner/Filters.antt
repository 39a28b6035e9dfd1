-- ===== src/Planner/Filters.antt =====
-- `merge_filters` and `lift_join_filter` (crates/tt-proof-planner/src/lp_optimizer). The equality
-- of expressions and the constructors `and` and `Filter::try_new` are DataFusion's.
pub mod Rows
use truth_table.Common.{Bool, none, Result, ok, ◌>>=◌, if◌then◌else◌}
use truth_table.Datafusion.Host.{Host, TtError}
use truth_table.Datafusion.Enums.{JoinType}
use truth_table.Datafusion.Plans.{Expr, OptExpr, LogicalPlan, Library}
use truth_table.Planner.Rewrite.{Transformed}

-- `Expr::eq` and `Expr::and`
pub record Predicates (h : Host) : Type 0 where
  pub same : Expr h → Expr h → Bool
  pub and : Expr h → Expr h → Expr h

module _ {h : Host} (lib : Library h) where
  unfoldable pub merged_predicate : Predicates h → Expr h → Expr h → Expr h
  merged_predicate ps outer inner = if ps.same outer inner then outer else ps.and outer inner

  unfoldable pub merge_into :
      Predicates h → Expr h → Bool → LogicalPlan h → Result (TtError h) (Transformed h)
  unfolding merged_predicate
  merge_into ps outer having (LogicalPlan.filter inner input _) = do
    merged ← lib.filter_try_new (merged_predicate ps outer inner) input
    ok (Transformed.yes merged)
  merge_into ps outer having input = ok (Transformed.no (LogicalPlan.filter outer input having))

  unfoldable pub merge_filters : Predicates h → LogicalPlan h → Result (TtError h) (Transformed h)
  unfolding merge_into
  merge_filters ps (LogicalPlan.filter outer input having) = merge_into ps outer having input
  merge_filters ps plan = ok (Transformed.no plan)

  unfoldable pub lift_join_filter : LogicalPlan h → Result (TtError h) (Transformed h)
  lift_join_filter
        (LogicalPlan.join left right on
          (OptExpr.present flt)
          JoinType.inner
          constraint
          schema
          nulls) =
      do
        lifted ←
            lib.filter_try_new flt
              (LogicalPlan.join left right on OptExpr.absent JoinType.inner constraint schema nulls)
        ok (Transformed.yes lifted)
  lift_join_filter plan = ok (Transformed.no plan)
