-- ===== src/Planner/Rewrite.antt =====
-- The outcome of a rewrite rule.
use truth_table.Datafusion.Host.{Host}
use truth_table.Datafusion.Plans.{LogicalPlan}

-- `Transformed::yes`, `Transformed::no`
pub data Transformed (h : Host) : Type 0 where
  yes no : LogicalPlan h → Transformed h
