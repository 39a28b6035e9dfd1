-- ===== src/Datafusion/Plans.antt =====
-- `datafusion_expr::{Expr, LogicalPlan}`: the variants that the program takes apart, each with the
-- fields that it reads or rebuilds. Lists and options of expressions are types of the block.
use truth_table.Common.{Bool, List, Option, String, ℕ, Result}
use truth_table.Datafusion.Host.{Host, TtError}
use truth_table.Datafusion.Arrow.{DataType, Schema}
use truth_table.Datafusion.Scalar.{ScalarValue}
use truth_table.Datafusion.Enums.{Operator, JoinType, JoinConstraint}

pub record Column (h : Host) : Type 0 where
  pub relation : Option h.TableReference
  pub name : String

mutual
  pub data Expr (h : Host) : Type 0 where
    column : Column h → Expr h
    literal : ScalarValue h → Expr h
    binary_expr : Expr h → Operator → Expr h → Expr h
    cast try_cast : Expr h → DataType h → Expr h
    alias : Expr h → Option h.TableReference → String → Expr h
    aggregate_function :
        h.AggregateUdf → Exprs h → Bool → OptExpr h → OptSorts h → Option h.NullTreatment → Expr h
    between : Expr h → Bool → Expr h → Expr h → Expr h
    in_list : Expr h → Exprs h → Bool → Expr h
    scalar_function : h.ScalarUdf → Exprs h → Expr h
    in_subquery : Expr h → Subquery h → Bool → Expr h
    case : OptExpr h → ExprPairs h → OptExpr h → Expr h
    scalar_subquery : Subquery h → Expr h
    exists : Subquery h → Bool → Expr h
    other_expr : h.OtherExpr → Expr h

  pub data Exprs (h : Host) : Type 0 where
    nil : Exprs h
    cons : Expr h → Exprs h → Exprs h

  pub data OptExpr (h : Host) : Type 0 where
    absent : OptExpr h
    present : Expr h → OptExpr h

  pub data ExprPairs (h : Host) : Type 0 where
    no_pairs : ExprPairs h
    pair : Expr h → Expr h → ExprPairs h → ExprPairs h

  -- an expression, ascending, nulls first
  pub data SortExpr (h : Host) : Type 0 where
    sort_expr : Expr h → Bool → Bool → SortExpr h

  pub data Sorts (h : Host) : Type 0 where
    no_sorts : Sorts h
    then_by : SortExpr h → Sorts h → Sorts h

  pub data OptSorts (h : Host) : Type 0 where
    no_order : OptSorts h
    ordered : Sorts h → OptSorts h

  -- a plan and its outer reference columns
  pub data Subquery (h : Host) : Type 0 where
    subquery : LogicalPlan h → Exprs h → Subquery h

  pub data LogicalPlan (h : Host) : Type 0 where
    table_scan :
        h.TableReference
        → h.Source
        → Option (List ℕ)
        → Exprs h
        → Option ℕ
        → h.DFSchema
        → LogicalPlan h
    projection : Exprs h → LogicalPlan h → h.DFSchema → LogicalPlan h
    filter : Expr h → LogicalPlan h → Bool → LogicalPlan h
    aggregate : LogicalPlan h → Exprs h → Exprs h → h.DFSchema → LogicalPlan h
    sort : Sorts h → LogicalPlan h → Option ℕ → LogicalPlan h
    join :
        LogicalPlan h
        → LogicalPlan h
        → ExprPairs h
        → OptExpr h
        → JoinType
        → JoinConstraint
        → h.DFSchema
        → Bool
        → LogicalPlan h
    subquery_alias : LogicalPlan h → h.TableReference → h.DFSchema → LogicalPlan h
    -- skip, fetch, input
    limit : OptExpr h → OptExpr h → LogicalPlan h → LogicalPlan h
    -- the program's two extension nodes
    rematerialize result_check : LogicalPlan h → LogicalPlan h
    other_plan : h.OtherPlan → LogicalPlan h

-- What the program calls of DataFusion on these types: the schema of a source and of a plan, the
-- source of an empty table, the lookup of functions in a session, and the nodes' constructors.
pub record Library (h : Host) : Type 0 where
  pub source_schema : h.Source → Schema h
  pub empty_source : Schema h → h.Source
  pub plan_schema : LogicalPlan h → h.DFSchema
  pub udaf : String → Result (TtError h) h.AggregateUdf
  pub udf : String → Result (TtError h) h.ScalarUdf
  pub table_scan_try_new :
      h.TableReference
      → h.Source
      → Option (List ℕ)
      → Exprs h
      → Option ℕ
      → Result (TtError h) (LogicalPlan h)
  pub projection_try_new : Exprs h → LogicalPlan h → Result (TtError h) (LogicalPlan h)
  pub filter_try_new : Expr h → LogicalPlan h → Result (TtError h) (LogicalPlan h)
  pub filter_try_new_with_having : Expr h → LogicalPlan h → Result (TtError h) (LogicalPlan h)
  pub aggregate_try_new : LogicalPlan h → Exprs h → Exprs h → Result (TtError h) (LogicalPlan h)
  pub subquery_alias_try_new : LogicalPlan h → h.TableReference → Result (TtError h) (LogicalPlan h)
  pub build_join_schema : h.DFSchema → h.DFSchema → JoinType → Result (TtError h) h.DFSchema
