-- ===== src/Codec/Reprs.antt =====
-- `LogicalPlanRepr`, `ExprRepr` and their parts (crates/tt-core/src/irs/codec.rs).
use truth_table.Common.{Bool, List, Option, String, ℕ}
use truth_table.Datafusion.Host.{Host}
use truth_table.Codec.DataTypes.{DataTypeRepr, SchemaRepr}
use truth_table.Codec.Scalars.{ScalarValueRepr}
use truth_table.Codec.Enums.{OperatorRepr, JoinTypeRepr, JoinConstraintRepr}

pub record ColumnRepr : Type 0 where
  pub relation : Option String
  pub name : String

mutual
  pub data ExprRepr (h : Host) : Type 0 where
    column : ColumnRepr → ExprRepr h
    literal : ScalarValueRepr h → ExprRepr h
    binary_expr : ExprRepr h → OperatorRepr → ExprRepr h → ExprRepr h
    cast : ExprRepr h → DataTypeRepr → ExprRepr h
    alias : ExprRepr h → Option String → String → ExprRepr h
    aggregate_function : String → ExprReprs h → Bool → OptExprRepr h → OptSortReprs h → ExprRepr h
    between : ExprRepr h → Bool → ExprRepr h → ExprRepr h → ExprRepr h
    in_list : ExprRepr h → ExprReprs h → Bool → ExprRepr h
    scalar_function : String → ExprReprs h → ExprRepr h
    in_subquery : ExprRepr h → SubqueryRepr h → Bool → ExprRepr h
    case : OptExprRepr h → ExprReprPairs h → OptExprRepr h → ExprRepr h

  pub data ExprReprs (h : Host) : Type 0 where
    nil : ExprReprs h
    cons : ExprRepr h → ExprReprs h → ExprReprs h

  pub data OptExprRepr (h : Host) : Type 0 where
    absent : OptExprRepr h
    present : ExprRepr h → OptExprRepr h

  pub data ExprReprPairs (h : Host) : Type 0 where
    no_pairs : ExprReprPairs h
    pair : ExprRepr h → ExprRepr h → ExprReprPairs h → ExprReprPairs h

  pub data SortRepr (h : Host) : Type 0 where
    sort_expr : ExprRepr h → Bool → Bool → SortRepr h

  pub data SortReprs (h : Host) : Type 0 where
    no_sorts : SortReprs h
    then_by : SortRepr h → SortReprs h → SortReprs h

  pub data OptSortReprs (h : Host) : Type 0 where
    no_order : OptSortReprs h
    ordered : SortReprs h → OptSortReprs h

  pub data SubqueryRepr (h : Host) : Type 0 where
    subquery : LogicalPlanRepr h → ExprReprs h → SubqueryRepr h

  pub data LogicalPlanRepr (h : Host) : Type 0 where
    table_scan : String → SchemaRepr → Option (List ℕ) → ExprReprs h → Option ℕ → LogicalPlanRepr h
    projection : ExprReprs h → LogicalPlanRepr h → LogicalPlanRepr h
    filter : ExprRepr h → LogicalPlanRepr h → Bool → LogicalPlanRepr h
    aggregate : ExprReprs h → ExprReprs h → LogicalPlanRepr h → LogicalPlanRepr h
    sort : SortReprs h → LogicalPlanRepr h → Option ℕ → LogicalPlanRepr h
    join :
        LogicalPlanRepr h
        → LogicalPlanRepr h
        → ExprReprPairs h
        → OptExprRepr h
        → JoinTypeRepr
        → JoinConstraintRepr
        → Bool
        → LogicalPlanRepr h
    subquery_alias : LogicalPlanRepr h → String → LogicalPlanRepr h
    limit : LogicalPlanRepr h → OptExprRepr h → OptExprRepr h → LogicalPlanRepr h
    extension_rematerialize extension_result_check : LogicalPlanRepr h → LogicalPlanRepr h
