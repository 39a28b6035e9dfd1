-- ===== src/Codec/Encode.antt =====
-- The `from_*` functions of crates/tt-core/src/irs/codec.rs: from DataFusion's plans to the serialisable
-- form. A variant that has none is an error.
use truth_table.Common.{Option, none, some, String, Result, ok, err, ◌>>=◌}
use truth_table.Datafusion.Host.{Host, TtError, serialization}
use truth_table.Datafusion.Plans.{
  Column, Expr, Exprs, OptExpr, ExprPairs, SortExpr, Sorts, OptSorts, Subquery, LogicalPlan,
  Library,
}
use truth_table.Codec.DataTypes.{from_data_type, from_schema}
use truth_table.Codec.Scalars.{from_value}
use truth_table.Codec.Enums.{from_operator, from_join_type, from_constraint}
use truth_table.Codec.Reprs.{
  ColumnRepr, ExprRepr, ExprReprs, OptExprRepr, ExprReprPairs, SortRepr, SortReprs, OptSortReprs,
  SubqueryRepr, LogicalPlanRepr,
}

-- `relation.as_ref().map(|r| r.to_string())`
unfoldable pub relation_to_string : (h : Host) → Option h.TableReference → Option String
relation_to_string h none = none
relation_to_string h (some r) = some (h.reference_to_string r)

unfoldable pub from_column : {h : Host} → Column h → ColumnRepr
from_column {h} c = record { relation = relation_to_string h c.relation; name = c.name }

module _ {h : Host} (lib : Library h) where
  unfoldable mutual
    pub from_expr : Expr h → Result (TtError h) (ExprRepr h)
    from_expr (Expr.column c) = ok (ExprRepr.column (from_column c))
    from_expr (Expr.literal v) = do r ← from_value v; ok (ExprRepr.literal r)
    from_expr (Expr.binary_expr l op r) = do
      l' ← from_expr l
      r' ← from_expr r
      ok (ExprRepr.binary_expr l' (from_operator op) r')
    from_expr (Expr.cast e t) = do e' ← from_expr e; t' ← from_data_type t; ok (ExprRepr.cast e' t')
    from_expr (Expr.alias e rel name) = do
      e' ← from_expr e
      ok (ExprRepr.alias e' (relation_to_string h rel) name)
    from_expr (Expr.aggregate_function f args distinct flt order nulls) = do
      args' ← from_exprs args
      flt' ← from_opt_expr flt
      order' ← from_opt_sorts order
      ok (ExprRepr.aggregate_function (h.aggregate_name f) args' distinct flt' order')
    from_expr (Expr.between e negated low high) = do
      e' ← from_expr e
      low' ← from_expr low
      high' ← from_expr high
      ok (ExprRepr.between e' negated low' high')
    from_expr (Expr.in_list e es negated) = do
      e' ← from_expr e
      es' ← from_exprs es
      ok (ExprRepr.in_list e' es' negated)
    from_expr (Expr.scalar_function f args) = do
      args' ← from_exprs args
      ok (ExprRepr.scalar_function (h.scalar_name f) args')
    from_expr (Expr.in_subquery e q negated) = do
      e' ← from_expr e
      q' ← from_subquery q
      ok (ExprRepr.in_subquery e' q' negated)
    from_expr (Expr.case e whens other) = do
      e' ← from_opt_expr e
      whens' ← from_expr_pairs whens
      other' ← from_opt_expr other
      ok (ExprRepr.case e' whens' other')
    from_expr _ = err serialization

    pub from_exprs : Exprs h → Result (TtError h) (ExprReprs h)
    from_exprs Exprs.nil = ok ExprReprs.nil
    from_exprs (Exprs.cons e es) = do
      e' ← from_expr e
      es' ← from_exprs es
      ok (ExprReprs.cons e' es')

    pub from_opt_expr : OptExpr h → Result (TtError h) (OptExprRepr h)
    from_opt_expr OptExpr.absent = ok OptExprRepr.absent
    from_opt_expr (OptExpr.present e) = do e' ← from_expr e; ok (OptExprRepr.present e')

    pub from_expr_pairs : ExprPairs h → Result (TtError h) (ExprReprPairs h)
    from_expr_pairs ExprPairs.no_pairs = ok ExprReprPairs.no_pairs
    from_expr_pairs (ExprPairs.pair l r ps) = do
      l' ← from_expr l
      r' ← from_expr r
      ps' ← from_expr_pairs ps
      ok (ExprReprPairs.pair l' r' ps')

    pub from_sort : SortExpr h → Result (TtError h) (SortRepr h)
    from_sort (SortExpr.sort_expr e asc nulls_first) = do
      e' ← from_expr e
      ok (SortRepr.sort_expr e' asc nulls_first)

    pub from_sorts : Sorts h → Result (TtError h) (SortReprs h)
    from_sorts Sorts.no_sorts = ok SortReprs.no_sorts
    from_sorts (Sorts.then_by s ss) = do
      s' ← from_sort s
      ss' ← from_sorts ss
      ok (SortReprs.then_by s' ss')

    pub from_opt_sorts : OptSorts h → Result (TtError h) (OptSortReprs h)
    from_opt_sorts OptSorts.no_order = ok OptSortReprs.no_order
    from_opt_sorts (OptSorts.ordered ss) = do ss' ← from_sorts ss; ok (OptSortReprs.ordered ss')

    pub from_subquery : Subquery h → Result (TtError h) (SubqueryRepr h)
    from_subquery (Subquery.subquery p es) = do
      p' ← from_plan p
      es' ← from_exprs es
      ok (SubqueryRepr.subquery p' es')

    pub from_plan : LogicalPlan h → Result (TtError h) (LogicalPlanRepr h)
    from_plan (LogicalPlan.table_scan name source projection filters fetch _) = do
      schema' ← from_schema (lib.source_schema source)
      filters' ← from_exprs filters
      ok (LogicalPlanRepr.table_scan (h.reference_to_string name) schema' projection filters' fetch)
    from_plan (LogicalPlan.projection es input _) = do
      es' ← from_exprs es
      input' ← from_plan input
      ok (LogicalPlanRepr.projection es' input')
    from_plan (LogicalPlan.filter predicate input having) = do
      predicate' ← from_expr predicate
      input' ← from_plan input
      ok (LogicalPlanRepr.filter predicate' input' having)
    from_plan (LogicalPlan.aggregate input group aggr _) = do
      group' ← from_exprs group
      aggr' ← from_exprs aggr
      input' ← from_plan input
      ok (LogicalPlanRepr.aggregate group' aggr' input')
    from_plan (LogicalPlan.sort ss input fetch) = do
      ss' ← from_sorts ss
      input' ← from_plan input
      ok (LogicalPlanRepr.sort ss' input' fetch)
    from_plan (LogicalPlan.join left right on flt type constraint _ null_equals_null) = do
      left' ← from_plan left
      right' ← from_plan right
      on' ← from_expr_pairs on
      flt' ← from_opt_expr flt
      ok (
          LogicalPlanRepr.join left' right' on' flt' (from_join_type type)
            (from_constraint constraint) null_equals_null)
    from_plan (LogicalPlan.subquery_alias input name _) = do
      input' ← from_plan input
      ok (LogicalPlanRepr.subquery_alias input' (h.reference_to_string name))
    from_plan (LogicalPlan.limit skip fetch input) = do
      input' ← from_plan input
      skip' ← from_opt_expr skip
      fetch' ← from_opt_expr fetch
      ok (LogicalPlanRepr.limit input' skip' fetch')
    from_plan (LogicalPlan.rematerialize input) = do
      input' ← from_plan input
      ok (LogicalPlanRepr.extension_rematerialize input')
    from_plan (LogicalPlan.result_check input) = do
      input' ← from_plan input
      ok (LogicalPlanRepr.extension_result_check input')
    from_plan (LogicalPlan.other_plan _) = err serialization
