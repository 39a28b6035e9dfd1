-- ===== src/Codec/Decode.antt =====
-- The `to_*` functions of crates/tt-core/src/irs/codec.rs: from the serialisable form back to DataFusion's
-- plans, through DataFusion's own constructors of nodes.
use truth_table.Common.{Option, none, some, String, Bool, true, false, Result, ok, ◌>>=◌}
use truth_table.Datafusion.Host.{Host, TtError}
use truth_table.Datafusion.Plans.{
  Column, Expr, Exprs, OptExpr, ExprPairs, SortExpr, Sorts, OptSorts, Subquery, LogicalPlan,
  Library,
}
use truth_table.Codec.DataTypes.{to_data_type, to_schema}
use truth_table.Codec.Scalars.{to_value}
use truth_table.Codec.Enums.{to_operator, to_join_type, to_join_constraint}
use truth_table.Codec.Reprs.{
  ColumnRepr, ExprRepr, ExprReprs, OptExprRepr, ExprReprPairs, SortRepr, SortReprs, OptSortReprs,
  SubqueryRepr, LogicalPlanRepr,
}

-- `relation.as_ref().map(|r| TableReference::from(r.clone()))`
unfoldable pub relation_from : (h : Host) → Option String → Option h.TableReference
relation_from h none = none
relation_from h (some r) = some (h.reference_from r)

unfoldable pub to_column : {h : Host} → ColumnRepr → Column h
to_column {h} c = record { relation = relation_from h c.relation; name = c.name }

module _ {h : Host} (lib : Library h) where
  unfoldable pub rebuild_filter : Bool → Expr h → LogicalPlan h → Result (TtError h) (LogicalPlan h)
  rebuild_filter true predicate input = lib.filter_try_new_with_having predicate input
  rebuild_filter false predicate input = lib.filter_try_new predicate input

  unfoldable mutual
    pub to_expr : ExprRepr h → Result (TtError h) (Expr h)
    to_expr (ExprRepr.column c) = ok (Expr.column (to_column c))
    to_expr (ExprRepr.literal r) = do v ← to_value r; ok (Expr.literal v)
    to_expr (ExprRepr.binary_expr l op r) = do
      l' ← to_expr l
      r' ← to_expr r
      ok (Expr.binary_expr l' (to_operator op) r')
    to_expr (ExprRepr.cast e t) = do e' ← to_expr e; t' ← to_data_type t; ok (Expr.cast e' t')
    to_expr (ExprRepr.alias e rel name) = do
      e' ← to_expr e
      ok (Expr.alias e' (relation_from h rel) name)
    to_expr (ExprRepr.aggregate_function f args distinct flt order) = do
      f' ← lib.udaf f
      args' ← to_exprs args
      flt' ← to_opt_expr flt
      order' ← to_opt_sorts order
      ok (Expr.aggregate_function f' args' distinct flt' order' none)
    to_expr (ExprRepr.between e negated low high) = do
      e' ← to_expr e
      low' ← to_expr low
      high' ← to_expr high
      ok (Expr.between e' negated low' high')
    to_expr (ExprRepr.in_list e es negated) = do
      e' ← to_expr e
      es' ← to_exprs es
      ok (Expr.in_list e' es' negated)
    to_expr (ExprRepr.scalar_function f args) = do
      f' ← lib.udf f
      args' ← to_exprs args
      ok (Expr.scalar_function f' args')
    to_expr (ExprRepr.in_subquery e q negated) = do
      q' ← to_subquery q
      e' ← to_expr e
      ok (Expr.in_subquery e' q' negated)
    to_expr (ExprRepr.case e whens other) = do
      e' ← to_opt_expr e
      whens' ← to_expr_pairs whens
      other' ← to_opt_expr other
      ok (Expr.case e' whens' other')

    pub to_exprs : ExprReprs h → Result (TtError h) (Exprs h)
    to_exprs ExprReprs.nil = ok Exprs.nil
    to_exprs (ExprReprs.cons e es) = do e' ← to_expr e; es' ← to_exprs es; ok (Exprs.cons e' es')

    pub to_opt_expr : OptExprRepr h → Result (TtError h) (OptExpr h)
    to_opt_expr OptExprRepr.absent = ok OptExpr.absent
    to_opt_expr (OptExprRepr.present e) = do e' ← to_expr e; ok (OptExpr.present e')

    pub to_expr_pairs : ExprReprPairs h → Result (TtError h) (ExprPairs h)
    to_expr_pairs ExprReprPairs.no_pairs = ok ExprPairs.no_pairs
    to_expr_pairs (ExprReprPairs.pair l r ps) = do
      l' ← to_expr l
      r' ← to_expr r
      ps' ← to_expr_pairs ps
      ok (ExprPairs.pair l' r' ps')

    pub to_sort : SortRepr h → Result (TtError h) (SortExpr h)
    to_sort (SortRepr.sort_expr e asc nulls_first) = do
      e' ← to_expr e
      ok (SortExpr.sort_expr e' asc nulls_first)

    pub to_sorts : SortReprs h → Result (TtError h) (Sorts h)
    to_sorts SortReprs.no_sorts = ok Sorts.no_sorts
    to_sorts (SortReprs.then_by s ss) = do
      s' ← to_sort s
      ss' ← to_sorts ss
      ok (Sorts.then_by s' ss')

    pub to_opt_sorts : OptSortReprs h → Result (TtError h) (OptSorts h)
    to_opt_sorts OptSortReprs.no_order = ok OptSorts.no_order
    to_opt_sorts (OptSortReprs.ordered ss) = do ss' ← to_sorts ss; ok (OptSorts.ordered ss')

    pub to_subquery : SubqueryRepr h → Result (TtError h) (Subquery h)
    to_subquery (SubqueryRepr.subquery p es) = do
      p' ← to_plan p
      es' ← to_exprs es
      ok (Subquery.subquery p' es')

    pub to_plan : LogicalPlanRepr h → Result (TtError h) (LogicalPlan h)
    to_plan (LogicalPlanRepr.table_scan name schema projection filters fetch) = do
      schema' ← to_schema schema
      filters' ← to_exprs filters
      lib.table_scan_try_new (h.reference_from name) (lib.empty_source schema') projection filters'
          fetch
    to_plan (LogicalPlanRepr.projection es input) = do
      input' ← to_plan input
      es' ← to_exprs es
      lib.projection_try_new es' input'
    to_plan (LogicalPlanRepr.filter predicate input having) = do
      input' ← to_plan input
      predicate' ← to_expr predicate
      rebuild_filter having predicate' input'
    to_plan (LogicalPlanRepr.aggregate group aggr input) = do
      input' ← to_plan input
      group' ← to_exprs group
      aggr' ← to_exprs aggr
      lib.aggregate_try_new input' group' aggr'
    to_plan (LogicalPlanRepr.sort ss input fetch) = do
      input' ← to_plan input
      ss' ← to_sorts ss
      ok (LogicalPlan.sort ss' input' fetch)
    to_plan (LogicalPlanRepr.join left right on flt type constraint null_equals_null) = do
      left' ← to_plan left
      right' ← to_plan right
      on' ← to_expr_pairs on
      let type' = to_join_type type
      schema ← lib.build_join_schema (lib.plan_schema left') (lib.plan_schema right') type'
      flt' ← to_opt_expr flt
      ok (
          LogicalPlan.join left' right' on' flt' type' (to_join_constraint constraint) schema
            null_equals_null)
    to_plan (LogicalPlanRepr.subquery_alias input name) = do
      input' ← to_plan input
      lib.subquery_alias_try_new input' (h.reference_from name)
    to_plan (LogicalPlanRepr.limit input skip fetch) = do
      input' ← to_plan input
      skip' ← to_opt_expr skip
      fetch' ← to_opt_expr fetch
      ok (LogicalPlan.limit skip' fetch' input')
    to_plan (LogicalPlanRepr.extension_rematerialize input) = do
      input' ← to_plan input
      ok (LogicalPlan.rematerialize input')
    to_plan (LogicalPlanRepr.extension_result_check input) = do
      input' ← to_plan input
      ok (LogicalPlan.result_check input')
