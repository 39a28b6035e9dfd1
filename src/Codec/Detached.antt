-- ===== src/Codec/Detached.antt =====
-- The plan that a serialised plan stands for. Serialising keeps of a table's source its schema
-- alone, and of an aggregate call everything but its treatment of nulls: `detach_*` puts an empty
-- table of the same schema in place of each source and drops each treatment of nulls.
-- `*Survives` says of a plan what DataFusion must do for it to be rebuilt: its table references
-- read back from their text, its functions are the session's functions of their names, and each
-- node of the detached plan is what DataFusion's constructor makes of its parts.
use truth_table.Common.{Option, none, some, ok, ◌≡◌}
use truth_table.Datafusion.Host.{Host}
use truth_table.Datafusion.Plans.{
  Expr, Exprs, OptExpr, ExprPairs, SortExpr, Sorts, OptSorts, Subquery, LogicalPlan, Library,
}
use truth_table.Codec.Decode.{rebuild_filter}

module _ {h : Host} (lib : Library h) where
  unfoldable mutual
    pub detach_expr : Expr h → Expr h
    detach_expr (Expr.column c) = Expr.column c
    detach_expr (Expr.literal v) = Expr.literal v
    detach_expr (Expr.binary_expr l op r) = Expr.binary_expr (detach_expr l) op (detach_expr r)
    detach_expr (Expr.cast e t) = Expr.cast (detach_expr e) t
    detach_expr (Expr.try_cast e t) = Expr.try_cast (detach_expr e) t
    detach_expr (Expr.alias e rel name) = Expr.alias (detach_expr e) rel name
    detach_expr (Expr.aggregate_function f args distinct flt order _) =
        Expr.aggregate_function f (detach_exprs args) distinct (detach_opt_expr flt)
          (detach_opt_sorts order) none
    detach_expr (Expr.between e negated low high) =
        Expr.between (detach_expr e) negated (detach_expr low) (detach_expr high)
    detach_expr (Expr.in_list e es negated) = Expr.in_list (detach_expr e) (detach_exprs es) negated
    detach_expr (Expr.scalar_function f args) = Expr.scalar_function f (detach_exprs args)
    detach_expr (Expr.in_subquery e q negated) =
        Expr.in_subquery (detach_expr e) (detach_subquery q) negated
    detach_expr (Expr.case e whens other) =
        Expr.case (detach_opt_expr e) (detach_expr_pairs whens) (detach_opt_expr other)
    detach_expr (Expr.scalar_subquery q) = Expr.scalar_subquery (detach_subquery q)
    detach_expr (Expr.exists q negated) = Expr.exists (detach_subquery q) negated
    detach_expr (Expr.other_expr x) = Expr.other_expr x

    pub detach_exprs : Exprs h → Exprs h
    detach_exprs Exprs.nil = Exprs.nil
    detach_exprs (Exprs.cons e es) = Exprs.cons (detach_expr e) (detach_exprs es)

    pub detach_opt_expr : OptExpr h → OptExpr h
    detach_opt_expr OptExpr.absent = OptExpr.absent
    detach_opt_expr (OptExpr.present e) = OptExpr.present (detach_expr e)

    pub detach_expr_pairs : ExprPairs h → ExprPairs h
    detach_expr_pairs ExprPairs.no_pairs = ExprPairs.no_pairs
    detach_expr_pairs (ExprPairs.pair l r ps) =
        ExprPairs.pair (detach_expr l) (detach_expr r) (detach_expr_pairs ps)

    pub detach_sort : SortExpr h → SortExpr h
    detach_sort (SortExpr.sort_expr e asc nulls_first) =
        SortExpr.sort_expr (detach_expr e) asc nulls_first

    pub detach_sorts : Sorts h → Sorts h
    detach_sorts Sorts.no_sorts = Sorts.no_sorts
    detach_sorts (Sorts.then_by s ss) = Sorts.then_by (detach_sort s) (detach_sorts ss)

    pub detach_opt_sorts : OptSorts h → OptSorts h
    detach_opt_sorts OptSorts.no_order = OptSorts.no_order
    detach_opt_sorts (OptSorts.ordered ss) = OptSorts.ordered (detach_sorts ss)

    pub detach_subquery : Subquery h → Subquery h
    detach_subquery (Subquery.subquery p es) = Subquery.subquery (detach_plan p) (detach_exprs es)

    pub detach_plan : LogicalPlan h → LogicalPlan h
    detach_plan (LogicalPlan.table_scan name source projection filters fetch schema) =
        LogicalPlan.table_scan name (lib.empty_source (lib.source_schema source)) projection
          (detach_exprs filters) fetch schema
    detach_plan (LogicalPlan.projection es input schema) =
        LogicalPlan.projection (detach_exprs es) (detach_plan input) schema
    detach_plan (LogicalPlan.filter predicate input having) =
        LogicalPlan.filter (detach_expr predicate) (detach_plan input) having
    detach_plan (LogicalPlan.aggregate input group aggr schema) =
        LogicalPlan.aggregate (detach_plan input) (detach_exprs group) (detach_exprs aggr) schema
    detach_plan (LogicalPlan.sort ss input fetch) =
        LogicalPlan.sort (detach_sorts ss) (detach_plan input) fetch
    detach_plan (LogicalPlan.join left right on flt type constraint schema nulls) =
        LogicalPlan.join (detach_plan left) (detach_plan right) (detach_expr_pairs on)
          (detach_opt_expr flt) type constraint schema nulls
    detach_plan (LogicalPlan.subquery_alias input name schema) =
        LogicalPlan.subquery_alias (detach_plan input) name schema
    detach_plan (LogicalPlan.limit skip fetch input) =
        LogicalPlan.limit (detach_opt_expr skip) (detach_opt_expr fetch) (detach_plan input)
    detach_plan (LogicalPlan.rematerialize input) = LogicalPlan.rematerialize (detach_plan input)
    detach_plan (LogicalPlan.result_check input) = LogicalPlan.result_check (detach_plan input)
    detach_plan (LogicalPlan.other_plan x) = LogicalPlan.other_plan x

  abbrev pub ReferenceSurvives : h.TableReference → Type 0
  ReferenceSurvives r = h.reference_from (h.reference_to_string r) ≡ r

  abbrev pub RelationSurvives : Option h.TableReference → Type 0
  RelationSurvives none = Unit
  RelationSurvives (some r) = ReferenceSurvives r

  unfoldable mutual
    pub ExprSurvives : Expr h → Type 0
    ExprSurvives (Expr.column c) = RelationSurvives c.relation
    ExprSurvives (Expr.literal v) = Unit
    ExprSurvives (Expr.binary_expr l op r) = ExprSurvives l × ExprSurvives r
    ExprSurvives (Expr.cast e t) = ExprSurvives e
    ExprSurvives (Expr.alias e rel name) = ExprSurvives e × RelationSurvives rel
    ExprSurvives (Expr.aggregate_function f args distinct flt order _) =
        (lib.udaf (h.aggregate_name f) ≡ ok f)
        × ExprsSurvive args
        × OptExprSurvives flt
        × OptSortsSurvive order
    ExprSurvives (Expr.between e negated low high) =
        ExprSurvives e × ExprSurvives low × ExprSurvives high
    ExprSurvives (Expr.in_list e es negated) = ExprSurvives e × ExprsSurvive es
    ExprSurvives (Expr.scalar_function f args) =
        (lib.udf (h.scalar_name f) ≡ ok f) × ExprsSurvive args
    ExprSurvives (Expr.in_subquery e q negated) = ExprSurvives e × SubquerySurvives q
    ExprSurvives (Expr.case e whens other) =
        OptExprSurvives e × ExprPairsSurvive whens × OptExprSurvives other
    ExprSurvives _ = Unit

    pub ExprsSurvive : Exprs h → Type 0
    ExprsSurvive Exprs.nil = Unit
    ExprsSurvive (Exprs.cons e es) = ExprSurvives e × ExprsSurvive es

    pub OptExprSurvives : OptExpr h → Type 0
    OptExprSurvives OptExpr.absent = Unit
    OptExprSurvives (OptExpr.present e) = ExprSurvives e

    pub ExprPairsSurvive : ExprPairs h → Type 0
    ExprPairsSurvive ExprPairs.no_pairs = Unit
    ExprPairsSurvive (ExprPairs.pair l r ps) = ExprSurvives l × ExprSurvives r × ExprPairsSurvive ps

    pub SortSurvives : SortExpr h → Type 0
    SortSurvives (SortExpr.sort_expr e asc nulls_first) = ExprSurvives e

    pub SortsSurvive : Sorts h → Type 0
    SortsSurvive Sorts.no_sorts = Unit
    SortsSurvive (Sorts.then_by s ss) = SortSurvives s × SortsSurvive ss

    pub OptSortsSurvive : OptSorts h → Type 0
    OptSortsSurvive OptSorts.no_order = Unit
    OptSortsSurvive (OptSorts.ordered ss) = SortsSurvive ss

    pub SubquerySurvives : Subquery h → Type 0
    SubquerySurvives (Subquery.subquery p es) = PlanSurvives p × ExprsSurvive es

    pub PlanSurvives : LogicalPlan h → Type 0
    PlanSurvives (LogicalPlan.table_scan name source projection filters fetch schema) =
        ReferenceSurvives name
        × ExprsSurvive filters
        × (lib.table_scan_try_new name (lib.empty_source (lib.source_schema source)) projection
              (detach_exprs filters) fetch
            ≡ ok (detach_plan (LogicalPlan.table_scan name source projection filters fetch schema)))
    PlanSurvives (LogicalPlan.projection es input schema) =
        ExprsSurvive es
        × PlanSurvives input
        × (lib.projection_try_new (detach_exprs es) (detach_plan input)
            ≡ ok (detach_plan (LogicalPlan.projection es input schema)))
    PlanSurvives (LogicalPlan.filter predicate input having) =
        ExprSurvives predicate
        × PlanSurvives input
        × (rebuild_filter lib having (detach_expr predicate) (detach_plan input)
            ≡ ok (detach_plan (LogicalPlan.filter predicate input having)))
    PlanSurvives (LogicalPlan.aggregate input group aggr schema) =
        PlanSurvives input
        × ExprsSurvive group
        × ExprsSurvive aggr
        × (lib.aggregate_try_new (detach_plan input) (detach_exprs group) (detach_exprs aggr)
            ≡ ok (detach_plan (LogicalPlan.aggregate input group aggr schema)))
    PlanSurvives (LogicalPlan.sort ss input fetch) = SortsSurvive ss × PlanSurvives input
    PlanSurvives (LogicalPlan.join left right on flt type constraint schema nulls) =
        PlanSurvives left
        × PlanSurvives right
        × ExprPairsSurvive on
        × OptExprSurvives flt
        × (lib.build_join_schema (lib.plan_schema (detach_plan left))
              (lib.plan_schema (detach_plan right)) type
            ≡ ok schema)
    PlanSurvives (LogicalPlan.subquery_alias input name schema) =
        PlanSurvives input
        × ReferenceSurvives name
        × (lib.subquery_alias_try_new (detach_plan input) name
            ≡ ok (detach_plan (LogicalPlan.subquery_alias input name schema)))
    PlanSurvives (LogicalPlan.limit skip fetch input) =
        OptExprSurvives skip × OptExprSurvives fetch × PlanSurvives input
    PlanSurvives (LogicalPlan.rematerialize input) = PlanSurvives input
    PlanSurvives (LogicalPlan.result_check input) = PlanSurvives input
    PlanSurvives (LogicalPlan.other_plan x) = Unit
