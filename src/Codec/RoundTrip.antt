-- ===== src/Codec/RoundTrip.antt =====
-- `to_plan` after `from_plan` (crates/tt-core/src/irs/codec.rs).
use truth_table.Common.{◌≡◌, refl, ok, none, some, Option, Restores, Restores->>=, Restores-ok}
use truth_table.Datafusion.Host.{Host, IsLawful}
use truth_table.Datafusion.Plans.{
  Expr, Exprs, OptExpr, ExprPairs, SortExpr, Sorts, OptSorts, Subquery, LogicalPlan, Library,
}
use truth_table.Codec.DataTypes.{from_data_type, to_data_type, from_schema, to_schema}
use truth_table.Codec.DataTypes.RoundTrip.{data_type-Restores, schema-Restores}
use truth_table.Codec.Scalars.{from_value, to_value}
use truth_table.Codec.Scalars.RoundTrip.{value-Restores}
use truth_table.Codec.Enums.{
  to_operator-from_operator, to_join_type-from_join_type, to_join_constraint-from_constraint,
}
use truth_table.Codec.Reprs.{LogicalPlanRepr}
use truth_table.Codec.Encode.{
  relation_to_string, from_column, from_expr, from_exprs, from_opt_expr, from_expr_pairs, from_sort,
  from_sorts, from_opt_sorts, from_subquery, from_plan,
}
use truth_table.Codec.Decode.{
  relation_from, to_column, to_expr, to_exprs, to_opt_expr, to_expr_pairs, to_sort, to_sorts,
  to_opt_sorts, to_subquery, to_plan,
}
use truth_table.Codec.Detached.{
  RelationSurvives, detach_expr, detach_exprs, detach_opt_expr, detach_expr_pairs, detach_sort,
  detach_sorts, detach_opt_sorts, detach_subquery, detach_plan, ExprSurvives, ExprsSurvive,
  OptExprSurvives, ExprPairsSurvive, SortSurvives, SortsSurvive, OptSortsSurvive, SubquerySurvives,
  PlanSurvives,
}

relation_from-to_string :
    {h : Host} (lib : Library h) (r : Option h.TableReference)
    → RelationSurvives lib r
    → relation_from h (relation_to_string h r) ≡ r
unfolding relation_from relation_to_string
relation_from-to_string lib none s = refl
relation_from-to_string lib (some r) s = rw s

module _ {h : Host} (law : IsLawful h) (lib : Library h) where
  mutual
    unfolding from_expr to_expr from_column to_column detach_expr ExprSurvives

    expr-Restores :
        (x : Expr h)
        → ExprSurvives lib x
        → Restores (from_expr lib x) (to_expr lib) (detach_expr lib x)
    expr-Restores (Expr.column c) v = rw (relation_from-to_string lib c.relation v)
    expr-Restores (Expr.literal x) v =
        Restores->>= (from_value x) _ to_value _ _ _ (value-Restores law x) λ r1 p1. rw p1
    expr-Restores (Expr.binary_expr l op r) v =
        Restores->>= (from_expr lib l) _ (to_expr lib) _ _ _ (expr-Restores l v.0) λ r1 p1.
          Restores->>= (from_expr lib r) _ (to_expr lib) _ _ _ (expr-Restores r v.1)
            λ r2 p2. rw (p1, p2, to_operator-from_operator op)
    expr-Restores (Expr.cast e t) v =
        Restores->>= (from_expr lib e) _ (to_expr lib) _ _ _ (expr-Restores e v) λ r1 p1.
          Restores->>= (from_data_type t) _ to_data_type _ _ _ (data_type-Restores law t)
            λ r2 p2. rw (p1, p2)
    expr-Restores (Expr.alias e rel name) v =
        Restores->>= (from_expr lib e) _ (to_expr lib) _ _ _ (expr-Restores e v.0)
          λ r1 p1. rw (p1, relation_from-to_string lib rel v.1)
    expr-Restores (Expr.aggregate_function f args distinct flt order nulls) v =
        Restores->>= (from_exprs lib args) _ (to_exprs lib) _ _ _ (exprs-Restores args v.1) λ r1 p1.
          Restores->>= (from_opt_expr lib flt) _ (to_opt_expr lib) _ _ _ (opt_expr-Restores flt v.2)
            λ r2 p2.
              Restores->>= (from_opt_sorts lib order) _ (to_opt_sorts lib) _ _ _
                (opt_sorts-Restores order v.3) λ r3 p3. rw (v.0, p1, p2, p3)
    expr-Restores (Expr.between e negated low high) v =
        Restores->>= (from_expr lib e) _ (to_expr lib) _ _ _ (expr-Restores e v.0) λ r1 p1.
          Restores->>= (from_expr lib low) _ (to_expr lib) _ _ _ (expr-Restores low v.1) λ r2 p2.
            Restores->>= (from_expr lib high) _ (to_expr lib) _ _ _ (expr-Restores high v.2)
              λ r3 p3. rw (p1, p2, p3)
    expr-Restores (Expr.in_list e es negated) v =
        Restores->>= (from_expr lib e) _ (to_expr lib) _ _ _ (expr-Restores e v.0) λ r1 p1.
          Restores->>= (from_exprs lib es) _ (to_exprs lib) _ _ _ (exprs-Restores es v.1)
            λ r2 p2. rw (p1, p2)
    expr-Restores (Expr.scalar_function f args) v =
        Restores->>= (from_exprs lib args) _ (to_exprs lib) _ _ _ (exprs-Restores args v.1)
          λ r1 p1. rw (v.0, p1)
    expr-Restores (Expr.in_subquery e q negated) v =
        Restores->>= (from_expr lib e) _ (to_expr lib) _ _ _ (expr-Restores e v.0) λ r1 p1.
          Restores->>= (from_subquery lib q) _ (to_subquery lib) _ _ _ (subquery-Restores q v.1)
            λ r2 p2. rw (p2, p1)
    expr-Restores (Expr.case e whens other) v =
        Restores->>= (from_opt_expr lib e) _ (to_opt_expr lib) _ _ _ (opt_expr-Restores e v.0)
          λ r1 p1.
            Restores->>= (from_expr_pairs lib whens) _ (to_expr_pairs lib) _ _ _
              (expr_pairs-Restores whens v.1)
              λ r2 p2.
                Restores->>= (from_opt_expr lib other) _ (to_opt_expr lib) _ _ _
                  (opt_expr-Restores other v.2) λ r3 p3. rw (p1, p2, p3)
    expr-Restores _ v = tt

    exprs-Restores :
        (x : Exprs h)
        → ExprsSurvive lib x
        → Restores (from_exprs lib x) (to_exprs lib) (detach_exprs lib x)
    exprs-Restores Exprs.nil v = refl
    exprs-Restores (Exprs.cons e es) v =
        Restores->>= (from_expr lib e) _ (to_expr lib) _ _ _ (expr-Restores e v.0) λ r1 p1.
          Restores->>= (from_exprs lib es) _ (to_exprs lib) _ _ _ (exprs-Restores es v.1)
            λ r2 p2. rw (p1, p2)

    opt_expr-Restores :
        (x : OptExpr h)
        → OptExprSurvives lib x
        → Restores (from_opt_expr lib x) (to_opt_expr lib) (detach_opt_expr lib x)
    opt_expr-Restores OptExpr.absent v = refl
    opt_expr-Restores (OptExpr.present e) v =
        Restores->>= (from_expr lib e) _ (to_expr lib) _ _ _ (expr-Restores e v) λ r1 p1. rw p1

    expr_pairs-Restores :
        (x : ExprPairs h)
        → ExprPairsSurvive lib x
        → Restores (from_expr_pairs lib x) (to_expr_pairs lib) (detach_expr_pairs lib x)
    expr_pairs-Restores ExprPairs.no_pairs v = refl
    expr_pairs-Restores (ExprPairs.pair l r ps) v =
        Restores->>= (from_expr lib l) _ (to_expr lib) _ _ _ (expr-Restores l v.0) λ r1 p1.
          Restores->>= (from_expr lib r) _ (to_expr lib) _ _ _ (expr-Restores r v.1) λ r2 p2.
            Restores->>= (from_expr_pairs lib ps) _ (to_expr_pairs lib) _ _ _
              (expr_pairs-Restores ps v.2) λ r3 p3. rw (p1, p2, p3)

    sort-Restores :
        (x : SortExpr h)
        → SortSurvives lib x
        → Restores (from_sort lib x) (to_sort lib) (detach_sort lib x)
    sort-Restores (SortExpr.sort_expr e asc nulls_first) v =
        Restores->>= (from_expr lib e) _ (to_expr lib) _ _ _ (expr-Restores e v) λ r1 p1. rw p1

    sorts-Restores :
        (x : Sorts h)
        → SortsSurvive lib x
        → Restores (from_sorts lib x) (to_sorts lib) (detach_sorts lib x)
    sorts-Restores Sorts.no_sorts v = refl
    sorts-Restores (Sorts.then_by s ss) v =
        Restores->>= (from_sort lib s) _ (to_sort lib) _ _ _ (sort-Restores s v.0) λ r1 p1.
          Restores->>= (from_sorts lib ss) _ (to_sorts lib) _ _ _ (sorts-Restores ss v.1)
            λ r2 p2. rw (p1, p2)

    opt_sorts-Restores :
        (x : OptSorts h)
        → OptSortsSurvive lib x
        → Restores (from_opt_sorts lib x) (to_opt_sorts lib) (detach_opt_sorts lib x)
    opt_sorts-Restores OptSorts.no_order v = refl
    opt_sorts-Restores (OptSorts.ordered ss) v =
        Restores->>= (from_sorts lib ss) _ (to_sorts lib) _ _ _ (sorts-Restores ss v) λ r1 p1. rw p1

    subquery-Restores :
        (x : Subquery h)
        → SubquerySurvives lib x
        → Restores (from_subquery lib x) (to_subquery lib) (detach_subquery lib x)
    subquery-Restores (Subquery.subquery p es) v =
        Restores->>= (from_plan lib p) _ (to_plan lib) _ _ _ (plan-Restores p v.0) λ r1 p1.
          Restores->>= (from_exprs lib es) _ (to_exprs lib) _ _ _ (exprs-Restores es v.1)
            λ r2 p2. rw (p1, p2)

    plan-Restores :
        (x : LogicalPlan h)
        → PlanSurvives lib x
        → Restores (from_plan lib x) (to_plan lib) (detach_plan lib x)
    plan-Restores (LogicalPlan.table_scan name source projection filters fetch schema) v =
        Restores->>= (from_schema (lib.source_schema source)) _ to_schema _ _ _
          (schema-Restores law (lib.source_schema source))
          λ r1 p1.
            Restores->>= (from_exprs lib filters) _ (to_exprs lib) _ _ _
              (exprs-Restores filters v.1) λ r2 p2. rw (p1, p2, v.0) v.2
    plan-Restores (LogicalPlan.projection es input schema) v =
        Restores->>= (from_exprs lib es) _ (to_exprs lib) _ _ _ (exprs-Restores es v.0) λ r1 p1.
          Restores->>= (from_plan lib input) _ (to_plan lib) _ _ _ (plan-Restores input v.1)
            λ r2 p2. rw (p2, p1) v.2
    plan-Restores (LogicalPlan.filter predicate input having) v =
        Restores->>= (from_expr lib predicate) _ (to_expr lib) _ _ _ (expr-Restores predicate v.0)
          λ r1 p1.
            Restores->>= (from_plan lib input) _ (to_plan lib) _ _ _ (plan-Restores input v.1)
              λ r2 p2. rw (p2, p1) v.2
    plan-Restores (LogicalPlan.aggregate input group aggr schema) v =
        Restores->>= (from_exprs lib group) _ (to_exprs lib) _ _ _ (exprs-Restores group v.1)
          λ r1 p1.
            Restores->>= (from_exprs lib aggr) _ (to_exprs lib) _ _ _ (exprs-Restores aggr v.2)
              λ r2 p2.
                Restores->>= (from_plan lib input) _ (to_plan lib) _ _ _ (plan-Restores input v.0)
                  λ r3 p3. rw (p3, p1, p2) v.3
    plan-Restores (LogicalPlan.sort ss input fetch) v =
        Restores->>= (from_sorts lib ss) _ (to_sorts lib) _ _ _ (sorts-Restores ss v.0) λ r1 p1.
          Restores->>= (from_plan lib input) _ (to_plan lib) _ _ _ (plan-Restores input v.1)
            λ r2 p2. rw (p2, p1)
    plan-Restores (LogicalPlan.join left right on flt type constraint schema nulls) v =
        Restores->>= (from_plan lib left) _ (to_plan lib) _ _ _ (plan-Restores left v.0) λ r1 p1.
          Restores->>= (from_plan lib right) _ (to_plan lib) _ _ _ (plan-Restores right v.1)
            λ r2 p2.
              Restores->>= (from_expr_pairs lib on) _ (to_expr_pairs lib) _ _ _
                (expr_pairs-Restores on v.2)
                λ r3 p3.
                  Restores->>= (from_opt_expr lib flt) _ (to_opt_expr lib) _ _ _
                    (opt_expr-Restores flt v.3)
                    λ r4 p4. rw (
                      p1,
                      p2,
                      p3,
                      to_join_type-from_join_type type,
                      v.4,
                      p4,
                      to_join_constraint-from_constraint constraint,
                    )
    plan-Restores (LogicalPlan.subquery_alias input name schema) v =
        Restores->>= (from_plan lib input) _ (to_plan lib) _ _ _ (plan-Restores input v.0)
          λ r1 p1. rw (p1, v.1) v.2
    plan-Restores (LogicalPlan.limit skip fetch input) v =
        Restores->>= (from_plan lib input) _ (to_plan lib) _ _ _ (plan-Restores input v.2) λ r1 p1.
          Restores->>= (from_opt_expr lib skip) _ (to_opt_expr lib) _ _ _
            (opt_expr-Restores skip v.0)
            λ r2 p2.
              Restores->>= (from_opt_expr lib fetch) _ (to_opt_expr lib) _ _ _
                (opt_expr-Restores fetch v.1) λ r3 p3. rw (p1, p2, p3)
    plan-Restores (LogicalPlan.rematerialize input) v =
        Restores->>= (from_plan lib input) _ (to_plan lib) _ _ _ (plan-Restores input v)
          λ r1 p1. rw p1
    plan-Restores (LogicalPlan.result_check input) v =
        Restores->>= (from_plan lib input) _ (to_plan lib) _ _ _ (plan-Restores input v)
          λ r1 p1. rw p1
    plan-Restores (LogicalPlan.other_plan x) v = tt

-- If the host's metadata maps and printed integers can be read back, then a plan that `from_plan`
-- translates, and whose references, functions and nodes survive, is given back by `to_plan` with
-- an empty table of the same schema for each source and no treatment of nulls.
pub to_plan-from_plan :
    {h : Host} (law : IsLawful h) (lib : Library h) (p : LogicalPlan h) {r : LogicalPlanRepr h}
    → PlanSurvives lib p
    → from_plan lib p ≡ ok r
    → to_plan lib r ≡ ok (detach_plan lib p)
to_plan-from_plan law lib p s =
    Restores-ok (from_plan lib p) (to_plan lib) (detach_plan lib p) (plan-Restores law lib p s)
