-- ===== src/Tests/Codec.antt =====
-- The codec at a query over one table.
use truth_table.Common.{some, none, ok, true, false, refl, ◌≡◌, [], ℕ, ◌∷◌}
use truth_table.Common.Int.{pos}
use truth_table.Datafusion.Arrow.{DataType, TimeUnit}
use truth_table.Datafusion.Scalar.{ScalarValue}
use truth_table.Datafusion.Enums.{Operator}
use truth_table.Datafusion.Plans.{Expr, Exprs, OptExpr, OptSorts, LogicalPlan}
use truth_table.Codec.DataTypes.{
  DataTypeRepr, FieldRepr, FieldReprs, from_data_type, from_schema, from_fields, time_unit_debug,
}
use truth_table.Codec.Scalars.{ScalarValueRepr, from_value, decimal256_to_string}
use truth_table.Codec.Enums.{OperatorRepr, from_operator}
use truth_table.Codec.Reprs.{ExprRepr, ExprReprs, OptExprRepr, OptSortReprs, LogicalPlanRepr}
use truth_table.Codec.Encode.{from_plan, from_column, relation_to_string}
use truth_table.Codec.Decode.{to_plan, rebuild_filter}
use truth_table.Codec.Detached.{PlanSurvives, detach_plan}
use truth_table.Codec.RoundTrip.{to_plan-from_plan}
use truth_table.Tests.Database.{host, host-IsLawful, library}

abbrev moments : DataType host
moments = DataType.timestamp TimeUnit.millisecond (some "UTC")

moments-encoded : from_data_type moments ≡ ok (DataTypeRepr.timestamp "Millisecond" (some "UTC"))
unfolding from_data_type time_unit_debug
moments-encoded = refl

abbrev price : ScalarValue host
price = ScalarValue.decimal256 (some "1299") 40 (pos 2)

price-encoded : from_value price ≡ ok (ScalarValueRepr.decimal256 (some "1299") 40 (pos 2))
unfolding from_value decimal256_to_string
price-encoded = refl

-- `SELECT sum(id) FROM orders WHERE id > 5`, the source being number 7
abbrev id_column : Expr host
id_column = Expr.column (record { relation = some "orders"; name = "id" })

abbrev query : ℕ → LogicalPlan host
query source =
    LogicalPlan.aggregate
      (LogicalPlan.filter
        (Expr.binary_expr id_column Operator.gt (Expr.literal (ScalarValue.int64 (some (pos 5)))))
        (LogicalPlan.table_scan "orders" source (some (0 ∷ [])) Exprs.nil none 0) false)
      Exprs.nil
      (Exprs.cons
        (Expr.aggregate_function "sum" (Exprs.cons id_column Exprs.nil) false OptExpr.absent
          OptSorts.no_order none)
        Exprs.nil)
      0

abbrev id_repr : ExprRepr host
id_repr = ExprRepr.column (record { relation = some "orders"; name = "id" })

abbrev query_repr : LogicalPlanRepr host
query_repr =
    LogicalPlanRepr.aggregate ExprReprs.nil
      (ExprReprs.cons
        (ExprRepr.aggregate_function "sum" (ExprReprs.cons id_repr ExprReprs.nil) false
          OptExprRepr.absent OptSortReprs.no_order)
        ExprReprs.nil)
      (LogicalPlanRepr.filter
        (ExprRepr.binary_expr id_repr OperatorRepr.gt
          (ExprRepr.literal (ScalarValueRepr.int64 (some (pos 5)))))
        (LogicalPlanRepr.table_scan "orders"
          (record {
            fields = FieldReprs.cons (FieldRepr.field "id" DataTypeRepr.int64 false []) (
                FieldReprs.cons
                  (FieldRepr.field "total" (DataTypeRepr.decimal128 15 (pos 2)) true [])
                  FieldReprs.nil);
            metadata = [];
          })
          (some (0 ∷ [])) ExprReprs.nil none)
        false)

query-encoded : from_plan library (query 7) ≡ ok query_repr
unfolding from_plan from_column relation_to_string from_operator from_value from_schema from_fields
    from_data_type
query-encoded = refl

query-survives : PlanSurvives library (query 7)
unfolding PlanSurvives rebuild_filter detach_plan
query-survives = (((refl, tt), (refl, tt, refl), refl), tt, ((refl, (refl, tt), tt, tt), tt), refl)

to_plan-from_plan_example : to_plan library query_repr ≡ ok (detach_plan library (query 7))
to_plan-from_plan_example =
    to_plan-from_plan host-IsLawful library (query 7) query-survives query-encoded

query-detached : detach_plan library (query 7) ≡ query 0
unfolding detach_plan
query-detached = refl
