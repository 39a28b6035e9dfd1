-- ===== src/Tests/Join.antt =====
-- Runs of the theorems on joins: a table `orders` with a key of one column, and a table `lineitem`
-- with a key of two, one of which refers to `orders`.
use truth_table.Common.{◌≡◌, refl, List, [], ◌∷◌, none, some, true, false, String, arith}
use truth_table.Datafusion.Enums.{JoinType}
use truth_table.Datafusion.Plans.{Expr, ExprPairs, OptExpr, LogicalPlan}
use truth_table.Codec.Enums.{JoinMode}
use truth_table.Join.Constraints.{Library, TableConstraint, nodup_input_is_pk}
use truth_table.Join.Constraints.Keys.{fields_of, nodup_input_is_pk-all_in_key}
use truth_table.Join.Modes.{Plans}
use truth_table.Join.Decide.{decide_join_mode}
use truth_table.Join.Decide.Joins.{SpecialisedJoin, decide_join_mode-SpecialisedJoin}
use truth_table.Tests.Database.{host}

abbrev library : Library
library = record {
  to_lowercase = λ s. s;
  strings_to_json = λ names. none;
  strings_from_json = λ s. none;
}

abbrev lineitem_table : TableConstraint
lineitem_table = record {
  primary_key_cols = "l_linenumber" ∷ "l_orderkey" ∷ [];
  foreign_key_by_col =
      ("l_orderkey", record { ref_table = "orders"; ref_columns = "o_orderkey" ∷ [] }) ∷ [];
}

abbrev tables : List (String × TableConstraint)
tables =
    ("lineitem", lineitem_table)
    ∷ ("orders", record { primary_key_cols = "o_orderkey" ∷ []; foreign_key_by_col = [] })
    ∷ []

-- the number of the line alone, which many rows share
nodup_input_is_pk-all_in_key_example :
    nodup_input_is_pk (λ s. s) (fields_of library tables (λ s. s) "lineitem" ("l_linenumber" ∷ []))
    ≡ true
nodup_input_is_pk-all_in_key_example =
    nodup_input_is_pk-all_in_key library tables (λ s. s) "lineitem" lineitem_table
      ("l_linenumber" ∷ []) refl refl (refl, tt)

abbrev some_plan : LogicalPlan host
some_plan = LogicalPlan.other_plan 0

abbrev orders_column : Expr host
orders_column = Expr.column (record { relation = some "orders"; name = "o_orderkey" })

abbrev lineitem_column : Expr host
lineitem_column = Expr.column (record { relation = some "lineitem"; name = "l_orderkey" })

abbrev plans : Plans host
plans = record { schema_fields = λ p. []; other_has_filter = λ o. false }

abbrev keys : ExprPairs host
keys = ExprPairs.pair orders_column lineitem_column ExprPairs.no_pairs

decide_keys :
    decide_join_mode host library tables plans some_plan some_plan keys OptExpr.absent
      JoinType.inner
    ≡ JoinMode.one_to_many
unfolding decide_join_mode
decide_keys = refl

decide_join_mode-SpecialisedJoin_example :
    SpecialisedJoin library tables plans some_plan some_plan keys OptExpr.absent JoinType.inner (
      decide_join_mode host library tables plans some_plan some_plan keys OptExpr.absent
        JoinType.inner)
decide_join_mode-SpecialisedJoin_example =
    decide_join_mode-SpecialisedJoin library tables plans some_plan some_plan keys OptExpr.absent
      JoinType.inner (rw decide_keys (λ e. ground (arith, e)))
