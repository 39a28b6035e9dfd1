-- ===== src/Tests/Database.antt =====
-- A host whose opaque types are strings and numbers, and a library of DataFusion over it with one
-- table.
use truth_table.Common.{List, [], some, String, ℕ, ok, true, false, refl}
use truth_table.Common.Int.{pos}
use truth_table.Datafusion.Host.{Host, IsLawful}
use truth_table.Datafusion.Arrow.{DataType, Field, Fields, Schema}
use truth_table.Datafusion.Plans.{LogicalPlan, Library}

abbrev pub host : Host
host = record {
  Metadata = List (String × String);
  metadata_iter = λ m. m;
  metadata_collect = λ m. m;
  I256 = String;
  i256_to_string = λ v. v;
  i256_parse = some;
  F32 = ℕ;
  F64 = ℕ;
  OtherScalar = ℕ;
  OtherExpr = ℕ;
  OtherPlan = ℕ;
  TableReference = String;
  reference_to_string = λ r. r;
  reference_from = λ r. r;
  DFSchema = ℕ;
  Source = ℕ;
  DataFusionError = ℕ;
  AggregateUdf = String;
  ScalarUdf = String;
  aggregate_name = λ f. f;
  scalar_name = λ f. f;
  NullTreatment = ℕ;
}

pub host-IsLawful : IsLawful host
host-IsLawful = record { metadata_collect-iter = λ m. refl; i256_parse-to_string = λ v. refl }

-- the schema of the one table
abbrev pub orders_schema : Schema host
orders_schema = record {
  fields =
      Fields.cons (Field.field "id" DataType.int64 false [])
        (Fields.cons (Field.field "total" (DataType.decimal128 15 (pos 2)) true []) Fields.nil);
  metadata = [];
}

abbrev pub library : Library host
library = record {
  source_schema = λ s. orders_schema;
  empty_source = λ s. 0;
  plan_schema = λ p. 0;
  udaf = ok;
  udf = ok;
  table_scan_try_new = λ name s projection filters fetch.
      ok (LogicalPlan.table_scan name s projection filters fetch 0);
  projection_try_new = λ es p. ok (LogicalPlan.projection es p 0);
  filter_try_new = λ e p. ok (LogicalPlan.filter e p false);
  filter_try_new_with_having = λ e p. ok (LogicalPlan.filter e p true);
  aggregate_try_new = λ p group aggr. ok (LogicalPlan.aggregate p group aggr 0);
  subquery_alias_try_new = λ p name. ok (LogicalPlan.subquery_alias p name 0);
  build_join_schema = λ l r t. ok 0;
}
