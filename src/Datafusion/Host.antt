-- ===== src/Datafusion/Host.antt =====
-- What the program takes from its libraries and only passes on: opaque types, and the functions on
-- them that the codec calls, with the two laws that their documentation states.
use truth_table.Common.{List, Option, String, ◌≡◌, some}

pub record Host : Type 1 where
  -- `HashMap<String, String>` and its `iter().collect::<Vec<_>>()`
  pub Metadata : Type 0
  pub metadata_iter : Metadata → List (String × String)
  pub metadata_collect : List (String × String) → Metadata
  -- `arrow::datatypes::i256`
  pub I256 : Type 0
  pub i256_to_string : I256 → String
  pub i256_parse : String → Option I256
  pub F32 : Type 0
  pub F64 : Type 0
  -- the variants of `ScalarValue`, `Expr` and `LogicalPlan` that no code of the program reads
  pub OtherScalar : Type 0
  pub OtherExpr : Type 0
  pub OtherPlan : Type 0
  pub TableReference : Type 0
  pub reference_to_string : TableReference → String
  pub reference_from : String → TableReference
  pub DFSchema : Type 0
  -- `Arc<dyn TableSource>`
  pub Source : Type 0
  pub DataFusionError : Type 0
  -- user-defined functions and their `name()`
  pub AggregateUdf : Type 0
  pub ScalarUdf : Type 0
  pub aggregate_name : AggregateUdf → String
  pub scalar_name : ScalarUdf → String
  pub NullTreatment : Type 0

-- Collecting the entries of a map gives the map, and printing an `i256` can be read back.
pub record IsLawful (h : Host) : Type 0 where
  pub metadata_collect-iter : (m : h.Metadata) → h.metadata_collect (h.metadata_iter m) ≡ m
  pub i256_parse-to_string : (v : h.I256) → h.i256_parse (h.i256_to_string v) ≡ some v

-- `TTError`: an error of the codec's own, or one that DataFusion returned.
pub data TtError (h : Host) : Type 0 where
  serialization : TtError h
  datafusion : h.DataFusionError → TtError h
