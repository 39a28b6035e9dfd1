-- ===== src/Codec/DataTypes/RoundTrip.antt =====
-- `to_data_type` after `from_data_type` (crates/tt-core/src/irs/codec.rs).
use truth_table.Common.{◌≡◌, refl, ok, arith, Restores, Restores->>=, Restores-ok}
use truth_table.Datafusion.Host.{Host, IsLawful}
use truth_table.Datafusion.Arrow.{DataType, Field, Fields, Schema, TimeUnit, IntervalUnit}
use truth_table.Codec.DataTypes.{
  DataTypeRepr, from_data_type, from_field, from_fields, to_data_type, to_field, to_fields,
  from_schema, to_schema, time_unit_debug, interval_unit_debug, parse_time_unit,
  parse_interval_unit, attach_metadata,
}

module _ {h : Host} where
  parse-time_unit_debug : (u : TimeUnit) → parse_time_unit {h = h} (time_unit_debug u) ≡ ok u
  unfolding parse_time_unit time_unit_debug
  parse-time_unit_debug TimeUnit.second = refl
  parse-time_unit_debug TimeUnit.millisecond = refl
  parse-time_unit_debug TimeUnit.microsecond = refl
  parse-time_unit_debug TimeUnit.nanosecond = refl

  parse-interval_unit_debug :
      (u : IntervalUnit) → parse_interval_unit {h = h} (interval_unit_debug u) ≡ ok u
  unfolding parse_interval_unit interval_unit_debug
  parse-interval_unit_debug IntervalUnit.year_month = refl
  parse-interval_unit_debug IntervalUnit.day_time = refl
  parse-interval_unit_debug IntervalUnit.month_day_nano = refl

  attach_metadata-iter : IsLawful h → (m : h.Metadata) → attach_metadata h (h.metadata_iter m) ≡ m
  unfolding attach_metadata
  attach_metadata-iter law m = ground (arith, law.metadata_collect-iter m)

module _ {h : Host} (law : IsLawful h) where
  mutual
    unfolding from_data_type to_data_type

    pub data_type-Restores : (t : DataType h) → Restores (from_data_type t) to_data_type t
    data_type-Restores (DataType.timestamp u tz) = rw (parse-time_unit_debug u)
    data_type-Restores (DataType.duration u) = rw (parse-time_unit_debug u)
    data_type-Restores (DataType.interval u) = rw (parse-interval_unit_debug u)
    data_type-Restores (DataType.list f) =
        Restores->>= (from_field f) _ to_field f _ _ (field-Restores f) (λ r e. rw e)
    data_type-Restores (DataType.large_list f) =
        Restores->>= (from_field f) _ to_field f _ _ (field-Restores f) (λ r e. rw e)
    data_type-Restores (DataType.fixed_size_list f n) =
        Restores->>= (from_field f) _ to_field f _ _ (field-Restores f) (λ r e. rw e)
    data_type-Restores (DataType.struct fs) =
        Restores->>= (from_fields fs) _ to_fields fs _ _ (fields-Restores fs) (λ r e. rw e)
    data_type-Restores _ = ground arith

    field-Restores : (f : Field h) → Restores (from_field f) to_field f
    field-Restores (Field.field name t nullable m) =
        Restores->>= (from_data_type t) _ to_data_type t _ _ (data_type-Restores t)
          (λ r e. rw (e, attach_metadata-iter law m))

    fields-Restores : (fs : Fields h) → Restores (from_fields fs) to_fields fs
    fields-Restores Fields.nil = refl
    fields-Restores (Fields.cons f fs) =
        Restores->>= (from_field f) _ to_field f _ _ (field-Restores f) (λ r e.
          Restores->>= (from_fields fs) _ to_fields fs _ _ (fields-Restores fs)
            (λ rs es. rw (e, es)))

  pub schema-Restores : (s : Schema h) → Restores (from_schema s) to_schema s
  unfolding from_schema to_schema
  schema-Restores s =
      Restores->>= (from_fields s.fields) _ to_fields s.fields _ _ (fields-Restores s.fields)
        (λ rs e. rw (e, law.metadata_collect-iter s.metadata))

-- If the metadata maps and the printed integers of the host can be read back, then every data type
-- that `from_data_type` translates is given back by `to_data_type`.
pub to_data_type-from_data_type :
    {h : Host} (law : IsLawful h) (t : DataType h) {r : DataTypeRepr}
    → from_data_type t ≡ ok r
    → to_data_type r ≡ ok t
to_data_type-from_data_type law t =
    Restores-ok (from_data_type t) to_data_type t (data_type-Restores law t)
