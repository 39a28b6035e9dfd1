-- ===== src/Codec/DataTypes.antt =====
-- `DataTypeRepr`, `FieldRepr`, `SchemaRepr` of crates/tt-core/src/irs/codec.rs and their translations.
-- `format!("{unit:?}")` is the variant's name.
pub mod RoundTrip
use text.Mathlib.Text.{◌==◌ as str_eq}
use truth_table.Common.{
  Bool, List, Option, String, ℕ, Result, ok, err, ◌>>=◌, [], ◌∷◌, if◌then◌else◌,
}
use truth_table.Common.Int.{ℤ}
use truth_table.Datafusion.Host.{Host, TtError, serialization}
use truth_table.Datafusion.Arrow.{DataType, Field, Fields, Schema, TimeUnit, IntervalUnit}

mutual
  pub data DataTypeRepr : Type 0 where
    null boolean : DataTypeRepr
    int8 int16 int32 int64 : DataTypeRepr
    uint8 uint16 uint32 uint64 : DataTypeRepr
    float32 float64 : DataTypeRepr
    decimal128 decimal256 : ℕ → ℤ → DataTypeRepr
    utf8 utf8_view large_utf8 : DataTypeRepr
    binary large_binary : DataTypeRepr
    fixed_size_binary : ℤ → DataTypeRepr
    date32 date64 : DataTypeRepr
    time32_second time32_millisecond : DataTypeRepr
    time64_microsecond time64_nanosecond : DataTypeRepr
    timestamp : String → Option String → DataTypeRepr
    duration interval : String → DataTypeRepr
    list large_list : FieldRepr → DataTypeRepr
    fixed_size_list : FieldRepr → ℤ → DataTypeRepr
    struct : FieldReprs → DataTypeRepr

  pub data FieldRepr : Type 0 where
    field : String → DataTypeRepr → Bool → List (String × String) → FieldRepr

  pub data FieldReprs : Type 0 where
    nil : FieldReprs
    cons : FieldRepr → FieldReprs → FieldReprs

pub record SchemaRepr : Type 0 where
  pub fields : FieldReprs
  pub metadata : List (String × String)

unfoldable pub time_unit_debug : TimeUnit → String
time_unit_debug TimeUnit.second = "Second"
time_unit_debug TimeUnit.millisecond = "Millisecond"
time_unit_debug TimeUnit.microsecond = "Microsecond"
time_unit_debug TimeUnit.nanosecond = "Nanosecond"

unfoldable pub interval_unit_debug : IntervalUnit → String
interval_unit_debug IntervalUnit.year_month = "YearMonth"
interval_unit_debug IntervalUnit.day_time = "DayTime"
interval_unit_debug IntervalUnit.month_day_nano = "MonthDayNano"

-- `Field::new` has no metadata, and the entries are attached only if there are some
unfoldable pub attach_metadata : (h : Host) → List (String × String) → h.Metadata
attach_metadata h [] = h.metadata_collect []
attach_metadata h (e ∷ es) = h.metadata_collect (e ∷ es)

module _ {h : Host} where
  unfoldable pub parse_time_unit : String → Result (TtError h) TimeUnit
  parse_time_unit unit =
      if str_eq unit "Second"
      then ok TimeUnit.second
      else if str_eq unit "Millisecond"
      then ok TimeUnit.millisecond
      else if str_eq unit "Microsecond"
      then ok TimeUnit.microsecond
      else if str_eq unit "Nanosecond"
      then ok TimeUnit.nanosecond
      else err serialization

  unfoldable pub parse_interval_unit : String → Result (TtError h) IntervalUnit
  parse_interval_unit unit =
      if str_eq unit "YearMonth"
      then ok IntervalUnit.year_month
      else if str_eq unit "DayTime"
      then ok IntervalUnit.day_time
      else if str_eq unit "MonthDayNano"
      then ok IntervalUnit.month_day_nano
      else err serialization

  unfoldable mutual
    pub from_data_type : DataType h → Result (TtError h) DataTypeRepr
    from_data_type DataType.null = ok DataTypeRepr.null
    from_data_type DataType.boolean = ok DataTypeRepr.boolean
    from_data_type DataType.int8 = ok DataTypeRepr.int8
    from_data_type DataType.int16 = ok DataTypeRepr.int16
    from_data_type DataType.int32 = ok DataTypeRepr.int32
    from_data_type DataType.int64 = ok DataTypeRepr.int64
    from_data_type DataType.uint8 = ok DataTypeRepr.uint8
    from_data_type DataType.uint16 = ok DataTypeRepr.uint16
    from_data_type DataType.uint32 = ok DataTypeRepr.uint32
    from_data_type DataType.uint64 = ok DataTypeRepr.uint64
    from_data_type DataType.float32 = ok DataTypeRepr.float32
    from_data_type DataType.float64 = ok DataTypeRepr.float64
    from_data_type (DataType.decimal128 p s) = ok (DataTypeRepr.decimal128 p s)
    from_data_type (DataType.decimal256 p s) = ok (DataTypeRepr.decimal256 p s)
    from_data_type DataType.utf8 = ok DataTypeRepr.utf8
    from_data_type DataType.utf8_view = ok DataTypeRepr.utf8_view
    from_data_type DataType.large_utf8 = ok DataTypeRepr.large_utf8
    from_data_type DataType.binary = ok DataTypeRepr.binary
    from_data_type DataType.large_binary = ok DataTypeRepr.large_binary
    from_data_type (DataType.fixed_size_binary n) = ok (DataTypeRepr.fixed_size_binary n)
    from_data_type DataType.date32 = ok DataTypeRepr.date32
    from_data_type DataType.date64 = ok DataTypeRepr.date64
    from_data_type (DataType.time32 TimeUnit.second) = ok DataTypeRepr.time32_second
    from_data_type (DataType.time32 TimeUnit.millisecond) = ok DataTypeRepr.time32_millisecond
    from_data_type (DataType.time64 TimeUnit.microsecond) = ok DataTypeRepr.time64_microsecond
    from_data_type (DataType.time64 TimeUnit.nanosecond) = ok DataTypeRepr.time64_nanosecond
    from_data_type (DataType.timestamp unit tz) =
        ok (DataTypeRepr.timestamp (time_unit_debug unit) tz)
    from_data_type (DataType.duration unit) = ok (DataTypeRepr.duration (time_unit_debug unit))
    from_data_type (DataType.interval unit) = ok (DataTypeRepr.interval (interval_unit_debug unit))
    from_data_type (DataType.list f) = do r ← from_field f; ok (DataTypeRepr.list r)
    from_data_type (DataType.large_list f) = do r ← from_field f; ok (DataTypeRepr.large_list r)
    from_data_type (DataType.fixed_size_list f n) = do
      r ← from_field f
      ok (DataTypeRepr.fixed_size_list r n)
    from_data_type (DataType.struct fs) = do rs ← from_fields fs; ok (DataTypeRepr.struct rs)
    from_data_type _ = err serialization

    pub from_field : Field h → Result (TtError h) FieldRepr
    from_field (Field.field name t nullable m) = do
      r ← from_data_type t
      ok (FieldRepr.field name r nullable (h.metadata_iter m))

    pub from_fields : Fields h → Result (TtError h) FieldReprs
    from_fields Fields.nil = ok FieldReprs.nil
    from_fields (Fields.cons f fs) = do
      r ← from_field f
      rs ← from_fields fs
      ok (FieldReprs.cons r rs)

  unfoldable mutual
    pub to_data_type : DataTypeRepr → Result (TtError h) (DataType h)
    to_data_type DataTypeRepr.null = ok DataType.null
    to_data_type DataTypeRepr.boolean = ok DataType.boolean
    to_data_type DataTypeRepr.int8 = ok DataType.int8
    to_data_type DataTypeRepr.int16 = ok DataType.int16
    to_data_type DataTypeRepr.int32 = ok DataType.int32
    to_data_type DataTypeRepr.int64 = ok DataType.int64
    to_data_type DataTypeRepr.uint8 = ok DataType.uint8
    to_data_type DataTypeRepr.uint16 = ok DataType.uint16
    to_data_type DataTypeRepr.uint32 = ok DataType.uint32
    to_data_type DataTypeRepr.uint64 = ok DataType.uint64
    to_data_type DataTypeRepr.float32 = ok DataType.float32
    to_data_type DataTypeRepr.float64 = ok DataType.float64
    to_data_type (DataTypeRepr.decimal128 p s) = ok (DataType.decimal128 p s)
    to_data_type (DataTypeRepr.decimal256 p s) = ok (DataType.decimal256 p s)
    to_data_type DataTypeRepr.utf8 = ok DataType.utf8
    to_data_type DataTypeRepr.utf8_view = ok DataType.utf8_view
    to_data_type DataTypeRepr.large_utf8 = ok DataType.large_utf8
    to_data_type DataTypeRepr.binary = ok DataType.binary
    to_data_type DataTypeRepr.large_binary = ok DataType.large_binary
    to_data_type (DataTypeRepr.fixed_size_binary n) = ok (DataType.fixed_size_binary n)
    to_data_type DataTypeRepr.date32 = ok DataType.date32
    to_data_type DataTypeRepr.date64 = ok DataType.date64
    to_data_type DataTypeRepr.time32_second = ok (DataType.time32 TimeUnit.second)
    to_data_type DataTypeRepr.time32_millisecond = ok (DataType.time32 TimeUnit.millisecond)
    to_data_type DataTypeRepr.time64_microsecond = ok (DataType.time64 TimeUnit.microsecond)
    to_data_type DataTypeRepr.time64_nanosecond = ok (DataType.time64 TimeUnit.nanosecond)
    to_data_type (DataTypeRepr.timestamp unit tz) = do
      u ← parse_time_unit unit
      ok (DataType.timestamp u tz)
    to_data_type (DataTypeRepr.duration unit) = do
      u ← parse_time_unit unit
      ok (DataType.duration u)
    to_data_type (DataTypeRepr.interval unit) = do
      u ← parse_interval_unit unit
      ok (DataType.interval u)
    to_data_type (DataTypeRepr.list r) = do f ← to_field r; ok (DataType.list f)
    to_data_type (DataTypeRepr.large_list r) = do f ← to_field r; ok (DataType.large_list f)
    to_data_type (DataTypeRepr.fixed_size_list r n) = do
      f ← to_field r
      ok (DataType.fixed_size_list f n)
    to_data_type (DataTypeRepr.struct rs) = do fs ← to_fields rs; ok (DataType.struct fs)

    pub to_field : FieldRepr → Result (TtError h) (Field h)
    to_field (FieldRepr.field name r nullable es) = do
      t ← to_data_type r
      ok (Field.field name t nullable (attach_metadata h es))

    pub to_fields : FieldReprs → Result (TtError h) (Fields h)
    to_fields FieldReprs.nil = ok Fields.nil
    to_fields (FieldReprs.cons r rs) = do f ← to_field r; fs ← to_fields rs; ok (Fields.cons f fs)

  unfoldable pub from_schema : Schema h → Result (TtError h) SchemaRepr
  from_schema s = do
    fields' ← from_fields s.fields
    ok (record { fields = fields'; metadata = h.metadata_iter s.metadata })

  unfoldable pub to_schema : SchemaRepr → Result (TtError h) (Schema h)
  to_schema r = do
    fields' ← to_fields r.fields
    ok (record { fields = fields'; metadata = h.metadata_collect r.metadata })
