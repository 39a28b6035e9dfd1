-- ===== src/Codec/Scalars.antt =====
-- `ScalarValueRepr` of crates/tt-core/src/irs/codec.rs, and its translations.
pub mod RoundTrip
use truth_table.Common.{Bool, List, Option, String, ℕ, Result, ok, err, ◌>>=◌, none, some}
use truth_table.Common.Int.{ℤ}
use truth_table.Datafusion.Host.{Host, TtError, serialization}
use truth_table.Datafusion.Scalar.{ScalarValue, IntervalDayTime, IntervalMonthDayNano}

pub data ScalarValueRepr (h : Host) : Type 0 where
  null : ScalarValueRepr h
  boolean : Option Bool → ScalarValueRepr h
  float32 : Option h.F32 → ScalarValueRepr h
  float64 : Option h.F64 → ScalarValueRepr h
  decimal128 : Option ℤ → ℕ → ℤ → ScalarValueRepr h
  decimal256 : Option String → ℕ → ℤ → ScalarValueRepr h
  int8 int16 int32 int64 : Option ℤ → ScalarValueRepr h
  uint8 uint16 uint32 uint64 : Option ℕ → ScalarValueRepr h
  utf8 utf8_view large_utf8 : Option String → ScalarValueRepr h
  binary binary_view : Option (List ℕ) → ScalarValueRepr h
  fixed_size_binary : ℤ → Option (List ℕ) → ScalarValueRepr h
  large_binary : Option (List ℕ) → ScalarValueRepr h
  date32 date64 : Option ℤ → ScalarValueRepr h
  time32_second time32_millisecond : Option ℤ → ScalarValueRepr h
  time64_microsecond time64_nanosecond : Option ℤ → ScalarValueRepr h
  timestamp_second timestamp_millisecond : Option ℤ → Option String → ScalarValueRepr h
  timestamp_microsecond timestamp_nanosecond : Option ℤ → Option String → ScalarValueRepr h
  interval_year_month : Option ℤ → ScalarValueRepr h
  interval_day_time : Option (ℤ × ℤ) → ScalarValueRepr h
  interval_month_day_nano : Option (ℤ × ℤ × ℤ) → ScalarValueRepr h
  duration_second duration_millisecond : Option ℤ → ScalarValueRepr h
  duration_microsecond duration_nanosecond : Option ℤ → ScalarValueRepr h

-- `value.map(|v| v.to_string())`
unfoldable pub decimal256_to_string : (h : Host) → Option h.I256 → Option String
decimal256_to_string h none = none
decimal256_to_string h (some v) = some (h.i256_to_string v)

unfoldable pub parse_decimal256 : (h : Host) → Option String → Result (TtError h) (Option h.I256)
parse_decimal256 h none = ok none
parse_decimal256 h (some s) = elim (h.i256_parse s) [
  | none ↦ err serialization
  | some v ↦ ok (some v)
]

unfoldable pub day_time_fields : Option IntervalDayTime → Option (ℤ × ℤ)
day_time_fields none = none
day_time_fields (some v) = some (v.days, v.milliseconds)

unfoldable pub day_time_of : Option (ℤ × ℤ) → Option IntervalDayTime
day_time_of none = none
day_time_of (some (d, ms)) = some (record { days = d; milliseconds = ms })

unfoldable pub month_day_nano_fields : Option IntervalMonthDayNano → Option (ℤ × ℤ × ℤ)
month_day_nano_fields none = none
month_day_nano_fields (some v) = some (v.months, v.days, v.nanoseconds)

unfoldable pub month_day_nano_of : Option (ℤ × ℤ × ℤ) → Option IntervalMonthDayNano
month_day_nano_of none = none
month_day_nano_of (some (m, d, ns)) = some (record { months = m; days = d; nanoseconds = ns })

module _ {h : Host} where
  unfoldable pub from_value : ScalarValue h → Result (TtError h) (ScalarValueRepr h)
  from_value ScalarValue.null = ok ScalarValueRepr.null
  from_value (ScalarValue.boolean v) = ok (ScalarValueRepr.boolean v)
  from_value (ScalarValue.float32 v) = ok (ScalarValueRepr.float32 v)
  from_value (ScalarValue.float64 v) = ok (ScalarValueRepr.float64 v)
  from_value (ScalarValue.decimal128 v p s) = ok (ScalarValueRepr.decimal128 v p s)
  from_value (ScalarValue.decimal256 v p s) =
      ok (ScalarValueRepr.decimal256 (decimal256_to_string h v) p s)
  from_value (ScalarValue.int8 v) = ok (ScalarValueRepr.int8 v)
  from_value (ScalarValue.int16 v) = ok (ScalarValueRepr.int16 v)
  from_value (ScalarValue.int32 v) = ok (ScalarValueRepr.int32 v)
  from_value (ScalarValue.int64 v) = ok (ScalarValueRepr.int64 v)
  from_value (ScalarValue.uint8 v) = ok (ScalarValueRepr.uint8 v)
  from_value (ScalarValue.uint16 v) = ok (ScalarValueRepr.uint16 v)
  from_value (ScalarValue.uint32 v) = ok (ScalarValueRepr.uint32 v)
  from_value (ScalarValue.uint64 v) = ok (ScalarValueRepr.uint64 v)
  from_value (ScalarValue.utf8 v) = ok (ScalarValueRepr.utf8 v)
  from_value (ScalarValue.utf8_view v) = ok (ScalarValueRepr.utf8_view v)
  from_value (ScalarValue.large_utf8 v) = ok (ScalarValueRepr.large_utf8 v)
  from_value (ScalarValue.binary v) = ok (ScalarValueRepr.binary v)
  from_value (ScalarValue.binary_view v) = ok (ScalarValueRepr.binary_view v)
  from_value (ScalarValue.fixed_size_binary n v) = ok (ScalarValueRepr.fixed_size_binary n v)
  from_value (ScalarValue.large_binary v) = ok (ScalarValueRepr.large_binary v)
  from_value (ScalarValue.date32 v) = ok (ScalarValueRepr.date32 v)
  from_value (ScalarValue.date64 v) = ok (ScalarValueRepr.date64 v)
  from_value (ScalarValue.time32_second v) = ok (ScalarValueRepr.time32_second v)
  from_value (ScalarValue.time32_millisecond v) = ok (ScalarValueRepr.time32_millisecond v)
  from_value (ScalarValue.time64_microsecond v) = ok (ScalarValueRepr.time64_microsecond v)
  from_value (ScalarValue.time64_nanosecond v) = ok (ScalarValueRepr.time64_nanosecond v)
  from_value (ScalarValue.timestamp_second v tz) = ok (ScalarValueRepr.timestamp_second v tz)
  from_value (ScalarValue.timestamp_millisecond v tz) =
      ok (ScalarValueRepr.timestamp_millisecond v tz)
  from_value (ScalarValue.timestamp_microsecond v tz) =
      ok (ScalarValueRepr.timestamp_microsecond v tz)
  from_value (ScalarValue.timestamp_nanosecond v tz) =
      ok (ScalarValueRepr.timestamp_nanosecond v tz)
  from_value (ScalarValue.interval_year_month v) = ok (ScalarValueRepr.interval_year_month v)
  from_value (ScalarValue.interval_day_time v) =
      ok (ScalarValueRepr.interval_day_time (day_time_fields v))
  from_value (ScalarValue.interval_month_day_nano v) =
      ok (ScalarValueRepr.interval_month_day_nano (month_day_nano_fields v))
  from_value (ScalarValue.duration_second v) = ok (ScalarValueRepr.duration_second v)
  from_value (ScalarValue.duration_millisecond v) = ok (ScalarValueRepr.duration_millisecond v)
  from_value (ScalarValue.duration_microsecond v) = ok (ScalarValueRepr.duration_microsecond v)
  from_value (ScalarValue.duration_nanosecond v) = ok (ScalarValueRepr.duration_nanosecond v)
  from_value (ScalarValue.other x) = err serialization

  unfoldable pub to_value : ScalarValueRepr h → Result (TtError h) (ScalarValue h)
  to_value ScalarValueRepr.null = ok ScalarValue.null
  to_value (ScalarValueRepr.boolean v) = ok (ScalarValue.boolean v)
  to_value (ScalarValueRepr.float32 v) = ok (ScalarValue.float32 v)
  to_value (ScalarValueRepr.float64 v) = ok (ScalarValue.float64 v)
  to_value (ScalarValueRepr.decimal128 v p s) = ok (ScalarValue.decimal128 v p s)
  to_value (ScalarValueRepr.decimal256 v p s) = do
    parsed ← parse_decimal256 h v
    ok (ScalarValue.decimal256 parsed p s)
  to_value (ScalarValueRepr.int8 v) = ok (ScalarValue.int8 v)
  to_value (ScalarValueRepr.int16 v) = ok (ScalarValue.int16 v)
  to_value (ScalarValueRepr.int32 v) = ok (ScalarValue.int32 v)
  to_value (ScalarValueRepr.int64 v) = ok (ScalarValue.int64 v)
  to_value (ScalarValueRepr.uint8 v) = ok (ScalarValue.uint8 v)
  to_value (ScalarValueRepr.uint16 v) = ok (ScalarValue.uint16 v)
  to_value (ScalarValueRepr.uint32 v) = ok (ScalarValue.uint32 v)
  to_value (ScalarValueRepr.uint64 v) = ok (ScalarValue.uint64 v)
  to_value (ScalarValueRepr.utf8 v) = ok (ScalarValue.utf8 v)
  to_value (ScalarValueRepr.utf8_view v) = ok (ScalarValue.utf8_view v)
  to_value (ScalarValueRepr.large_utf8 v) = ok (ScalarValue.large_utf8 v)
  to_value (ScalarValueRepr.binary v) = ok (ScalarValue.binary v)
  to_value (ScalarValueRepr.binary_view v) = ok (ScalarValue.binary_view v)
  to_value (ScalarValueRepr.fixed_size_binary n v) = ok (ScalarValue.fixed_size_binary n v)
  to_value (ScalarValueRepr.large_binary v) = ok (ScalarValue.large_binary v)
  to_value (ScalarValueRepr.date32 v) = ok (ScalarValue.date32 v)
  to_value (ScalarValueRepr.date64 v) = ok (ScalarValue.date64 v)
  to_value (ScalarValueRepr.time32_second v) = ok (ScalarValue.time32_second v)
  to_value (ScalarValueRepr.time32_millisecond v) = ok (ScalarValue.time32_millisecond v)
  to_value (ScalarValueRepr.time64_microsecond v) = ok (ScalarValue.time64_microsecond v)
  to_value (ScalarValueRepr.time64_nanosecond v) = ok (ScalarValue.time64_nanosecond v)
  to_value (ScalarValueRepr.timestamp_second v tz) = ok (ScalarValue.timestamp_second v tz)
  to_value (ScalarValueRepr.timestamp_millisecond v tz) =
      ok (ScalarValue.timestamp_millisecond v tz)
  to_value (ScalarValueRepr.timestamp_microsecond v tz) =
      ok (ScalarValue.timestamp_microsecond v tz)
  to_value (ScalarValueRepr.timestamp_nanosecond v tz) = ok (ScalarValue.timestamp_nanosecond v tz)
  to_value (ScalarValueRepr.interval_year_month v) = ok (ScalarValue.interval_year_month v)
  to_value (ScalarValueRepr.interval_day_time v) =
      ok (ScalarValue.interval_day_time (day_time_of v))
  to_value (ScalarValueRepr.interval_month_day_nano v) =
      ok (ScalarValue.interval_month_day_nano (month_day_nano_of v))
  to_value (ScalarValueRepr.duration_second v) = ok (ScalarValue.duration_second v)
  to_value (ScalarValueRepr.duration_millisecond v) = ok (ScalarValue.duration_millisecond v)
  to_value (ScalarValueRepr.duration_microsecond v) = ok (ScalarValue.duration_microsecond v)
  to_value (ScalarValueRepr.duration_nanosecond v) = ok (ScalarValue.duration_nanosecond v)
