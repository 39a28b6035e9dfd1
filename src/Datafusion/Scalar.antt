-- ===== src/Datafusion/Scalar.antt =====
-- `datafusion_common::ScalarValue`. A signed integer is an element of ℤ, an unsigned one or a byte
-- a number.
use truth_table.Common.{Bool, List, Option, String, ℕ}
use truth_table.Common.Int.{ℤ}
use truth_table.Datafusion.Host.{Host}

pub record IntervalDayTime : Type 0 where
  pub days : ℤ
  pub milliseconds : ℤ

pub record IntervalMonthDayNano : Type 0 where
  pub months : ℤ
  pub days : ℤ
  pub nanoseconds : ℤ

pub data ScalarValue (h : Host) : Type 0 where
  null : ScalarValue h
  boolean : Option Bool → ScalarValue h
  float32 : Option h.F32 → ScalarValue h
  float64 : Option h.F64 → ScalarValue h
  decimal128 : Option ℤ → ℕ → ℤ → ScalarValue h
  decimal256 : Option h.I256 → ℕ → ℤ → ScalarValue h
  int8 int16 int32 int64 : Option ℤ → ScalarValue h
  uint8 uint16 uint32 uint64 : Option ℕ → ScalarValue h
  utf8 utf8_view large_utf8 : Option String → ScalarValue h
  binary binary_view : Option (List ℕ) → ScalarValue h
  fixed_size_binary : ℤ → Option (List ℕ) → ScalarValue h
  large_binary : Option (List ℕ) → ScalarValue h
  date32 date64 : Option ℤ → ScalarValue h
  time32_second time32_millisecond : Option ℤ → ScalarValue h
  time64_microsecond time64_nanosecond : Option ℤ → ScalarValue h
  timestamp_second timestamp_millisecond : Option ℤ → Option String → ScalarValue h
  timestamp_microsecond timestamp_nanosecond : Option ℤ → Option String → ScalarValue h
  interval_year_month : Option ℤ → ScalarValue h
  interval_day_time : Option IntervalDayTime → ScalarValue h
  interval_month_day_nano : Option IntervalMonthDayNano → ScalarValue h
  duration_second duration_millisecond : Option ℤ → ScalarValue h
  duration_microsecond duration_nanosecond : Option ℤ → ScalarValue h
  other : h.OtherScalar → ScalarValue h
