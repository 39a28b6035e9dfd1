-- ===== src/Datafusion/Arrow.antt =====
-- `arrow::datatypes::{DataType, Field}`: every variant, with the fields that the program reads.
use truth_table.Common.{Bool, Option, String, ℕ}
use truth_table.Common.Int.{ℤ}
use truth_table.Datafusion.Host.{Host}

pub data TimeUnit : Type 0 where
  second millisecond microsecond nanosecond : TimeUnit

pub data IntervalUnit : Type 0 where
  year_month day_time month_day_nano : IntervalUnit

mutual
  pub data DataType (h : Host) : Type 0 where
    null boolean : DataType h
    int8 int16 int32 int64 : DataType h
    uint8 uint16 uint32 uint64 : DataType h
    float16 float32 float64 : DataType h
    timestamp : TimeUnit → Option String → DataType h
    date32 date64 : DataType h
    time32 time64 duration : TimeUnit → DataType h
    interval : IntervalUnit → DataType h
    binary large_binary binary_view : DataType h
    fixed_size_binary : ℤ → DataType h
    utf8 large_utf8 utf8_view : DataType h
    list large_list list_view large_list_view : Field h → DataType h
    fixed_size_list : Field h → ℤ → DataType h
    struct : Fields h → DataType h
    -- its two fields are read nowhere
    union : DataType h
    dictionary : DataType h → DataType h → DataType h
    decimal128 decimal256 : ℕ → ℤ → DataType h
    map : Field h → Bool → DataType h
    run_end_encoded : Field h → Field h → DataType h

  pub data Field (h : Host) : Type 0 where
    field : String → DataType h → Bool → h.Metadata → Field h

  pub data Fields (h : Host) : Type 0 where
    nil : Fields h
    cons : Field h → Fields h → Fields h

pub record Schema (h : Host) : Type 0 where
  pub fields : Fields h
  pub metadata : h.Metadata
