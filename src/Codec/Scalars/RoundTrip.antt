-- ===== src/Codec/Scalars/RoundTrip.antt =====
-- `to_value` after `from_value` (crates/tt-core/src/irs/codec.rs).
use truth_table.Common.{◌≡◌, refl, ok, none, some, Option, arith, Restores, Restores-ok}
use truth_table.Datafusion.Host.{Host, IsLawful}
use truth_table.Datafusion.Scalar.{ScalarValue, IntervalDayTime, IntervalMonthDayNano}
use truth_table.Codec.Scalars.{
  ScalarValueRepr, from_value, to_value, decimal256_to_string, parse_decimal256, day_time_fields,
  day_time_of, month_day_nano_fields, month_day_nano_of,
}

day_time_of-fields : (v : Option IntervalDayTime) → day_time_of (day_time_fields v) ≡ v
unfolding day_time_of day_time_fields
day_time_of-fields none = refl
day_time_of-fields (some v) = refl

month_day_nano_of-fields :
    (v : Option IntervalMonthDayNano) → month_day_nano_of (month_day_nano_fields v) ≡ v
unfolding month_day_nano_of month_day_nano_fields
month_day_nano_of-fields none = refl
month_day_nano_of-fields (some v) = refl

module _ {h : Host} (law : IsLawful h) where
  parse-decimal256_to_string :
      (v : Option h.I256) → parse_decimal256 h (decimal256_to_string h v) ≡ ok v
  unfolding parse_decimal256 decimal256_to_string
  parse-decimal256_to_string none = refl
  parse-decimal256_to_string (some v) = rw (law.i256_parse-to_string v)

  pub value-Restores : (v : ScalarValue h) → Restores (from_value v) to_value v
  unfolding from_value to_value
  value-Restores (ScalarValue.decimal256 v p s) = rw (parse-decimal256_to_string v)
  value-Restores (ScalarValue.interval_day_time v) = rw (day_time_of-fields v)
  value-Restores (ScalarValue.interval_month_day_nano v) = rw (month_day_nano_of-fields v)
  value-Restores _ = ground arith

-- If the host's printed integers can be read back, then every scalar that `from_value` translates
-- is given back by `to_value`.
pub to_value-from_value :
    {h : Host} (law : IsLawful h) (v : ScalarValue h) {r : ScalarValueRepr h}
    → from_value v ≡ ok r
    → to_value r ≡ ok v
to_value-from_value law v = Restores-ok (from_value v) to_value v (value-Restores law v)
