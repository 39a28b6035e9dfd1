-- ===== src/Encoding/Arrays.antt =====
-- `encode_arrow_array_to_field`, `Encodable::encode` of each array type and `scalar_to_field`
-- (crates/tt-arithmetic/src/encoding.rs). An array is its data type and its values, `none` for a null.
pub mod Rows
pub mod RoundTrip
use truth_table.Common.{
  ℕ, zero, suc, List, [], ◌∷◌, ◌++◌, Option, none, some, Bool, true, false, ◌&&◌, if◌then◌else◌,
  ltb, leb, Result, ok, err, String, length, get_elem?, replicate,
}
use truth_table.Common.Int.{ℤ}
use truth_table.Datafusion.Host.{Host}
use truth_table.Datafusion.Arrow.{DataType, TimeUnit, IntervalUnit, Field}
use truth_table.Field.{PrimeField}
use truth_table.Sign.Chunks.{twos_complement}
use truth_table.Encoding.Columns.{collect_by_columns}
use truth_table.Encoding.Bytes.{le_bytes, encode_bytes_to_fields, encode_hashed_bytes}

-- What is not supported: a kind of array by its name, or a unit, key type or index type.
pub data Unsupported (h : Host) : Type 0 where
  named : String → Unsupported h
  time32_unit time64_unit : TimeUnit → Unsupported h
  dictionary_key run_end_index : DataType h → Unsupported h

pub data EncodeError (h : Host) : Type 0 where
  type_not_supported : Unsupported h → EncodeError h
  size_not_supported : String → EncodeError h

-- The values of an array of a type; of a floating point number the bits, of text the bytes. Arrays
-- whose values are not read have the unit type.
abbrev pub Native : {h : Host} → DataType h → Type 0
Native DataType.boolean = Bool
Native DataType.int8 = ℤ
Native DataType.int16 = ℤ
Native DataType.int32 = ℤ
Native DataType.int64 = ℤ
Native DataType.uint8 = ℕ
Native DataType.uint16 = ℕ
Native DataType.uint32 = ℕ
Native DataType.uint64 = ℕ
Native DataType.float16 = ℕ
Native DataType.float32 = ℕ
Native DataType.float64 = ℕ
Native (DataType.timestamp _ _) = ℤ
Native DataType.date32 = ℤ
Native DataType.date64 = ℤ
Native (DataType.time32 _) = ℤ
Native (DataType.time64 _) = ℤ
Native (DataType.duration _) = ℤ
Native (DataType.interval IntervalUnit.year_month) = ℤ
Native (DataType.interval IntervalUnit.day_time) = ℤ × ℤ
Native (DataType.interval IntervalUnit.month_day_nano) = ℤ × ℤ × ℤ
Native DataType.binary = List ℕ
Native DataType.large_binary = List ℕ
Native DataType.binary_view = List ℕ
Native (DataType.fixed_size_binary _) = List ℕ
Native DataType.utf8 = List ℕ
Native DataType.large_utf8 = List ℕ
Native DataType.utf8_view = List ℕ
Native (DataType.decimal128 _ _) = ℤ
Native (DataType.decimal256 _ _) = ℤ
Native _ = Unit

-- the length of the longest text
abbrev pub max_len : List (Option (List ℕ)) → ℕ
max_len [] = 0
max_len (none ∷ values) = max_len values
max_len (some v ∷ values) =
    let rest = max_len values in if ltb rest (length v) then length v else rest

module _ (k : PrimeField) where
  -- a row of an array: what `is_null(idx)` and `value(idx)` give
  abbrev pub row_of : {A : Type 0} → List k.F → (A → List k.F) → Option (Option A) → List k.F
  row_of null_row f none = null_row
  row_of null_row f (some none) = null_row
  row_of null_row f (some (some v)) = f v

  -- `impl_col_adapter_map!`
  unfoldable pub encode_map : {A : Type 0} → (A → k.F) → List (Option A) → List (List k.F)
  encode_map map values =
      collect_by_columns k (length values)
        (λ idx. row_of (k.zero_F ∷ []) (λ v. map v ∷ []) (get_elem? values idx))

  -- the other array types: no value at a null
  unfoldable pub encode_rows : {A : Type 0} → (A → List k.F) → List (Option A) → List (List k.F)
  encode_rows row values =
      collect_by_columns k (length values) (λ idx. row_of [] row (get_elem? values idx))

  -- the field of a text of at most one byte
  abbrev pub short_row : List ℕ → List k.F
  short_row [] = k.zero_F ∷ []
  short_row (b ∷ bytes) = k.from b ∷ []

  unfoldable pub encode_utf8_like : List (Option (List ℕ)) → ℕ → List (List k.F)
  unfolding encode_rows
  encode_utf8_like values short_string_threshold =
      if leb (max_len values) short_string_threshold && leb (max_len values) 1
      then encode_rows short_row values
      else encode_rows (encode_hashed_bytes k) values

  abbrev pub day_time_row : ℤ × ℤ → List k.F
  day_time_row (days, milliseconds) =
      encode_bytes_to_fields k
        (le_bytes 4 (twos_complement 32 days) ++ le_bytes 4 (twos_complement 32 milliseconds))

  abbrev pub month_day_nano_row : ℤ × ℤ × ℤ → List k.F
  month_day_nano_row (months, days, nanoseconds) = encode_bytes_to_fields k (
      le_bytes 4 (twos_complement 32 months)
      ++ (le_bytes 4 (twos_complement 32 days) ++ le_bytes 8 (twos_complement 64 nanoseconds)))

  abbrev pub bool_field : Bool → k.F
  bool_field true = k.one_F
  bool_field false = k.zero_F

-- the one field of one column of one row
abbrev pub single : {E A : Type 0} → Result E (List (List A)) → Option A
single (ok ((x ∷ []) ∷ [])) = some x
single _ = none

module _ {h : Host} (k : PrimeField) where
  abbrev unsupported : Unsupported h → Result (EncodeError h) (List (List k.F))
  unsupported what = err (EncodeError.type_not_supported what)

  -- the error of a dictionary, by the type of its keys
  abbrev dictionary_error : DataType h → Unsupported h
  dictionary_error DataType.int8 = Unsupported.named "Dictionary"
  dictionary_error DataType.int16 = Unsupported.named "Dictionary"
  dictionary_error DataType.int32 = Unsupported.named "Dictionary"
  dictionary_error DataType.int64 = Unsupported.named "Dictionary"
  dictionary_error DataType.uint8 = Unsupported.named "Dictionary"
  dictionary_error DataType.uint16 = Unsupported.named "Dictionary"
  dictionary_error DataType.uint32 = Unsupported.named "Dictionary"
  dictionary_error DataType.uint64 = Unsupported.named "Dictionary"
  dictionary_error other = Unsupported.dictionary_key other

  abbrev run_end_error : DataType h → Unsupported h
  run_end_error DataType.int16 = Unsupported.named "RunEndEncoded"
  run_end_error DataType.int32 = Unsupported.named "RunEndEncoded"
  run_end_error DataType.int64 = Unsupported.named "RunEndEncoded"
  run_end_error other = Unsupported.run_end_index other

  abbrev field_type : Field h → DataType h
  field_type (Field.field name t nullable metadata) = t

  unfoldable pub encode_arrow_array_to_field :
      (t : DataType h) → List (Option (Native t)) → Result (EncodeError h) (List (List k.F))
  unfolding encode_map encode_rows encode_utf8_like
  encode_arrow_array_to_field DataType.null vs = ok (replicate (length vs) k.zero_F ∷ [])
  encode_arrow_array_to_field DataType.boolean vs = ok (encode_map k (bool_field k) vs)
  encode_arrow_array_to_field DataType.int8 vs = ok (encode_map k k.from_signed vs)
  encode_arrow_array_to_field DataType.int16 vs = ok (encode_map k k.from_signed vs)
  encode_arrow_array_to_field DataType.int32 vs = ok (encode_map k k.from_signed vs)
  encode_arrow_array_to_field DataType.int64 vs = ok (encode_map k k.from_signed vs)
  encode_arrow_array_to_field DataType.uint8 vs = ok (encode_map k k.from vs)
  encode_arrow_array_to_field DataType.uint16 vs = ok (encode_map k k.from vs)
  encode_arrow_array_to_field DataType.uint32 vs = ok (encode_map k k.from vs)
  encode_arrow_array_to_field DataType.uint64 vs = ok (encode_map k k.from vs)
  encode_arrow_array_to_field DataType.float16 vs = ok (encode_map k k.from vs)
  encode_arrow_array_to_field DataType.float32 vs = ok (encode_map k k.from vs)
  encode_arrow_array_to_field DataType.float64 vs = ok (encode_map k k.from vs)
  encode_arrow_array_to_field (DataType.timestamp u z) vs = ok (encode_map k k.from_signed vs)
  encode_arrow_array_to_field DataType.date32 vs = ok (encode_map k k.from_signed vs)
  encode_arrow_array_to_field DataType.date64 vs = ok (encode_map k k.from_signed vs)
  encode_arrow_array_to_field (DataType.time32 TimeUnit.second) vs =
      ok (encode_map k k.from_signed vs)
  encode_arrow_array_to_field (DataType.time32 TimeUnit.millisecond) vs =
      ok (encode_map k k.from_signed vs)
  encode_arrow_array_to_field (DataType.time32 u) vs = unsupported (Unsupported.time32_unit u)
  encode_arrow_array_to_field (DataType.time64 TimeUnit.microsecond) vs =
      ok (encode_map k k.from_signed vs)
  encode_arrow_array_to_field (DataType.time64 TimeUnit.nanosecond) vs =
      ok (encode_map k k.from_signed vs)
  encode_arrow_array_to_field (DataType.time64 u) vs = unsupported (Unsupported.time64_unit u)
  encode_arrow_array_to_field (DataType.duration u) vs = ok (encode_map k k.from_signed vs)
  encode_arrow_array_to_field (DataType.interval IntervalUnit.year_month) vs =
      ok (encode_map k k.from_signed vs)
  encode_arrow_array_to_field (DataType.interval IntervalUnit.day_time) vs =
      ok (encode_rows k (day_time_row k) vs)
  encode_arrow_array_to_field (DataType.interval IntervalUnit.month_day_nano) vs =
      ok (encode_rows k (month_day_nano_row k) vs)
  encode_arrow_array_to_field DataType.binary vs = ok (encode_rows k (encode_hashed_bytes k) vs)
  encode_arrow_array_to_field DataType.large_binary vs =
      ok (encode_rows k (encode_hashed_bytes k) vs)
  encode_arrow_array_to_field DataType.binary_view vs =
      ok (encode_rows k (encode_hashed_bytes k) vs)
  encode_arrow_array_to_field (DataType.fixed_size_binary n) vs =
      ok (encode_rows k (encode_hashed_bytes k) vs)
  encode_arrow_array_to_field DataType.utf8 vs = ok (encode_utf8_like k vs 32)
  encode_arrow_array_to_field DataType.large_utf8 vs = ok (encode_utf8_like k vs 32)
  encode_arrow_array_to_field DataType.utf8_view vs = ok (encode_utf8_like k vs 32)
  encode_arrow_array_to_field (DataType.list f) vs = unsupported (Unsupported.named "List")
  encode_arrow_array_to_field (DataType.large_list f) vs =
      unsupported (Unsupported.named "LargeList")
  encode_arrow_array_to_field (DataType.list_view f) vs = unsupported (Unsupported.named "ListView")
  encode_arrow_array_to_field (DataType.large_list_view f) vs =
      unsupported (Unsupported.named "LargeListView")
  encode_arrow_array_to_field (DataType.fixed_size_list f n) vs =
      unsupported (Unsupported.named "FixedSizeList")
  encode_arrow_array_to_field (DataType.struct fs) vs = unsupported (Unsupported.named "Struct")
  encode_arrow_array_to_field DataType.union vs = unsupported (Unsupported.named "Union")
  encode_arrow_array_to_field (DataType.dictionary key value) vs =
      unsupported (dictionary_error key)
  encode_arrow_array_to_field (DataType.map f sorted) vs = unsupported (Unsupported.named "Map")
  encode_arrow_array_to_field (DataType.decimal128 p s) vs =
      ok (encode_map k (λ v. k.from (twos_complement 128 v)) vs)
  encode_arrow_array_to_field (DataType.decimal256 p s) vs =
      ok (encode_map k (λ v. k.from (twos_complement 256 v)) vs)
  encode_arrow_array_to_field (DataType.run_end_encoded ends value) vs =
      unsupported (run_end_error (field_type ends))

  -- `scalar_to_field` of a scalar whose `to_array` is one value of a type
  unfoldable pub scalar_to_field : (t : DataType h) → Option (Native t) → Option k.F
  unfolding encode_arrow_array_to_field
  scalar_to_field t value = single (encode_arrow_array_to_field t (value ∷ []))
