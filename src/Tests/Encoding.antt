-- ===== src/Tests/Encoding.antt =====
-- Arrays of two rows, encoded over the numbers below the prime 2 ^ 255 - 19.
use truth_table.Common.{
  ℕ, ◌-◌, ◌^◌, ◌<◌, ◌≡◌, refl, List, [], ◌∷◌, Option, none, some, ok, length, replicate, arith,
}
use truth_table.Common.Int.{ℤ, pos, negsuc}
use truth_table.Datafusion.Arrow.{DataType}
use truth_table.Field.{PrimeField, IsLawful}
use truth_table.Field.Modular.{modular, modular-IsLawful}
use truth_table.Sign.Chunks.{twos_complement}
use truth_table.Encoding.Columns.{collect_by_columns}
use truth_table.Encoding.Columns.Shape.{AreColumns, FitsIn, collect_by_columns-AreColumns}
use truth_table.Encoding.Bytes.{encode_bytes_to_fields}
use truth_table.Encoding.Bytes.Chunks.{Packs, encode_bytes_to_fields-Packs}
use truth_table.Encoding.Arrays.{encode_arrow_array_to_field, scalar_to_field, encode_map}
use truth_table.Encoding.Arrays.Rows.{
  Encodes, encoder, texts_are_short, first_value, encode-Encodes, scalar_to_field-first_value,
}
use truth_table.Encoding.Arrays.RoundTrip.{SignedType, ReadsAs, encode-ReadsAs}
use truth_table.Tests.Database.{host}

abbrev modulus : ℕ
modulus = 2 ^ 255 - 19

one-lt-modulus : 1 < modulus
one-lt-modulus = omega arith

abbrev field : PrimeField
field = modular modulus 255 one-lt-modulus

field-IsLawful : IsLawful field
field-IsLawful = modular-IsLawful modulus 255 one-lt-modulus (omega arith)

abbrev triangle : ℕ → List field.F
triangle i = replicate i field.one_F

collect_by_columns-AreColumns_example :
    AreColumns field triangle 3 0 (collect_by_columns field 3 triangle)
    × FitsIn field triangle 3 (length (collect_by_columns field 3 triangle))
    × (0 < length (collect_by_columns field 3 triangle))
collect_by_columns-AreColumns_example = collect_by_columns-AreColumns field triangle 3

-- "ab" and a null
abbrev words : List (Option (List ℕ))
words = some (97 ∷ 98 ∷ []) ∷ none ∷ []

encode-Encodes_example :
    Encodes field
      (encode_arrow_array_to_field {h = host} field DataType.utf8 words)
      (encoder field {h = host} DataType.utf8 (texts_are_short {h = host} DataType.utf8 words))
      words
encode-Encodes_example = encode-Encodes field (omega arith) DataType.utf8 words

-- -3 and a null
abbrev balances : List (Option ℤ)
balances = some (negsuc 2) ∷ none ∷ []

abbrev encoded : List (List field.F)
encoded = encode_map field field.from_signed balances

encoded-ok : encode_arrow_array_to_field {h = host} field DataType.int64 balances ≡ ok encoded
unfolding encode_arrow_array_to_field
encoded-ok = refl

decimals-ok :
    encode_arrow_array_to_field {h = host} field (DataType.decimal128 15 (pos 2)) balances
    ≡ ok (encode_map field (λ x. field.from (twos_complement 128 x)) balances)
unfolding encode_arrow_array_to_field
decimals-ok = refl

scalar_to_field-first_value_example :
    scalar_to_field {h = host} field DataType.int64 (some (negsuc 2)) ≡ first_value encoded 0
scalar_to_field-first_value_example =
    scalar_to_field-first_value field DataType.int64 balances 0 (some (negsuc 2)) (omega arith)
      encoded-ok refl refl

encode-ReadsAs_example :
    ReadsAs field
      (encode_map field (λ x. field.from (twos_complement 128 x)) balances)
      0
      128
      (negsuc 2)
encode-ReadsAs_example =
    encode-ReadsAs field-IsLawful (SignedType.decimal128 15 (pos 2)) balances 0 (negsuc 2)
      (omega arith) decimals-ok refl (omega arith)

-- 40 bytes, so 32 and 8
encode_bytes_to_fields-Packs_example :
    Packs field-IsLawful 32 (replicate 40 7) (encode_bytes_to_fields field (replicate 40 7))
encode_bytes_to_fields-Packs_example = encode_bytes_to_fields-Packs field-IsLawful (replicate 40 7)
