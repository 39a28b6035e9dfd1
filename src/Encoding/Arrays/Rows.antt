-- ===== src/Encoding/Arrays/Rows.antt =====
-- The rows of encoded arrays: which types are encoded, and what a row becomes.
use mathlib.Core.Path.{subst}
use truth_table.Common.{
  ℕ, zero, suc, ◌≤◌, ◌<◌, ◌≡◌, refl, sym, ap, ◌∙◌, List, [], ◌∷◌, Option, none, some, Bool, true,
  false, ◌&&◌, if◌then◌else◌, leb, Result, ok, err, length, length-replicate, replicate, get_elem?,
  arith, Bool-cases, inl, inr,
}
use truth_table.Datafusion.Host.{Host}
use truth_table.Datafusion.Arrow.{DataType, TimeUnit, IntervalUnit}
use truth_table.Field.{PrimeField}
use truth_table.Sign.Chunks.{twos_complement}
use truth_table.Encoding.Columns.{field_at, collect_by_columns}
use truth_table.Encoding.Columns.Shape.{
  get_elem?-replicate, AreColumns, collect_by_columns-AreColumns, collect_by_columns-one,
}
use truth_table.Encoding.Bytes.{
  encode_hashed_bytes, encode_hashed_bytes-one, encode_bytes_to_fields-one, capacity-le,
}
use truth_table.Encoding.Arrays.{
  EncodeError, Native, row_of, max_len, short_row, day_time_row, month_day_nano_row, bool_field,
  encode_map, encode_rows, encode_utf8_like, encode_arrow_array_to_field, single, scalar_to_field,
}

module _ (k : PrimeField) where
  abbrev RowEncoder : Type 0 → Type 0
  RowEncoder A = Option (Option A) → List k.F

  abbrev pub mapped : {A : Type 0} → (A → k.F) → RowEncoder A
  mapped f = row_of k (k.zero_F ∷ []) (λ v. f v ∷ [])

  abbrev pub text : Bool → RowEncoder (List ℕ)
  text short = row_of k [] (if short then short_row k else encode_hashed_bytes k)

  -- how a row of a type is encoded, by whether the texts of the array have at most one byte; `none`
  -- for the types that are not supported
  abbrev pub encoder : {h : Host} (t : DataType h) → Bool → Option (RowEncoder (Native t))
  encoder DataType.null short = some (λ o. k.zero_F ∷ [])
  encoder DataType.boolean short = some (mapped (bool_field k))
  encoder DataType.int8 short = some (mapped k.from_signed)
  encoder DataType.int16 short = some (mapped k.from_signed)
  encoder DataType.int32 short = some (mapped k.from_signed)
  encoder DataType.int64 short = some (mapped k.from_signed)
  encoder DataType.uint8 short = some (mapped k.from)
  encoder DataType.uint16 short = some (mapped k.from)
  encoder DataType.uint32 short = some (mapped k.from)
  encoder DataType.uint64 short = some (mapped k.from)
  encoder DataType.float16 short = some (mapped k.from)
  encoder DataType.float32 short = some (mapped k.from)
  encoder DataType.float64 short = some (mapped k.from)
  encoder (DataType.timestamp u z) short = some (mapped k.from_signed)
  encoder DataType.date32 short = some (mapped k.from_signed)
  encoder DataType.date64 short = some (mapped k.from_signed)
  encoder (DataType.time32 TimeUnit.second) short = some (mapped k.from_signed)
  encoder (DataType.time32 TimeUnit.millisecond) short = some (mapped k.from_signed)
  encoder (DataType.time32 u) short = none
  encoder (DataType.time64 TimeUnit.microsecond) short = some (mapped k.from_signed)
  encoder (DataType.time64 TimeUnit.nanosecond) short = some (mapped k.from_signed)
  encoder (DataType.time64 u) short = none
  encoder (DataType.duration u) short = some (mapped k.from_signed)
  encoder (DataType.interval IntervalUnit.year_month) short = some (mapped k.from_signed)
  encoder (DataType.interval IntervalUnit.day_time) short = some (row_of k [] (day_time_row k))
  encoder (DataType.interval IntervalUnit.month_day_nano) short =
      some (row_of k [] (month_day_nano_row k))
  encoder DataType.binary short = some (text false)
  encoder DataType.large_binary short = some (text false)
  encoder DataType.binary_view short = some (text false)
  encoder (DataType.fixed_size_binary n) short = some (text false)
  encoder DataType.utf8 short = some (text short)
  encoder DataType.large_utf8 short = some (text short)
  encoder DataType.utf8_view short = some (text short)
  encoder (DataType.decimal128 p s) short = some (mapped (λ v. k.from (twos_complement 128 v)))
  encoder (DataType.decimal256 p s) short = some (mapped (λ v. k.from (twos_complement 256 v)))
  encoder _ short = none

-- whether the texts of an array have at most one byte, where it is one of texts
abbrev pub texts_are_short : {h : Host} (t : DataType h) → List (Option (Native t)) → Bool
texts_are_short DataType.utf8 vs = leb (max_len vs) 1
texts_are_short DataType.large_utf8 vs = leb (max_len vs) 1
texts_are_short DataType.utf8_view vs = leb (max_len vs) 1
texts_are_short t vs = true

module _ (k : PrimeField) where
  -- one column, row `i` of which is what the encoder makes of value `i`
  abbrev pub OneColumn :
      {A : Type 0} → (Option (Option A) → List k.F) → List (Option A) → List (List k.F) → Type 0
  OneColumn encode vs columns =
      AreColumns k (λ i. encode (get_elem? vs i)) (length vs) 0 columns × (length columns ≡ 1)

  -- what an encoder of rows makes of the result, and that there is an error without one
  abbrev pub Encodes :
      {A E : Type 0}
      → Result E (List (List k.F))
      → Option (Option (Option A) → List k.F)
      → List (Option A)
      → Type 0
  Encodes {E = E} r none vs = (e : E) × (r ≡ err e)
  Encodes r (some encode) vs =
      (columns : List (List k.F)) × (r ≡ ok columns) × OneColumn encode vs columns

  collected :
      {A : Type 0} (encode : Option (Option A) → List k.F) (vs : List (Option A))
      → ((o : Option (Option A)) → length (encode o) ≤ 1)
      → OneColumn encode vs (collect_by_columns k (length vs) (λ i. encode (get_elem? vs i)))
  collected encode vs short = (
    (collect_by_columns-AreColumns k (λ i. encode (get_elem? vs i)) (length vs)).0,
    collect_by_columns-one k (λ i. encode (get_elem? vs i)) (length vs)
        (λ i. short (get_elem? vs i)),
  )

  row_of-short :
      {A : Type 0} (null_row : List k.F) (f : A → List k.F)
      → length null_row ≤ 1
      → ((v : A) → length (f v) ≤ 1)
      → (o : Option (Option A)) → length (row_of k null_row f o) ≤ 1
  row_of-short null_row f h hf none = h
  row_of-short null_row f h hf (some none) = h
  row_of-short null_row f h hf (some (some v)) = hf v

  encode_map-Encodes :
      {A E : Type 0} (f : A → k.F) (vs : List (Option A))
      → Encodes {E = E}
          (ok (encode_map k f vs))
          (some (row_of k (k.zero_F ∷ []) (λ v. f v ∷ [])))
          vs
  unfolding encode_map
  encode_map-Encodes f vs = (
    encode_map k f vs,
    refl,
    collected (row_of k (k.zero_F ∷ []) (λ v. f v ∷ [])) vs
        (row_of-short (k.zero_F ∷ []) (λ v. f v ∷ []) (omega arith) (λ v. omega arith)),
  )

  encode_rows-Encodes :
      {A E : Type 0} (f : A → List k.F) (vs : List (Option A))
      → ((v : A) → length (f v) ≤ 1)
      → Encodes {E = E} (ok (encode_rows k f vs)) (some (row_of k [] f)) vs
  unfolding encode_rows
  encode_rows-Encodes f vs short = (
    encode_rows k f vs,
    refl,
    collected (row_of k [] f) vs (row_of-short [] f (omega arith) short),
  )

  short_row-short : (v : List ℕ) → length (short_row k v) ≤ 1
  short_row-short [] = omega arith
  short_row-short (b ∷ v) = omega arith

  module _ (big : 248 < k.modulus_bit_size) where
    text-Encodes :
        {E : Type 0} (vs : List (Option (List ℕ)))
        → Encodes {E = E} (ok (encode_utf8_like k vs 32)) (some (text k (leb (max_len vs) 1))) vs
    unfolding encode_utf8_like
    text-Encodes vs = elim (Bool-cases (leb (max_len vs) 1)) [
      | inl e ↦
          let within : leb (max_len vs) 32 ≡ true = ground arith in
          rw (within, e) (encode_rows-Encodes (short_row k) vs short_row-short)
      | inr e ↦
          let no : (leb (max_len vs) 32 && leb (max_len vs) 1) ≡ false = ground (arith, e) in
          rw (no, e)
            (encode_rows-Encodes (encode_hashed_bytes k) vs (λ v. encode_hashed_bytes-one k v big))
    ]

    null-Encodes :
        {A E : Type 0} (vs : List (Option A))
        → Encodes {E = E} (ok (replicate (length vs) k.zero_F ∷ [])) (some (λ o. k.zero_F ∷ [])) vs
    unfolding AreColumns
    null-Encodes vs = (
      replicate (length vs) k.zero_F ∷ [],
      refl,
      (
        (
          (
            length-replicate (length vs) k.zero_F,
            λ i lt. get_elem?-replicate (length vs) k.zero_F i lt,
          ),
          tt,
        ),
        refl,
      ),
    )

    -- Over a field of more than 248 bits: an array of a type that has an encoder of rows is encoded, as
    -- one column with a value for each row, which at each row is the first value that the encoder makes
    -- of the row; an array of another type is an error. In an array of texts the encoder depends on
    -- whether all texts have at most one byte.
    pub encode-Encodes :
        {h : Host} (t : DataType h) (vs : List (Option (Native t)))
        → Encodes (encode_arrow_array_to_field k t vs) (encoder k t (texts_are_short t vs)) vs
    unfolding encode_arrow_array_to_field encoder
    encode-Encodes DataType.null vs = null-Encodes vs
    encode-Encodes DataType.boolean vs = encode_map-Encodes (bool_field k) vs
    encode-Encodes DataType.int8 vs = encode_map-Encodes k.from_signed vs
    encode-Encodes DataType.int16 vs = encode_map-Encodes k.from_signed vs
    encode-Encodes DataType.int32 vs = encode_map-Encodes k.from_signed vs
    encode-Encodes DataType.int64 vs = encode_map-Encodes k.from_signed vs
    encode-Encodes DataType.uint8 vs = encode_map-Encodes k.from vs
    encode-Encodes DataType.uint16 vs = encode_map-Encodes k.from vs
    encode-Encodes DataType.uint32 vs = encode_map-Encodes k.from vs
    encode-Encodes DataType.uint64 vs = encode_map-Encodes k.from vs
    encode-Encodes DataType.float16 vs = encode_map-Encodes k.from vs
    encode-Encodes DataType.float32 vs = encode_map-Encodes k.from vs
    encode-Encodes DataType.float64 vs = encode_map-Encodes k.from vs
    encode-Encodes (DataType.timestamp u z) vs = encode_map-Encodes k.from_signed vs
    encode-Encodes DataType.date32 vs = encode_map-Encodes k.from_signed vs
    encode-Encodes DataType.date64 vs = encode_map-Encodes k.from_signed vs
    encode-Encodes (DataType.time32 TimeUnit.second) vs = encode_map-Encodes k.from_signed vs
    encode-Encodes (DataType.time32 TimeUnit.millisecond) vs = encode_map-Encodes k.from_signed vs
    encode-Encodes (DataType.time32 TimeUnit.microsecond) vs = (_, refl)
    encode-Encodes (DataType.time32 TimeUnit.nanosecond) vs = (_, refl)
    encode-Encodes (DataType.time64 TimeUnit.second) vs = (_, refl)
    encode-Encodes (DataType.time64 TimeUnit.millisecond) vs = (_, refl)
    encode-Encodes (DataType.time64 TimeUnit.microsecond) vs = encode_map-Encodes k.from_signed vs
    encode-Encodes (DataType.time64 TimeUnit.nanosecond) vs = encode_map-Encodes k.from_signed vs
    encode-Encodes (DataType.duration u) vs = encode_map-Encodes k.from_signed vs
    encode-Encodes (DataType.interval IntervalUnit.year_month) vs =
        encode_map-Encodes k.from_signed vs
    encode-Encodes (DataType.interval IntervalUnit.day_time) vs =
        encode_rows-Encodes (day_time_row k) vs
          (λ v. encode_bytes_to_fields-one k _ (capacity-le k 8 (omega arith)))
    encode-Encodes (DataType.interval IntervalUnit.month_day_nano) vs =
        encode_rows-Encodes (month_day_nano_row k) vs
          (λ v. encode_bytes_to_fields-one k _ (capacity-le k 16 (omega arith)))
    encode-Encodes DataType.binary vs =
        encode_rows-Encodes (encode_hashed_bytes k) vs (λ v. encode_hashed_bytes-one k v big)
    encode-Encodes DataType.large_binary vs =
        encode_rows-Encodes (encode_hashed_bytes k) vs (λ v. encode_hashed_bytes-one k v big)
    encode-Encodes DataType.binary_view vs =
        encode_rows-Encodes (encode_hashed_bytes k) vs (λ v. encode_hashed_bytes-one k v big)
    encode-Encodes (DataType.fixed_size_binary n) vs =
        encode_rows-Encodes (encode_hashed_bytes k) vs (λ v. encode_hashed_bytes-one k v big)
    encode-Encodes DataType.utf8 vs = text-Encodes vs
    encode-Encodes DataType.large_utf8 vs = text-Encodes vs
    encode-Encodes DataType.utf8_view vs = text-Encodes vs
    encode-Encodes (DataType.decimal128 p s) vs =
        encode_map-Encodes (λ v. k.from (twos_complement 128 v)) vs
    encode-Encodes (DataType.decimal256 p s) vs =
        encode_map-Encodes (λ v. k.from (twos_complement 256 v)) vs
    encode-Encodes (DataType.list f) vs = (_, refl)
    encode-Encodes (DataType.large_list f) vs = (_, refl)
    encode-Encodes (DataType.list_view f) vs = (_, refl)
    encode-Encodes (DataType.large_list_view f) vs = (_, refl)
    encode-Encodes (DataType.fixed_size_list f n) vs = (_, refl)
    encode-Encodes (DataType.struct fs) vs = (_, refl)
    encode-Encodes DataType.union vs = (_, refl)
    encode-Encodes (DataType.dictionary key value) vs = (_, refl)
    encode-Encodes (DataType.map f b) vs = (_, refl)
    encode-Encodes (DataType.run_end_encoded ends value) vs = (_, refl)

-- the value of the first column at a row
abbrev pub first_value : {A : Type 0} → List (List A) → ℕ → Option A
first_value [] i = none
first_value (column ∷ columns) i = get_elem? column i

get_elem?-lt : {A : Type 0} (vs : List A) (i : ℕ) (v : A) → get_elem? vs i ≡ some v → i < length vs
get_elem?-lt [] i v e = cc
get_elem?-lt (x ∷ vs) zero v e = omega arith
get_elem?-lt (x ∷ vs) (suc i) v e = omega (arith, get_elem?-lt vs i v e)

unwrap : {E A : Type 0} → A → Result E A → A
unwrap a (ok b) = b
unwrap a (err e) = a

pub ok-injective : {E A : Type 0} {a b : A} → ◌≡◌ {A = Result E A} (ok a) (ok b) → a ≡ b
unfolding unwrap
ok-injective {a = a} e = ap (unwrap a) e

module _ (k : PrimeField) where
  OneColumn-first_value :
      {A : Type 0} (encode : Option (Option A) → List k.F) (vs : List (Option A))
      (columns : List (List k.F)) (i : ℕ) (v : Option A)
      → OneColumn k encode vs columns
      → get_elem? vs i ≡ some v
      → first_value columns i ≡ some (field_at k (encode (some v)) 0)
  unfolding AreColumns
  OneColumn-first_value encode vs [] i v one e = cc
  OneColumn-first_value encode vs (column ∷ columns) i v one e =
      one.0.0.1 i (get_elem?-lt vs i v e) ∙ ap (λ o. some (field_at k (encode o) 0)) e

  single-OneColumn :
      (E : Type 0) {A : Type 0} (encode : Option (Option A) → List k.F) (columns : List (List k.F))
      (v : Option A)
      → OneColumn k encode (v ∷ []) columns
      → single {E = E} (ok columns) ≡ some (field_at k (encode (some v)) 0)
  unfolding AreColumns
  single-OneColumn E encode [] v one = cc
  single-OneColumn E encode ([] ∷ columns) v one = cc
  single-OneColumn E encode ((x ∷ []) ∷ []) v one = one.0.0.1 0 (omega arith)
  single-OneColumn E encode ((x ∷ y ∷ xs) ∷ columns) v one = absurd (omega (arith, one.0.0.0))
  single-OneColumn E encode ((x ∷ []) ∷ c ∷ columns) v one = absurd (omega (arith, one.1))

  pub first_value-encode_map :
      {A : Type 0} (f : A → k.F) (vs : List (Option A)) (i : ℕ) (v : A)
      → get_elem? vs i ≡ some (some v)
      → first_value (encode_map k f vs) i ≡ some (f v)
  unfolding encode_map
  first_value-encode_map f vs i v e =
      OneColumn-first_value (row_of k (k.zero_F ∷ []) (λ x. f x ∷ [])) vs (encode_map k f vs) i
        (some v)
        (collected k (row_of k (k.zero_F ∷ []) (λ x. f x ∷ [])) vs
          (row_of-short k (k.zero_F ∷ []) (λ x. f x ∷ []) (omega arith) (λ x. omega arith)))
        e

  -- For a field of more than 248 bits: where an array is encoded, the first column has at the row of
  -- a value what `scalar_to_field` gives for that value alone, if, in an array of texts, the value
  -- has at most one byte exactly when all texts of the array have.
  pub scalar_to_field-first_value :
      {h : Host} (t : DataType h) (vs : List (Option (Native t))) (i : ℕ) (v : Option (Native t))
      {columns : List (List k.F)}
      → 248 < k.modulus_bit_size
      → encode_arrow_array_to_field k t vs ≡ ok columns
      → get_elem? vs i ≡ some v
      → texts_are_short t (v ∷ []) ≡ texts_are_short t vs
      → scalar_to_field k t v ≡ first_value columns i
  unfolding scalar_to_field
  scalar_to_field-first_value {h} t vs i v {columns} big e found same =
      go (encoder k t (texts_are_short t vs)) (encode_arrow_array_to_field k t vs) _
        (encode-Encodes k big t vs)
        (subst (λ b. Encodes k (encode_arrow_array_to_field k t (v ∷ [])) (encoder k t b) (v ∷ []))
          same (encode-Encodes k big t (v ∷ [])))
        e
    where
      go :
          (o : Option (Option (Option (Native t)) → List k.F))
          (r r' : Result (EncodeError h) (List (List k.F)))
          → Encodes k r o vs
          → Encodes k r' o (v ∷ [])
          → r ≡ ok columns
          → single r' ≡ first_value columns i
      go none r r' one one' e' = cc
      go (some encode) r r' (cs, ec, one) (cs', ec', one') e' =
          ap single ec'
          ∙ single-OneColumn (EncodeError h) encode cs' v one'
          ∙ sym (OneColumn-first_value encode vs cs i v one found)
          ∙ ap (λ x. first_value x i) (ok-injective (sym ec ∙ e'))
