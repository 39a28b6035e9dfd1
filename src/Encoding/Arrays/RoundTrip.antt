-- ===== src/Encoding/Arrays/RoundTrip.antt =====
-- Integers encoded (crates/tt-arithmetic/src/encoding.rs) and read back as the sign gadget reads them
-- (crates/tt-core/src/irs/nodes/utils/sign/mod.rs).
use native.Mathlib.Nat.{mod-eq_of_lt}
use truth_table.Common.{
  ℕ, suc, ◌+◌, ◌-◌, ◌%◌, ◌^◌, ◌≤◌, ◌<◌, ◌≡◌, ◌==◌, ◌&&◌, refl, sym, ap, ◌∙◌, List, Option, some,
  true, false, leb, ltb, Result, ok, get_elem?, arith, Bool-cases, inl, inr,
}
use truth_table.Common.Int.{ℤ, pos, negsuc}
use truth_table.Datafusion.Host.{Host}
use truth_table.Datafusion.Arrow.{DataType}
use truth_table.Field.{PrimeField, IsLawful}
use truth_table.Sign.Chunks.{twos_complement}
use truth_table.Sign.Decode.{field_low_bits_unsigned, as_signed, neg_ℤ, field_signed_from_encoding}
use truth_table.Sign.Decode.LowBits.{Width, bits_of, field_low_bits_unsigned-mod}
use truth_table.Encoding.Arrays.{Native, encode_map, encode_arrow_array_to_field}
use truth_table.Encoding.Arrays.Rows.{ok-injective, first_value, first_value-encode_map}

-- the numbers of a signed type of that many bits
abbrev pub InSignedRange : ℕ → ℤ → Type 0
InSignedRange bits (pos n) = n < 2 ^ (bits - 1)
InSignedRange bits (negsuc n) = n < 2 ^ (bits - 1)

narrow-fits :
    (w : Width) (n : ℕ)
    → bits_of w ≤ 64
    → n < 2 ^ (bits_of w - 1)
    → (n < 2 ^ 63) × (n % 2 ^ bits_of w ≡ n) × (suc n % 2 ^ bits_of w ≡ suc n)
narrow-fits Width.w8 n narrow h = (omega arith, omega arith, omega arith)
narrow-fits Width.w16 n narrow h = (omega arith, omega arith, omega arith)
narrow-fits Width.w32 n narrow h = (omega arith, omega arith, omega arith)
narrow-fits Width.w64 n narrow h = (omega arith, omega arith, omega arith)
narrow-fits Width.w128 n narrow h = absurd (omega arith)

module _ {k : PrimeField} (law : IsLawful k) where
  pub into_bigint-from-eq : (n : ℕ) → n < k.modulus → k.into_bigint (k.from n) ≡ n
  into_bigint-from-eq n h = law.into_bigint-from n ∙ mod-eq_of_lt h

  pub into_bigint-neg-eq :
      (x : k.F) → 0 < k.into_bigint x → k.into_bigint (k.neg x) ≡ k.modulus - k.into_bigint x
  into_bigint-neg-eq x h =
      law.into_bigint-neg x ∙ mod-eq_of_lt (omega (arith, law.into_bigint-lt x))

  -- an element of the lower half is read as it is
  pub signed-low :
      (x : k.F) (w : Width) (n : ℕ)
      → k.into_bigint x ≡ n
      → n + n < k.modulus
      → field_signed_from_encoding k x (bits_of w) ≡ as_signed 128 (n % 2 ^ bits_of w)
  unfolding field_signed_from_encoding
  signed-low x w n e small =
      let low = field_low_bits_unsigned-mod k law x w in
      elim (Bool-cases (0 == n)) [
        | inl z ↦
            let le : leb (k.into_bigint x) (k.into_bigint (k.neg x)) ≡ true = ground (arith, e) in
            rw (le, low, e) refl
        | inr z ↦
            let negated = into_bigint-neg-eq x (ground (arith, e)) in
            let le : leb (k.into_bigint x) (k.into_bigint (k.neg x)) ≡ true =
              ground (arith, e, negated) in
            rw (le, low, e) refl
      ]

  -- the negation of a positive number, which stands in the upper half, is read by its negation
  pub signed-high :
      (m : ℕ) (w : Width)
      → 0 < m
      → m + m < k.modulus
      → m % 2 ^ bits_of w < 2 ^ 127
      → field_signed_from_encoding k (k.neg (k.from m)) (bits_of w)
        ≡ neg_ℤ (pos (m % 2 ^ bits_of w))
  unfolding field_signed_from_encoding
  signed-high m w positive small fits =
      let plain : k.into_bigint (k.from m) ≡ m = into_bigint-from-eq m (omega arith) in
      let x : k.F = k.neg (k.from m) in
      let high : k.into_bigint x ≡ k.modulus - m =
        into_bigint-neg-eq (k.from m) (omega (arith, plain)) ∙ ap (λ n. k.modulus - n) plain in
      let back : k.into_bigint (k.neg x) ≡ m =
        into_bigint-neg-eq x (omega (arith, high)) ∙ omega (arith, high) in
      let gt : leb (k.into_bigint x) (k.into_bigint (k.neg x)) ≡ false =
        ground (arith, high, back) in
      let low : field_low_bits_unsigned k (k.neg x) (bits_of w) ≡ m % 2 ^ bits_of w =
        field_low_bits_unsigned-mod k law (k.neg x) w ∙ ap (λ n. n % 2 ^ bits_of w) back in
      let no : (bits_of w == 128 && m % 2 ^ bits_of w == 2 ^ 127) ≡ false = ground arith in
      let yes : ltb (m % 2 ^ bits_of w) (2 ^ 127) ≡ true = ground arith in
      rw (gt, low, no, yes) refl

  -- a number of a signed type of at most 64 bits
  signed-from_signed :
      (w : Width) (v : ℤ)
      → bits_of w ≤ 64
      → 2 ^ 65 ≤ k.modulus
      → InSignedRange (bits_of w) v
      → field_signed_from_encoding k (k.from_signed v) (bits_of w) ≡ v
  signed-from_signed w (pos n) narrow big h =
      let fits = narrow-fits w n narrow h in
      let low =
        signed-low (k.from n) w n (into_bigint-from-eq n (omega (arith, fits.0)))
          (omega (arith, fits.0)) in
      rw (law.from_signed-pos n) (low ∙ ap (as_signed 128) fits.1 ∙ ground (arith, fits.0))
  signed-from_signed w (negsuc n) narrow big h =
      let fits = narrow-fits w n narrow h in
      let high =
        signed-high (suc n) w (omega arith) (omega (arith, fits.0))
          (omega (arith, fits.0, fits.2)) in
      rw (law.from_signed-negsuc n) (high ∙ ap (λ m. neg_ℤ (pos m)) fits.2)

  -- a number of 128 bits, which is encoded by its two's complement
  signed-twos_complement :
      (v : ℤ)
      → 2 ^ 129 ≤ k.modulus
      → InSignedRange 128 v
      → field_signed_from_encoding k (k.from (twos_complement 128 v)) 128 ≡ v
  signed-twos_complement (pos n) big h =
      let low =
        signed-low (k.from (n % 2 ^ 128)) Width.w128 (n % 2 ^ 128)
          (into_bigint-from-eq (n % 2 ^ 128) (omega arith)) (omega arith) in
      low ∙ ground arith
  signed-twos_complement (negsuc n) big h =
      let c : ℕ = 2 ^ 128 - suc (n % 2 ^ 128) in
      let low =
        signed-low (k.from c) Width.w128 c (into_bigint-from-eq c (omega arith)) (omega arith) in
      low ∙ ground arith

-- the types of signed numbers whose signs are proved
pub data SignedType : Type 0 where
  int8 int16 int32 int64 date32 : SignedType
  decimal128 : ℕ → ℤ → SignedType

abbrev pub data_type_of : {h : Host} → SignedType → DataType h
data_type_of SignedType.int8 = DataType.int8
data_type_of SignedType.int16 = DataType.int16
data_type_of SignedType.int32 = DataType.int32
data_type_of SignedType.int64 = DataType.int64
data_type_of SignedType.date32 = DataType.date32
data_type_of (SignedType.decimal128 p s) = DataType.decimal128 p s

abbrev pub width_of : SignedType → Width
width_of SignedType.int8 = Width.w8
width_of SignedType.int16 = Width.w16
width_of SignedType.int32 = Width.w32
width_of SignedType.int64 = Width.w64
width_of SignedType.date32 = Width.w32
width_of (SignedType.decimal128 p s) = Width.w128

abbrev pub value_of : (h : Host) (t : SignedType) → Native (data_type_of {h = h} t) → ℤ
value_of h SignedType.int8 v = v
value_of h SignedType.int16 v = v
value_of h SignedType.int32 v = v
value_of h SignedType.int64 v = v
value_of h SignedType.date32 v = v
value_of h (SignedType.decimal128 p s) v = v

module _ (k : PrimeField) where
  -- the field element of a row, and the number that is read of it
  abbrev pub ReadsAs : List (List k.F) → ℕ → ℕ → ℤ → Type 0
  ReadsAs columns i bits v =
      (x : k.F) × (first_value columns i ≡ some x) × (field_signed_from_encoding k x bits ≡ v)

  encode_map-ReadsAs :
      {E : Type 0} (f : ℤ → k.F) (vs : List (Option ℤ)) (i bits : ℕ) (v : ℤ)
      {columns : List (List k.F)}
      → ◌≡◌ {A = Result E (List (List k.F))} (ok (encode_map k f vs)) (ok columns)
      → get_elem? vs i ≡ some (some v)
      → field_signed_from_encoding k (f v) bits ≡ v
      → ReadsAs columns i bits v
  encode_map-ReadsAs f vs i bits v e found read = (
    f v,
    ap (λ cs. first_value cs i) (sym (ok-injective e)) ∙ first_value-encode_map k f vs i v found,
    read,
  )

module _ {k : PrimeField} (law : IsLawful k) where
  -- Over a lawful field whose modulus is at least 2 ^ 129: where an array of signed integers, days or
  -- 128-bit decimals is encoded, the sign gadget reads of the first column, at the row of a value
  -- that has the bits of the type, that value.
  pub encode-ReadsAs :
      {h : Host} (t : SignedType) (vs : List (Option (Native (data_type_of {h = h} t)))) (i : ℕ)
      (v : Native (data_type_of {h = h} t)) {columns : List (List k.F)}
      → 2 ^ 129 ≤ k.modulus
      → encode_arrow_array_to_field k (data_type_of {h = h} t) vs ≡ ok columns
      → get_elem? vs i ≡ some (some v)
      → InSignedRange (bits_of (width_of t)) (value_of h t v)
      → ReadsAs k columns i (bits_of (width_of t)) (value_of h t v)
  unfolding encode_arrow_array_to_field
  encode-ReadsAs SignedType.int8 vs i v big e found fits =
      encode_map-ReadsAs k k.from_signed vs i 8 v e found
        (signed-from_signed law Width.w8 v (omega arith) (omega arith) fits)
  encode-ReadsAs SignedType.int16 vs i v big e found fits =
      encode_map-ReadsAs k k.from_signed vs i 16 v e found
        (signed-from_signed law Width.w16 v (omega arith) (omega arith) fits)
  encode-ReadsAs SignedType.int32 vs i v big e found fits =
      encode_map-ReadsAs k k.from_signed vs i 32 v e found
        (signed-from_signed law Width.w32 v (omega arith) (omega arith) fits)
  encode-ReadsAs SignedType.int64 vs i v big e found fits =
      encode_map-ReadsAs k k.from_signed vs i 64 v e found
        (signed-from_signed law Width.w64 v (omega arith) (omega arith) fits)
  encode-ReadsAs SignedType.date32 vs i v big e found fits =
      encode_map-ReadsAs k k.from_signed vs i 32 v e found
        (signed-from_signed law Width.w32 v (omega arith) (omega arith) fits)
  encode-ReadsAs (SignedType.decimal128 p s) vs i v big e found fits =
      encode_map-ReadsAs k (λ x. k.from (twos_complement 128 x)) vs i 128 v e found
        (signed-twos_complement law v big fits)
