-- ===== src/Sign/HonestCheck/Values.antt =====
-- The test of a row in the honest prover's check (sign/mod.rs) on integers.
use native.Mathlib.Nat.{mod_self}
use truth_table.Common.{
  ℕ, zero, suc, ◌+◌, ◌-◌, ◌%◌, ◌^◌, ◌<◌, ◌≡◌, ◌↔◌, refl, sym, ap, ◌∙◌, Bool, true, false, not, ◌&&◌,
  ◌==◌, arith,
}
use truth_table.Common.Int.{ℤ, pos, negsuc}
use truth_table.Datafusion.Host.{Host}
use truth_table.Datafusion.Arrow.{DataType}
use truth_table.Field.{PrimeField, IsLawful, is_zero}
use truth_table.Field.Arithmetic.{into_bigint-injective}
use truth_table.Sign.Config.{Sign, is_strict}
use truth_table.Sign.Decode.{field_signed_from_encoding, as_signed, neg_ℤ}
use truth_table.Sign.Decode.LowBits.{Width, bits_of}
use truth_table.Sign.HonestCheck.{
  row_passes, check_val, signed_sign, eval_matches_sign, eval_unsigned_sign, eval_signed_sign,
}
use truth_table.Encoding.Arrays.RoundTrip.{
  signed-low, signed-high, into_bigint-from-eq, into_bigint-neg-eq,
}

-- how the values of a type are signed: with a sign and that many bits, without a sign, or not at all
pub data Kind : Type 0 where
  signed : Width → Kind
  unsigned unsupported : Kind

abbrev pub kind : {h : Host} → DataType h → Kind
kind DataType.int8 = Kind.signed Width.w8
kind DataType.int16 = Kind.signed Width.w16
kind DataType.int32 = Kind.signed Width.w32
kind DataType.date32 = Kind.signed Width.w32
kind DataType.int64 = Kind.signed Width.w64
kind (DataType.decimal128 _ _) = Kind.signed Width.w128
kind DataType.uint8 = Kind.unsigned
kind DataType.uint16 = Kind.unsigned
kind DataType.uint32 = Kind.unsigned
kind DataType.uint64 = Kind.unsigned
kind DataType.utf8_view = Kind.unsigned
kind _ = Kind.unsupported

abbrev pub abs : ℤ → ℕ
abs (pos n) = n
abs (negsuc n) = suc n

-- the integers of a kind that the check reads as they are, in a field of `p` elements
abbrev pub Fits : ℕ → Kind → ℤ → Type 0
Fits p (Kind.signed w) z = (abs z < 2 ^ (bits_of w - 1)) × (abs z + abs z < p)
Fits p _ z = abs z < p

abbrev pub HasSign : Sign → ℤ → Type 0
HasSign Sign.non_negative (pos n) = Unit
HasSign Sign.non_negative (negsuc n) = ⊥
HasSign Sign.positive (pos n) = 0 < n
HasSign Sign.positive (negsuc n) = ⊥
HasSign Sign.non_positive (pos n) = n ≡ 0
HasSign Sign.non_positive (negsuc n) = Unit
HasSign Sign.negative (pos n) = ⊥
HasSign Sign.negative (negsuc n) = Unit

abbrev pub NotZeroIfStrict : Sign → ℤ → Type 0
NotZeroIfStrict Sign.positive z = 0 < abs z
NotZeroIfStrict Sign.negative z = 0 < abs z
NotZeroIfStrict _ z = Unit

-- what the check shows of an integer: its sign where the type has one, else only whether it is zero
abbrev pub Shown : Kind → Sign → ℤ → Type 0
Shown (Kind.signed w) s z = HasSign s z
Shown Kind.unsigned s z = NotZeroIfStrict s z
Shown Kind.unsupported s z = ⊥

-- the integer whose sign is checked
abbrev adjusted : Sign → ℤ → ℤ
adjusted Sign.non_negative z = z
adjusted Sign.positive z = z
adjusted Sign.non_positive z = neg_ℤ z
adjusted Sign.negative z = neg_ℤ z

abbrev by_kind : (k : PrimeField) → Kind → k.F → Bool
by_kind k (Kind.signed w) x =
    signed_sign Sign.non_negative (field_signed_from_encoding k x (bits_of w))
by_kind k Kind.unsigned x = true
by_kind k Kind.unsupported x = false

eval-kind :
    (k : PrimeField) {h : Host} (t : DataType h) (x : k.F)
    → eval_matches_sign k t Sign.non_negative x ≡ by_kind k (kind t) x
unfolding eval_matches_sign eval_unsigned_sign eval_signed_sign
eval-kind k DataType.int8 x = refl
eval-kind k _ x = refl

is_zero_ℤ : ℤ → Bool
is_zero_ℤ z = abs z == 0

signed_row :
    (s : Sign) (z : ℤ)
    → ((not (is_strict s && is_zero_ℤ z) && signed_sign Sign.non_negative (adjusted s z)) ≡ true)
      ↔ HasSign s z
unfolding is_strict is_zero_ℤ
signed_row Sign.non_negative (pos n) = ground arith
signed_row Sign.non_negative (negsuc n) = ground arith
signed_row Sign.positive (pos n) = ground arith
signed_row Sign.positive (negsuc n) = ground arith
signed_row Sign.non_positive (pos zero) = ground arith
signed_row Sign.non_positive (pos (suc n)) = ground arith
signed_row Sign.non_positive (negsuc n) = ground arith
signed_row Sign.negative (pos zero) = ground arith
signed_row Sign.negative (pos (suc n)) = ground arith
signed_row Sign.negative (negsuc n) = ground arith

unsigned_row :
    (s : Sign) (z : ℤ) → ((not (is_strict s && is_zero_ℤ z) && true) ≡ true) ↔ NotZeroIfStrict s z
unfolding is_strict is_zero_ℤ
unsigned_row Sign.non_negative z = ground arith
unsigned_row Sign.positive z = ground arith
unsigned_row Sign.non_positive z = ground arith
unsigned_row Sign.negative z = ground arith

never : (b : Bool) → ((b && false) ≡ true) ↔ ⊥
never b = ground arith

within : (w : Width) (n : ℕ) → n < 2 ^ (bits_of w - 1) → (n % 2 ^ bits_of w ≡ n) × (n < 2 ^ 127)
within Width.w8 n h = (omega arith, omega arith)
within Width.w16 n h = (omega arith, omega arith)
within Width.w32 n h = (omega arith, omega arith)
within Width.w64 n h = (omega arith, omega arith)
within Width.w128 n h = (omega arith, omega arith)

abs-neg_ℤ : (z : ℤ) → abs (neg_ℤ z) ≡ abs z
abs-neg_ℤ (pos zero) = refl
abs-neg_ℤ (pos (suc n)) = refl
abs-neg_ℤ (negsuc n) = refl

Fits-adjusted :
    (p : ℕ) (w : Width) (s : Sign) (z : ℤ)
    → Fits p (Kind.signed w) z
    → Fits p (Kind.signed w) (adjusted s z)
Fits-adjusted p w Sign.non_negative z f = f
Fits-adjusted p w Sign.positive z f = f
Fits-adjusted p w Sign.non_positive z f = rw (abs-neg_ℤ z) f
Fits-adjusted p w Sign.negative z f = rw (abs-neg_ℤ z) f

pub Fits-lt : (p : ℕ) (kd : Kind) (z : ℤ) → Fits p kd z → abs z < p
Fits-lt p (Kind.signed w) z f = omega (arith, f.1)
Fits-lt p Kind.unsigned z f = f
Fits-lt p Kind.unsupported z f = f

module _ {k : PrimeField} (law : IsLawful k) where
  from_signed-zero : (z : ℤ) → abs z < k.modulus → is_zero k (k.from_signed z) ≡ is_zero_ℤ z
  unfolding is_zero_ℤ
  from_signed-zero (pos n) h =
      rw (law.from_signed-pos n, into_bigint-from-eq law n h, law.into_bigint-zero) refl
  from_signed-zero (negsuc n) h =
      let plain = into_bigint-from-eq law (suc n) h in
      let high = into_bigint-neg-eq law (k.from (suc n)) (omega (arith, plain)) in
      ground (arith, law.from_signed-negsuc n, plain, high, law.into_bigint-zero)

  from_zero : k.neg (k.from 0) ≡ k.from 0
  from_zero = into_bigint-injective law _ _ (
      let zero_lt : 0 < k.modulus = omega (arith, law.one-lt-modulus) in
      let plain = into_bigint-from-eq law 0 zero_lt in
      let whole : k.modulus - 0 ≡ k.modulus = omega arith in
      law.into_bigint-neg (k.from 0)
      ∙ ap (λ t. (k.modulus - t) % k.modulus) plain
      ∙ ap (λ t. t % k.modulus) whole
      ∙ mod_self k.modulus
      ∙ sym plain)

  neg-from_signed : (z : ℤ) → abs z < k.modulus → k.neg (k.from_signed z) ≡ k.from_signed (neg_ℤ z)
  neg-from_signed (pos zero) h = rw (law.from_signed-pos 0) from_zero
  neg-from_signed (pos (suc n)) h = rw (law.from_signed-pos (suc n), law.from_signed-negsuc n) refl
  neg-from_signed (negsuc n) h =
      rw (law.from_signed-pos (suc n), law.from_signed-negsuc n)
        (into_bigint-injective law _ _ (
          let plain = into_bigint-from-eq law (suc n) h in
          let once = into_bigint-neg-eq law (k.from (suc n)) (omega (arith, plain)) in
          let twice =
            into_bigint-neg-eq law (k.neg (k.from (suc n))) (omega (arith, once, plain)) in
          omega (arith, plain, once, twice)))

  check_val-adjusted :
      (s : Sign) (z : ℤ)
      → abs z < k.modulus
      → check_val k s (k.from_signed z) ≡ k.from_signed (adjusted s z)
  check_val-adjusted Sign.non_negative z h = refl
  check_val-adjusted Sign.positive z h = refl
  check_val-adjusted Sign.non_positive z h = neg-from_signed z h
  check_val-adjusted Sign.negative z h = neg-from_signed z h

  -- a value of a signed type is read as it is
  signed-read :
      (w : Width) (z : ℤ)
      → Fits k.modulus (Kind.signed w) z
      → field_signed_from_encoding k (k.from_signed z) (bits_of w) ≡ z
  signed-read w (pos n) (bits, half) =
      let small = within w n bits in
      let low =
        signed-low law (k.from n) w n (into_bigint-from-eq law n (omega (arith, half))) half in
      rw (law.from_signed-pos n) (low ∙ ap (as_signed 128) small.0 ∙ ground (arith, small.1))
  signed-read w (negsuc n) (bits, half) =
      let small = within w (suc n) bits in
      let high = signed-high law (suc n) w (omega arith) half (omega (arith, small.0, small.1)) in
      rw (law.from_signed-negsuc n) (high ∙ ap (λ m. neg_ℤ (pos m)) small.0)

  pub row_passes_iff :
      {h : Host} (s : Sign) (t : DataType h) (z : ℤ)
      → abs z < k.modulus
      → Fits k.modulus (kind t) z
      → (row_passes k s t (k.from_signed z) ≡ true) ↔ Shown (kind t) s z
  unfolding row_passes
  row_passes_iff s t z small fits =
      rw
        (
          check_val-adjusted s z small,
          eval-kind k t (k.from_signed (adjusted s z)),
          from_signed-zero z small,
        )
        (by_kind_iff (kind t) fits)
    where
      by_kind_iff :
          (kd : Kind)
          → Fits k.modulus kd z
          → ((not (is_strict s && is_zero_ℤ z) && by_kind k kd (k.from_signed (adjusted s z)))
              ≡ true)
            ↔ Shown kd s z
      by_kind_iff (Kind.signed w) f =
          rw (signed-read w (adjusted s z) (Fits-adjusted k.modulus w s z f)) (signed_row s z)
      by_kind_iff Kind.unsigned f = unsigned_row s z
      by_kind_iff Kind.unsupported f = never (not (is_strict s && is_zero_ℤ z))
