-- ===== src/Encoding/Bytes/Chunks.antt =====
-- The numbers that `encode_bytes_to_fields` (crates/tt-arithmetic/src/encoding.rs) makes of a slice.
use mathlib.Core.Path.{subst}
use native.Mathlib.Decide.{dec_le}
use truth_table.Common.{
  ℕ, zero, suc, ◌+◌, ◌-◌, ◌*◌, ◌/◌, ◌%◌, ◌^◌, ◌≤◌, ◌<◌, ◌≡◌, refl, sym, ap, ◌∙◌, List, [], ◌∷◌,
  some, length, take, drop, get_elem?, arith,
}
use truth_table.Field.{PrimeField, IsLawful}
use truth_table.Encoding.Bytes.{
  le_value, chunks, fields_of, encode_bytes_to_fields, field_element_byte_capacity, at_least_one,
  length-fields_of,
}

-- the byte at a place, zero past the end
abbrev pub byte_at : List ℕ → ℕ → ℕ
byte_at [] j = 0
byte_at (b ∷ bytes) zero = b
byte_at (b ∷ bytes) (suc j) = byte_at bytes j

-- the number of `n` digits to the base 256, least significant first
abbrev pub number : (ℕ → ℕ) → ℕ → ℕ
number digit zero = 0
number digit (suc n) = digit 0 + 256 * number (λ j. digit (suc j)) n

number-cong : (f g : ℕ → ℕ) (n : ℕ) → ((j : ℕ) → f j ≡ g j) → number f n ≡ number g n
number-cong f g zero h = refl
number-cong f g (suc n) h =
    omega (arith, h 0, number-cong (λ j. f (suc j)) (λ j. g (suc j)) n (λ j. h (suc j)))

number-zero : (f : ℕ → ℕ) (n : ℕ) → ((j : ℕ) → f j ≡ 0) → number f n ≡ 0
number-zero f zero h = refl
number-zero f (suc n) h = omega (arith, h 0, number-zero (λ j. f (suc j)) n (λ j. h (suc j)))

le_value-take : (n : ℕ) (bytes : List ℕ) → le_value (take n bytes) ≡ number (byte_at bytes) n
le_value-take zero bytes = refl
le_value-take (suc n) [] = sym (number-zero (byte_at []) (suc n) (λ j. refl))
le_value-take (suc n) (b ∷ bytes) = omega (arith, le_value-take n bytes)

byte_at-drop : (n : ℕ) (bytes : List ℕ) (j : ℕ) → byte_at (drop n bytes) j ≡ byte_at bytes (n + j)
byte_at-drop zero bytes j = ap (byte_at bytes) (omega arith)
byte_at-drop (suc n) [] j = refl
byte_at-drop (suc n) (b ∷ bytes) j =
    let next : suc n + j ≡ suc (n + j) = omega arith in
    byte_at-drop n bytes j ∙ ap (byte_at (b ∷ bytes)) (sym next)

length-drop : (n : ℕ) (bytes : List ℕ) → length (drop n bytes) ≡ length bytes - n
length-drop zero bytes = omega arith
length-drop (suc n) [] = omega arith
length-drop (suc n) (b ∷ bytes) = omega (arith, length-drop n bytes)

some_injective : {A : Type 0} {a b : A} → some a ≡ some b → a ≡ b
some_injective e = cc

-- as many chunks of at least one byte as are needed, and no more
abbrev Covers : ℕ → ℕ → ℕ → Type 0
Covers count n len = (len ≤ count * n) × (count * n < len + n)

chunks-empty : (fuel n : ℕ) → chunks fuel n [] ≡ []
unfolding chunks
chunks-empty zero n = refl
chunks-empty (suc fuel) n = refl

Covers-suc :
    (count n len : ℕ)
    → 0 < len
    → Covers count n (len - n)
    → (len ≤ n → count ≡ 0)
    → Covers (suc count) n len
Covers-suc count n len some_byte (enough, tight) none_left =
    let step : suc count * n ≡ n + count * n = grind arith in
    elim (dec_le len n) [
      | yes fits ↦
          let z : count * n ≡ 0 = ap (λ c. c * n) (none_left fits) ∙ omega arith in
          (omega (arith, step), omega (arith, step, z))
      | no more ↦ (omega (arith, step), omega (arith, step))
    ]

chunks-Covers :
    (fuel n : ℕ) (bytes : List ℕ)
    → 0 < n
    → length bytes ≤ fuel
    → Covers (length (chunks fuel n bytes)) n (length bytes)
unfolding chunks
chunks-Covers fuel n [] positive h = rw (chunks-empty fuel n) (omega arith, omega arith)
chunks-Covers zero n (b ∷ bytes) positive h = absurd (omega arith)
chunks-Covers (suc fuel) n (b ∷ bytes) positive h =
    let rest = drop n (b ∷ bytes) in
    let len = length-drop n (b ∷ bytes) in
    Covers-suc (length (chunks fuel n rest)) n (suc (length bytes)) (omega arith)
      (rw (← len) (chunks-Covers fuel n rest positive (omega (arith, len))))
      (λ fits.
        let nothing : length rest ≡ 0 = omega (arith, len) in
        ap length (ap (chunks fuel n) (no_bytes rest nothing) ∙ chunks-empty fuel n))
  where
    no_bytes : (xs : List ℕ) → length xs ≡ 0 → xs ≡ []
    no_bytes [] e = refl
    no_bytes (x ∷ xs) e = absurd (omega (arith, e))

module _ {k : PrimeField} (law : IsLawful k) where
  field_at :
      (fuel n : ℕ) (bytes : List ℕ) (i : ℕ) {x : k.F}
      → get_elem? (fields_of k (chunks fuel n bytes)) i ≡ some x
      → k.into_bigint x ≡ number (λ j. byte_at bytes (i * n + j)) n % k.modulus
  unfolding chunks
  field_at zero n bytes i found = cc
  field_at (suc fuel) n [] i found = cc
  field_at (suc fuel) n (b ∷ bytes) zero found =
      ap k.into_bigint (sym (some_injective found))
      ∙ law.into_bigint-from (le_value (take n (b ∷ bytes)))
      ∙ ap (λ v. v % k.modulus)
          (le_value-take n (b ∷ bytes)
            ∙ number-cong (byte_at (b ∷ bytes)) (λ j. byte_at (b ∷ bytes) (0 * n + j)) n
                (λ j. ap (byte_at (b ∷ bytes)) (omega arith)))
  field_at (suc fuel) n (b ∷ bytes) (suc i) found =
      field_at fuel n (drop n (b ∷ bytes)) i found
      ∙ ap (λ v. v % k.modulus)
          (number-cong (λ j. byte_at (drop n (b ∷ bytes)) (i * n + j))
            (λ j. byte_at (b ∷ bytes) (suc i * n + j)) n
            (λ j.
              byte_at-drop n (b ∷ bytes) (i * n + j) ∙ ap (byte_at (b ∷ bytes)) (one_more i n j)))
    where
      one_more : (i' n' j : ℕ) → n' + (i' * n' + j) ≡ suc i' * n' + j
      one_more i' n' j = grind arith

  capacity : field_element_byte_capacity k ≡ (k.modulus_bit_size + 7) / 8
  unfolding field_element_byte_capacity
  capacity = go k.modulus_bit_size law.modulus-lt-pow
    where
      go : (bits : ℕ) → k.modulus < 2 ^ bits → at_least_one ((bits + 7) / 8) ≡ (bits + 7) / 8
      go zero h = absurd (omega (arith, h, law.one-lt-modulus))
      go (suc bits) h = ground arith

  -- The least number of field elements whose bytes, `size` of each, hold a slice; the element at each
  -- place represents, modulo the characteristic, the number of the slice's next `size` bytes.
  abbrev pub Packs : ℕ → List ℕ → List k.F → Type 0
  Packs size bytes fields =
      (length bytes ≤ length fields * size)
      × (length fields * size < length bytes + size)
      × ((i : ℕ) (x : k.F)
          → get_elem? fields i ≡ some x
          → k.into_bigint x ≡ number (λ j. byte_at bytes (i * size + j)) size % k.modulus)

  chunks-Packs :
      (n : ℕ) (bytes : List ℕ) → 0 < n → Packs n bytes (fields_of k (chunks (length bytes) n bytes))
  chunks-Packs n bytes positive =
      let (enough, tight) = chunks-Covers (length bytes) n bytes positive (omega arith) in
      let count = length-fields_of k (chunks (length bytes) n bytes) in
      (rw count enough, rw count tight, (λ i x found. field_at (length bytes) n bytes i found))

  encode-chunks :
      (bytes : List ℕ)
      → encode_bytes_to_fields k bytes
        ≡ fields_of k (chunks (length bytes) (field_element_byte_capacity k) bytes)
  unfolding encode_bytes_to_fields
  encode-chunks bytes = refl

  capacity_positive : 0 < field_element_byte_capacity k
  capacity_positive = rw capacity (go k.modulus_bit_size law.modulus-lt-pow)
    where
      go : (bits : ℕ) → k.modulus < 2 ^ bits → 0 < (bits + 7) / 8
      go zero h = absurd (omega (arith, h, law.one-lt-modulus))
      go (suc bits) h = omega arith

  -- For a lawful field, and with `size` the bits of the modulus in whole bytes: a slice becomes the
  -- least number of field elements whose bytes, `size` of each, hold the slice; and the element at
  -- each place represents, modulo the characteristic, the number whose digits to the base 256, least
  -- significant first, are the slice's next `size` bytes, zero past its end.
  pub encode_bytes_to_fields-Packs :
      (bytes : List ℕ) → Packs ((k.modulus_bit_size + 7) / 8) bytes (encode_bytes_to_fields k bytes)
  encode_bytes_to_fields-Packs bytes =
      subst (λ n. Packs n bytes (encode_bytes_to_fields k bytes)) capacity
        (subst (Packs (field_element_byte_capacity k) bytes) (sym (encode-chunks bytes))
          (chunks-Packs (field_element_byte_capacity k) bytes capacity_positive))
