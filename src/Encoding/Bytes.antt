-- ===== src/Encoding/Bytes.antt =====
-- `hash_to_32_bytes`, `encode_bytes_to_fields` and `encode_hashed_bytes`
-- (crates/tt-arithmetic/src/encoding.rs). A byte is a number below 256, a slice a list of them.
pub mod Chunks
use Prim.Native.Nat.{bit_xor}
use truth_table.Common.{
  ℕ, zero, suc, ◌+◌, ◌*◌, ◌/◌, ◌%◌, ◌^◌, ◌≤◌, ◌<◌, ◌≡◌, refl, sym, ap, ◌∙◌, List, [], ◌∷◌, ◌++◌,
  length, take, drop, arith,
}
use truth_table.Field.{PrimeField}

-- `to_le_bytes` of a number of `n` bytes
abbrev pub le_bytes : ℕ → ℕ → List ℕ
le_bytes zero v = []
le_bytes (suc n) v = v % 256 ∷ le_bytes n (v / 256)

-- the number of `from_le_bytes_mod_order`
abbrev pub le_value : List ℕ → ℕ
le_value [] = 0
le_value (b ∷ bs) = b + 256 * le_value bs

abbrev fnv_offset_basis : ℕ
fnv_offset_basis = 14695981039346656037

abbrev fnv_prime : ℕ
fnv_prime = 1099511628211

-- the hash of the bytes from a seed, by the products modulo `2 ^ 64`
unfoldable pub fnv1a_with_seed : List ℕ → ℕ → ℕ
fnv1a_with_seed [] hash = hash
fnv1a_with_seed (byte ∷ bytes) hash = fnv1a_with_seed bytes (bit_xor hash byte * fnv_prime % 2 ^ 64)

-- `rotate_left(13)` of a `u64`
abbrev rotate_left_13 : ℕ → ℕ
rotate_left_13 hash = hash * 2 ^ 13 % 2 ^ 64 + hash / 2 ^ 51

-- the loop of `hash_to_32_bytes`, `n` rounds of which are left
unfoldable pub hash_rounds : List ℕ → ℕ → ℕ → List ℕ
unfolding fnv1a_with_seed
hash_rounds bytes zero seed = []
hash_rounds bytes (suc n) seed =
    let hash = fnv1a_with_seed bytes seed in
    le_bytes 8 hash ++ hash_rounds bytes n (bit_xor seed (rotate_left_13 hash))

unfoldable pub hash_to_32_bytes : List ℕ → List ℕ
unfolding hash_rounds
hash_to_32_bytes bytes = hash_rounds bytes 4 fnv_offset_basis

-- `bits.div_ceil(8)`, at least one
abbrev pub at_least_one : ℕ → ℕ
at_least_one zero = 1
at_least_one (suc n) = suc n

unfoldable pub field_element_byte_capacity : PrimeField → ℕ
field_element_byte_capacity k = at_least_one ((k.modulus_bit_size + 7) / 8)

-- `chunks(n)`, with fuel for each byte
unfoldable pub chunks : ℕ → ℕ → List ℕ → List (List ℕ)
chunks zero n bytes = []
chunks (suc fuel) n [] = []
chunks (suc fuel) n (b ∷ bytes) = take n (b ∷ bytes) ∷ chunks fuel n (drop n (b ∷ bytes))

module _ (k : PrimeField) where
  abbrev pub fields_of : List (List ℕ) → List k.F
  fields_of [] = []
  fields_of (chunk ∷ rest) = k.from (le_value chunk) ∷ fields_of rest

  unfoldable pub encode_bytes_to_fields : List ℕ → List k.F
  unfolding chunks field_element_byte_capacity
  encode_bytes_to_fields bytes =
      fields_of (chunks (length bytes) (field_element_byte_capacity k) bytes)

  unfoldable pub encode_hashed_bytes : List ℕ → List k.F
  unfolding encode_bytes_to_fields hash_to_32_bytes
  encode_hashed_bytes bytes = encode_bytes_to_fields (hash_to_32_bytes bytes)

AreBytes : List ℕ → Type 0
AreBytes [] = Unit
AreBytes (b ∷ bs) = (b < 256) × AreBytes bs

le_bytes-AreBytes : (n v : ℕ) → AreBytes (le_bytes n v)
unfolding AreBytes
le_bytes-AreBytes zero v = tt
le_bytes-AreBytes (suc n) v = (omega arith, le_bytes-AreBytes n (v / 256))

AreBytes-append : (xs ys : List ℕ) → AreBytes xs → AreBytes ys → AreBytes (xs ++ ys)
unfolding AreBytes
AreBytes-append [] ys h hy = hy
AreBytes-append (x ∷ xs) ys h hy = (h.0, AreBytes-append xs ys h.1 hy)

hash_rounds-AreBytes :
    (bytes : List ℕ) (n seed : ℕ)
    → (length (hash_rounds bytes n seed) ≡ 8 * n) × AreBytes (hash_rounds bytes n seed)
unfolding hash_rounds AreBytes
hash_rounds-AreBytes bytes zero seed = (refl, tt)
hash_rounds-AreBytes bytes (suc n) seed =
    let hash : ℕ = fnv1a_with_seed bytes seed in
    let rest = hash_rounds-AreBytes bytes n (bit_xor seed (rotate_left_13 hash)) in
    (omega (arith, rest.0), AreBytes-append (le_bytes 8 hash) _ (le_bytes-AreBytes 8 hash) rest.1)

drop-all : (n : ℕ) (xs : List ℕ) → length xs ≤ n → drop n xs ≡ []
drop-all zero [] h = refl
drop-all zero (x ∷ xs) h = absurd (omega arith)
drop-all (suc n) [] h = refl
drop-all (suc n) (x ∷ xs) h = drop-all n xs (omega arith)

chunks-nil : (fuel n : ℕ) → chunks fuel n [] ≡ []
unfolding chunks
chunks-nil zero n = refl
chunks-nil (suc fuel) n = refl

-- a slice that fits in one chunk makes at most one field element
chunks-one : (fuel n : ℕ) (bytes : List ℕ) → length bytes ≤ n → length (chunks fuel n bytes) ≤ 1
unfolding chunks
chunks-one zero n bytes h = omega arith
chunks-one (suc fuel) n [] h = omega arith
chunks-one (suc fuel) n (b ∷ bytes) h =
    rw (drop-all n (b ∷ bytes) h, chunks-nil fuel n) (omega arith)

pub length-fields_of : (k : PrimeField) (cs : List (List ℕ)) → length (fields_of k cs) ≡ length cs
length-fields_of k [] = refl
length-fields_of k (c ∷ cs) = ap suc (length-fields_of k cs)

module _ (k : PrimeField) where
  pub encode_bytes_to_fields-one :
      (bytes : List ℕ)
      → length bytes ≤ field_element_byte_capacity k
      → length (encode_bytes_to_fields k bytes) ≤ 1
  unfolding encode_bytes_to_fields
  encode_bytes_to_fields-one bytes h =
      let cs = chunks (length bytes) (field_element_byte_capacity k) bytes in
      omega (
        arith,
        length-fields_of k cs,
        chunks-one (length bytes) (field_element_byte_capacity k) bytes h,
      )

  pub capacity-le : (n : ℕ) → 8 * n ≤ k.modulus_bit_size + 7 → n ≤ field_element_byte_capacity k
  unfolding field_element_byte_capacity
  capacity-le n h = ground arith

  -- the hash is 32 bytes, and one element of a field of more than 248 bits
  pub encode_hashed_bytes-one :
      (bytes : List ℕ) → 248 < k.modulus_bit_size → length (encode_hashed_bytes k bytes) ≤ 1
  unfolding encode_hashed_bytes hash_to_32_bytes
  encode_hashed_bytes-one bytes big =
      let hashed = hash_rounds-AreBytes bytes 4 fnv_offset_basis in
      encode_bytes_to_fields-one (hash_rounds bytes 4 fnv_offset_basis)
        (rw (hashed.0) (capacity-le 32 (omega arith)))
