-- ===== src/Field.antt =====
-- `ark_ff::PrimeField`, which the source takes as a parameter: its operations, and the laws of
-- arithmetic modulo its characteristic that its documentation states.
pub mod Modular
pub mod Arithmetic
use truth_table.Common.{ℕ, suc, ◌+◌, ◌-◌, ◌*◌, ◌%◌, ◌^◌, ◌<◌, ◌≡◌, Bool, List, [], ◌∷◌, ◌==◌}
use truth_table.Common.Int.{ℤ, pos, negsuc}

pub record PrimeField : Type 1 where
  pub F : Type 0
  -- `F::MODULUS`, `F::MODULUS_BIT_SIZE`
  pub modulus : ℕ
  pub modulus_bit_size : ℕ
  pub zero_F : F
  pub one_F : F
  pub add : F → F → F
  pub mul : F → F → F
  pub neg : F → F
  -- `F::from` of an unsigned integer, also `F::from_le_bytes_mod_order` of its bytes
  pub from : ℕ → F
  -- `F::from` of a signed integer
  pub from_signed : ℤ → F
  pub into_bigint : F → ℕ
  -- `into_bigint().as_ref()`: 64-bit limbs, least significant first
  pub limbs : F → List ℕ

abbrev pub limbs_value : List ℕ → ℕ
limbs_value [] = 0
limbs_value (l ∷ ls) = l + 2 ^ 64 * limbs_value ls

abbrev pub AreLimbs : List ℕ → Type 0
AreLimbs [] = Unit
AreLimbs (l ∷ ls) = (l < 2 ^ 64) × AreLimbs ls

pub record IsLawful (k : PrimeField) : Type 0 where
  pub one-lt-modulus : 1 < k.modulus
  pub modulus-lt-pow : k.modulus < 2 ^ k.modulus_bit_size
  pub into_bigint-lt : (x : k.F) → k.into_bigint x < k.modulus
  pub from-into_bigint : (x : k.F) → k.from (k.into_bigint x) ≡ x
  pub into_bigint-from : (n : ℕ) → k.into_bigint (k.from n) ≡ n % k.modulus
  pub limbs_value-limbs : (x : k.F) → limbs_value (k.limbs x) ≡ k.into_bigint x
  pub limbs-AreLimbs : (x : k.F) → AreLimbs (k.limbs x)
  pub into_bigint-zero : k.into_bigint k.zero_F ≡ 0
  pub into_bigint-one : k.into_bigint k.one_F ≡ 1
  pub into_bigint-add :
      (x y : k.F) → k.into_bigint (k.add x y) ≡ (k.into_bigint x + k.into_bigint y) % k.modulus
  pub into_bigint-mul :
      (x y : k.F) → k.into_bigint (k.mul x y) ≡ (k.into_bigint x * k.into_bigint y) % k.modulus
  pub into_bigint-neg :
      (x : k.F) → k.into_bigint (k.neg x) ≡ (k.modulus - k.into_bigint x) % k.modulus
  pub from_signed-pos : (n : ℕ) → k.from_signed (pos n) ≡ k.from n
  pub from_signed-negsuc : (n : ℕ) → k.from_signed (negsuc n) ≡ k.neg (k.from (suc n))

-- `==` of field elements, and `is_zero`.
abbrev pub eqb_F : (k : PrimeField) → k.F → k.F → Bool
eqb_F k x y = k.into_bigint x == k.into_bigint y

abbrev pub is_zero : (k : PrimeField) → k.F → Bool
is_zero k x = k.into_bigint x == k.into_bigint k.zero_F

-- `a - b`
abbrev pub sub_F : (k : PrimeField) → k.F → k.F → k.F
sub_F k x y = k.add x (k.neg y)
