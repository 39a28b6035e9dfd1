-- ===== src/Field/Modular.antt =====
-- The numbers below a modulus form a lawful field in this sense: the laws can be met.
use native.Mathlib.Bridge.{le_prop}
use native.Mathlib.Nat.{mod-lt, mod-eq_of_lt}
use mathlib.Core.HLevel.{Σ_prop_path}
use truth_table.Common.{
  ℕ, zero, suc, ◌+◌, ◌-◌, ◌*◌, ◌/◌, ◌%◌, ◌^◌, ◌<◌, ◌≤◌, ◌≡◌, refl, List, [], ◌∷◌, ◌==◌,
  if◌then◌else◌, arith,
}
use truth_table.Common.Int.{ℤ, pos, negsuc}
use truth_table.Field.{PrimeField, IsLawful, limbs_value, AreLimbs}

abbrev Residue : ℕ → Type 0
Residue p = (n : ℕ) × (n < p)

-- the limbs of `n`, with fuel for at least `n` rounds
abbrev limbs_of : ℕ → ℕ → List ℕ
limbs_of zero n = []
limbs_of (suc f) n = let rest = limbs_of f (n / 2 ^ 64) in if n == 0 then [] else n % 2 ^ 64 ∷ rest

limbs_value-limbs_of : (f n : ℕ) → n ≤ f → limbs_value (limbs_of f n) ≡ n
limbs_value-limbs_of zero n h = omega arith
limbs_value-limbs_of (suc f) n h = ground (arith, limbs_value-limbs_of f (n / 2 ^ 64))

limbs_of-AreLimbs : (f n : ℕ) → AreLimbs (limbs_of f n)
limbs_of-AreLimbs zero n = tt
limbs_of-AreLimbs (suc f) n = ground (arith, limbs_of-AreLimbs f (n / 2 ^ 64))

module _ (p bits : ℕ) (big : 1 < p) where
  pub mod-lt_modulus : (n : ℕ) → n % p < p
  mod-lt_modulus n = mod-lt n (omega arith)

  pub zero-lt_modulus : 0 < p
  zero-lt_modulus = omega arith

  abbrev reduce : ℕ → Residue p
  reduce n = (n % p, mod-lt_modulus n)

  abbrev reduce_signed : ℤ → Residue p
  reduce_signed (pos n) = reduce n
  reduce_signed (negsuc n) = reduce (p - (suc n % p))

  abbrev pub modular : PrimeField
  modular = record {
    F = Residue p;
    modulus = p;
    modulus_bit_size = bits;
    zero_F = (0, zero-lt_modulus);
    one_F = (1, big);
    add = λ x y. reduce (x.0 + y.0);
    mul = λ x y. reduce (x.0 * y.0);
    neg = λ x. reduce (p - x.0);
    from = reduce;
    from_signed = reduce_signed;
    into_bigint = λ x. x.0;
    limbs = λ x. limbs_of x.0 x.0;
  }

  pub modular-IsLawful : p < 2 ^ bits → IsLawful modular
  modular-IsLawful small = record {
    one-lt-modulus = big;
    modulus-lt-pow = small;
    into_bigint-lt = λ x. x.1;
    from-into_bigint = λ x. Σ_prop_path (λ n. le_prop) (mod-eq_of_lt x.1);
    into_bigint-from = λ n. refl;
    limbs_value-limbs = λ x. limbs_value-limbs_of x.0 x.0 (omega arith);
    limbs-AreLimbs = λ x. limbs_of-AreLimbs x.0 x.0;
    into_bigint-zero = refl;
    into_bigint-one = refl;
    into_bigint-add = λ x y. refl;
    into_bigint-mul = λ x y. refl;
    into_bigint-neg = λ x. refl;
    from_signed-pos = λ n. refl;
    from_signed-negsuc = λ n. refl;
  }
