-- ===== src/Field/Arithmetic.antt =====
-- Facts about remainders, and what they give for a lawful field.
use native.Mathlib.Nat.{
  mod-eq_of_lt, mod-eq-sub-mod, mul-le-mul_left, mod-le, mod_self, add-mul-mod_self_right,
}
use native.Mathlib.Decide.{dec_lt}
use truth_table.Common.{ℕ, zero, suc, ◌+◌, ◌-◌, ◌*◌, ◌%◌, ◌≤◌, ◌<◌, ◌≡◌, ◌⊎◌, sym, ◌∙◌, ap, arith}
use truth_table.Field.{PrimeField, IsLawful, sub_F}

mod-neg : (b p : ℕ) → 0 < b → b < p → (p - b) % p ≡ p - b
mod-neg b p h l = mod-eq_of_lt (omega arith)

mod-eq-zero : (n p : ℕ) → 0 < n → n < p + p → n % p ≡ 0 → n ≡ p
mod-eq-zero n p h l e = elim (dec_lt n p) [
  | yes small ↦ absurd (omega (arith, mod-eq_of_lt small))
  | no big ↦
      let r : n % p ≡ (n - p) % p = mod-eq-sub-mod (omega arith) in
      omega (arith, mod-eq_of_lt {n = n - p} {m = p} (omega arith))
]

pub eq_of_difference : (a b p : ℕ) → a < p → b < p → (a + (p - b) % p) % p ≡ 0 → a ≡ b
eq_of_difference a zero p ha hb e =
    let r : (p - 0) % p ≡ (p - 0 - p) % p = mod-eq-sub-mod (omega arith) in
    let z : (p - 0 - p) % p ≡ p - 0 - p = mod-eq_of_lt (omega arith) in
    let s : a + (p - 0) % p ≡ a = omega arith in sym (mod-eq_of_lt ha) ∙ ap (λ t. t % p) (sym s) ∙ e
eq_of_difference a (suc b) p ha hb e = omega (
  arith,
  mod-eq-zero (a + (p - suc b)) p (omega arith) (omega arith)
      (ap (λ t. (a + t) % p) (sym (mod-neg (suc b) p (omega arith) hb)) ∙ e),
)

module _ {k : PrimeField} (law : IsLawful k) where
  pub into_bigint-mul_one : (x a : k.F) → a ≡ k.one_F → k.into_bigint (k.mul x a) ≡ k.into_bigint x
  into_bigint-mul_one x a e = ground (
    arith,
    ap k.into_bigint e,
    law.into_bigint-mul x a,
    law.into_bigint-one,
    mod-eq_of_lt (law.into_bigint-lt x),
  )

  pub into_bigint-eq_of_sub :
      (x y : k.F) → k.into_bigint (sub_F k x y) ≡ 0 → k.into_bigint x ≡ k.into_bigint y
  into_bigint-eq_of_sub x y e =
      eq_of_difference (k.into_bigint x) (k.into_bigint y) k.modulus (law.into_bigint-lt x)
        (law.into_bigint-lt y) (rw (← law.into_bigint-neg y, ← law.into_bigint-add x (k.neg y)) e)

  pub into_bigint-from-le : (n : ℕ) → k.into_bigint (k.from n) ≤ n
  into_bigint-from-le n = rw (law.into_bigint-from n) (mod-le n k.modulus)

  -- a step of a recomposition in base 65536, as a bound
  pub into_bigint-step-le :
      (acc c : k.F)
      → k.into_bigint (k.add (k.mul acc (k.from 65536)) c)
        ≤ k.into_bigint acc * 65536 + k.into_bigint c
  into_bigint-step-le acc c = omega (
    arith,
    law.into_bigint-add (k.mul acc (k.from 65536)) c,
    law.into_bigint-mul acc (k.from 65536),
    mod-le (k.into_bigint (k.mul acc (k.from 65536)) + k.into_bigint c) k.modulus,
    mod-le (k.into_bigint acc * k.into_bigint (k.from 65536)) k.modulus,
    mul-le-mul_left (k.into_bigint acc) (into_bigint-from-le 65536),
  )

pub add-neg_self : (a p : ℕ) → a < p → (a + (p - a) % p) % p ≡ 0
add-neg_self zero p h =
    let whole : p - 0 ≡ p = omega arith in
    let e : 0 + (p - 0) % p ≡ 0 = omega (arith, ap (λ t. t % p) whole, mod_self p) in
    ap (λ t. t % p) e ∙ mod-eq_of_lt h
add-neg_self (suc a) p h =
    let e : suc a + (p - suc a) % p ≡ p = omega (arith, mod-neg (suc a) p (omega arith) h) in
    ap (λ t. t % p) e ∙ mod_self p

pred_product : (a q : ℕ) → a ≤ q → suc a * q ≡ 1 + q - suc a + a * (1 + q)
pred_product a q h = grind arith

mul-pred_mod : (a p : ℕ) → 1 < p → a < p → a * (p - 1) % p ≡ (p - a) % p
mul-pred_mod zero p h l =
    let none_times : 0 * (p - 1) ≡ 0 = omega arith in
    let whole : p - 0 ≡ p = omega arith in
    ap (λ t. t % p) none_times
    ∙ mod-eq_of_lt (omega arith)
    ∙ sym (ap (λ t. t % p) whole ∙ mod_self p)
mul-pred_mod (suc a) p h l =
    let e : suc a * (p - 1) ≡ p - suc a + a * p =
      (let whole : 1 + (p - 1) ≡ p = omega arith in
        pred_product a (p - 1) (omega arith) ∙ ap (λ t. t - suc a + a * t) whole) in
    ap (λ t. t % p) e ∙ add-mul-mod_self_right (p - suc a) a p

module _ {k : PrimeField} (law : IsLawful k) where
  pub into_bigint-injective : (x y : k.F) → k.into_bigint x ≡ k.into_bigint y → x ≡ y
  into_bigint-injective x y e = sym (law.from-into_bigint x) ∙ ap k.from e ∙ law.from-into_bigint y

  pub into_bigint-sub_self :
      (x y : k.F) → k.into_bigint x ≡ k.into_bigint y → k.into_bigint (sub_F k x y) ≡ 0
  into_bigint-sub_self x y e =
      law.into_bigint-add x (k.neg y)
      ∙ ap (λ t. (k.into_bigint x + t) % k.modulus) (law.into_bigint-neg y)
      ∙ ap (λ t. (t + (k.modulus - k.into_bigint y) % k.modulus) % k.modulus) e
      ∙ add-neg_self (k.into_bigint y) k.modulus (law.into_bigint-lt y)

  pub into_bigint-neg_one : k.into_bigint (k.neg k.one_F) ≡ k.modulus - 1
  into_bigint-neg_one =
      law.into_bigint-neg k.one_F
      ∙ ap (λ t. (k.modulus - t) % k.modulus) law.into_bigint-one
      ∙ mod-neg 1 k.modulus (omega arith) law.one-lt-modulus

  -- the product with minus one is the negation
  pub into_bigint-mul_neg_one :
      (x : k.F)
      → k.into_bigint (k.mul x (k.neg k.one_F)) ≡ (k.modulus - k.into_bigint x) % k.modulus
  into_bigint-mul_neg_one x =
      law.into_bigint-mul x (k.neg k.one_F)
      ∙ ap (λ t. k.into_bigint x * t % k.modulus) into_bigint-neg_one
      ∙ mul-pred_mod (k.into_bigint x) k.modulus law.one-lt-modulus (law.into_bigint-lt x)

  pub into_bigint-mul_zero : (x y : k.F) → k.into_bigint x ≡ 0 → k.into_bigint (k.mul x y) ≡ 0
  into_bigint-mul_zero x y e =
      let z : 0 * k.into_bigint y ≡ 0 = omega arith in
      law.into_bigint-mul x y
      ∙ ap (λ t. t * k.into_bigint y % k.modulus) e
      ∙ ap (λ t. t % k.modulus) z
      ∙ mod-eq_of_lt (omega (arith, law.one-lt-modulus))

-- what a prime characteristic gives
abbrev pub HasNoZeroDivisors : PrimeField → Type 0
HasNoZeroDivisors k =
    (x y : k.F) → k.into_bigint (k.mul x y) ≡ 0 → (k.into_bigint x ≡ 0) ⊎ (k.into_bigint y ≡ 0)
