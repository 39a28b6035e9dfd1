-- ===== src/Gadgets/Compare/Order.antt =====
-- Differences in a field, and the order of the integers whose encodings are subtracted
-- (crates/tt-core/src/irs/nodes/utils/leq/mod.rs, geq/mod.rs).
use native.Mathlib.Nat.{mod-eq_of_lt, mod-eq-sub-mod, mod-add-mod, mod_self}
use native.Mathlib.Decide.{dec_lt}
use truth_table.Common.{ℕ, zero, suc, ◌+◌, ◌-◌, ◌%◌, ◌^◌, ◌≤◌, ◌<◌, ◌≡◌, sym, ◌∙◌, ap, arith}
use truth_table.Common.Int.{ℤ, pos, negsuc}
use truth_table.Field.{PrimeField, IsLawful, sub_F}
use truth_table.Field.Arithmetic.{into_bigint-mul_neg_one}

-- a difference of numbers below `p`, in both cases
sub-mod_le : (x y p : ℕ) → x < p → y ≤ x → (x + (p - y) % p) % p ≡ x - y
sub-mod_le x zero p hx le =
    let whole : p - 0 ≡ p = omega arith in
    let e : x + (p - 0) % p ≡ x = omega (arith, ap (λ t. t % p) whole, mod_self p) in
    let f : x - 0 ≡ x = omega arith in ap (λ t. t % p) e ∙ mod-eq_of_lt hx ∙ sym f
sub-mod_le x (suc y) p hx le =
    let small : (p - suc y) % p ≡ p - suc y = mod-eq_of_lt (omega arith) in
    let e : x + (p - suc y) - p ≡ x - suc y = omega arith in
    ap (λ t. (x + t) % p) small
    ∙ mod-eq-sub-mod {n = x + (p - suc y)} {m = p} (omega arith)
    ∙ ap (λ t. t % p) e
    ∙ mod-eq_of_lt (omega arith)

sub-mod_lt : (x y p : ℕ) → y < p → x < y → (x + (p - y) % p) % p ≡ x + (p - y)
sub-mod_lt x y p hy lt =
    let small : (p - y) % p ≡ p - y = mod-eq_of_lt (omega arith) in
    ap (λ t. (x + t) % p) small ∙ mod-eq_of_lt (omega arith)

-- what is subtracted, added again
add-sub_mod : (x y p : ℕ) → x < p → y < p → (y + (x + (p - y) % p) % p) % p ≡ x
add-sub_mod x y p hx hy = elim (dec_lt x y) [
  | yes less ↦
      let e : y + (x + (p - y)) - p ≡ x = omega arith in
      ap (λ t. (y + t) % p) (sub-mod_lt x y p hy less)
      ∙ mod-eq-sub-mod {n = y + (x + (p - y))} {m = p} (omega arith)
      ∙ ap (λ t. t % p) e
      ∙ mod-eq_of_lt hx
  | no more ↦
      let e : y + (x - y) ≡ x = omega arith in
      ap (λ t. (y + t) % p) (sub-mod_le x y p hx (omega arith))
      ∙ ap (λ t. t % p) e
      ∙ mod-eq_of_lt hx
]

neg-sub_mod : (x y p : ℕ) → x < p → y < p → (p - (x + (p - y) % p) % p) % p ≡ (y + (p - x) % p) % p
neg-sub_mod x y p hx hy = elim (dec_lt x y) [
  | yes less ↦
      let e : p - (x + (p - y)) ≡ y - x = omega arith in
      ap (λ t. (p - t) % p) (sub-mod_lt x y p hy less)
      ∙ ap (λ t. t % p) e
      ∙ mod-eq_of_lt (omega arith)
      ∙ sym (sub-mod_le y x p hy (omega arith))
  | no more ↦ elim (dec_lt y x) [
    | yes greater ↦
        let e : p - (x - y) ≡ y + (p - x) = omega arith in
        ap (λ t. (p - t) % p) (sub-mod_le x y p hx (omega arith))
        ∙ ap (λ t. t % p) e
        ∙ mod-eq_of_lt (omega arith)
        ∙ sym (sub-mod_lt y x p hx greater)
    | no other ↦
        let same : y ≡ x = omega arith in
        let none_left : x - y ≡ 0 = omega arith in
        let gap : y - x ≡ 0 = omega arith in
        let whole : p - 0 ≡ p = omega arith in
        ap (λ t. (p - t) % p) (sub-mod_le x y p hx (omega arith) ∙ none_left)
        ∙ ap (λ t. t % p) whole
        ∙ mod_self p
        ∙ sym gap
        ∙ sym (sub-mod_le y x p hy (omega arith))
  ]
]

-- the order of the integers
abbrev pub LeZ : ℤ → ℤ → Type 0
LeZ (pos a) (pos b) = a ≤ b
LeZ (pos a) (negsuc b) = ⊥
LeZ (negsuc a) (pos b) = Unit
LeZ (negsuc a) (negsuc b) = b ≤ a

-- `-2 ^ w ≤ a < 2 ^ w`
abbrev pub Fits : ℕ → ℤ → Type 0
Fits w (pos a) = a < 2 ^ w
Fits w (negsuc a) = a < 2 ^ w

abbrev offset : ℕ → ℤ → ℕ
offset m (pos a) = m + a
offset m (negsuc a) = m - suc a

module _ (w : ℕ) where
  offset-lt : (a : ℤ) → Fits w a → offset (2 ^ w) a < 2 ^ w + 2 ^ w
  offset-lt (pos a) fits = omega arith
  offset-lt (negsuc a) fits = omega arith

  LeZ-of_offset : (a b : ℤ) → Fits w a → Fits w b → offset (2 ^ w) a ≤ offset (2 ^ w) b → LeZ a b
  LeZ-of_offset (pos a) (pos b) fa fb le = omega arith
  LeZ-of_offset (pos a) (negsuc b) fa fb le = omega arith
  LeZ-of_offset (negsuc a) (pos b) fa fb le = tt
  LeZ-of_offset (negsuc a) (negsuc b) fa fb le = omega arith

  module _ {k : PrimeField} (law : IsLawful k) (room : 2 ^ w + 2 ^ w ≤ k.modulus) where
    -- an encoding, shifted into the numbers
    from_signed-offset :
        (a : ℤ)
        → Fits w a
        → (k.into_bigint (k.from_signed a) + 2 ^ w) % k.modulus ≡ offset (2 ^ w) a % k.modulus
    from_signed-offset (pos a) fits =
        let e : a + 2 ^ w ≡ 2 ^ w + a = omega arith in
        ap (λ x. (k.into_bigint x + 2 ^ w) % k.modulus) (law.from_signed-pos a)
        ∙ ap (λ t. (t + 2 ^ w) % k.modulus) (law.into_bigint-from a)
        ∙ mod-add-mod a k.modulus (2 ^ w)
        ∙ ap (λ t. t % k.modulus) e
    from_signed-offset (negsuc a) fits =
        let small : suc a % k.modulus ≡ suc a = mod-eq_of_lt (omega arith) in
        let e : k.modulus - suc a + 2 ^ w - k.modulus ≡ 2 ^ w - suc a = omega arith in
        ap (λ x. (k.into_bigint x + 2 ^ w) % k.modulus) (law.from_signed-negsuc a)
        ∙ ap (λ t. (t + 2 ^ w) % k.modulus) (law.into_bigint-neg (k.from (suc a)))
        ∙ ap (λ t. ((k.modulus - t) % k.modulus + 2 ^ w) % k.modulus)
            (law.into_bigint-from (suc a) ∙ small)
        ∙ mod-add-mod (k.modulus - suc a) k.modulus (2 ^ w)
        ∙ mod-eq-sub-mod {n = k.modulus - suc a + 2 ^ w} {m = k.modulus} (omega arith)
        ∙ ap (λ t. t % k.modulus) e

module _ {k : PrimeField} (law : IsLawful k) where
  pub into_bigint-sub :
      (x y : k.F)
      → k.into_bigint (sub_F k x y)
        ≡ (k.into_bigint x + (k.modulus - k.into_bigint y) % k.modulus) % k.modulus
  into_bigint-sub x y =
      law.into_bigint-add x (k.neg y)
      ∙ ap (λ t. (k.into_bigint x + t) % k.modulus) (law.into_bigint-neg y)

  -- a difference times minus one is the difference the other way around
  pub into_bigint-negated_sub :
      (x y : k.F)
      → k.into_bigint (k.mul (sub_F k x y) (k.neg k.one_F)) ≡ k.into_bigint (sub_F k y x)
  into_bigint-negated_sub x y =
      into_bigint-mul_neg_one law (sub_F k x y)
      ∙ ap (λ t. (k.modulus - t) % k.modulus) (into_bigint-sub x y)
      ∙ neg-sub_mod (k.into_bigint x) (k.into_bigint y) k.modulus (law.into_bigint-lt x)
          (law.into_bigint-lt y)
      ∙ sym (into_bigint-sub y x)

  -- Where the difference of two encodings is small and there is room in the field, the integers are
  -- in order.
  pub LeZ-of_sub :
      (w n : ℕ) (a b : ℤ)
      → 2 ^ w + 2 ^ w + n ≤ k.modulus
      → Fits w a
      → Fits w b
      → k.into_bigint (sub_F k (k.from_signed b) (k.from_signed a)) < n
      → LeZ a b
  LeZ-of_sub w n a b room fa fb small =
      let p = k.modulus in
      let x = k.into_bigint (k.from_signed a) in
      let y = k.into_bigint (k.from_signed b) in
      let d = (y + (p - x) % p) % p in
      let d_lt : d < n = (rw (← into_bigint-sub (k.from_signed b) (k.from_signed a)) small) in
      let back : (x + d) % p ≡ y =
        add-sub_mod y x p (law.into_bigint-lt (k.from_signed b))
          (law.into_bigint-lt (k.from_signed a)) in
      let a_lt = offset-lt w a fa in
      let b_lt = offset-lt w b fb in
      let swap : x + d + 2 ^ w ≡ x + 2 ^ w + d = omega arith in
      let a_value : (x + 2 ^ w) % p ≡ offset (2 ^ w) a =
        from_signed-offset w law (omega arith) a fa ∙ mod-eq_of_lt (omega arith) in
      let b_value : (y + 2 ^ w) % p ≡ offset (2 ^ w) b =
        from_signed-offset w law (omega arith) b fb ∙ mod-eq_of_lt (omega arith) in
      let sum : offset (2 ^ w) b ≡ offset (2 ^ w) a + d =
        sym b_value
        ∙ ap (λ t. (t + 2 ^ w) % p) (sym back)
        ∙ mod-add-mod (x + d) p (2 ^ w)
        ∙ ap (λ t. t % p) swap
        ∙ sym (mod-add-mod (x + 2 ^ w) p d)
        ∙ ap (λ t. (t + d) % p) a_value
        ∙ mod-eq_of_lt (omega arith) in
      LeZ-of_offset w a b fa fb (omega (arith, sum))
