-- ===== src/Sign/Decode/LowBits.antt =====
-- The low bits that `field_low_bits_unsigned` reads, at the widths for which it is called.
use truth_table.Common.{ℕ, ◌%◌, ◌^◌, ◌≡◌, refl, List, [], ◌∷◌, arith, ap, ◌∙◌}
use truth_table.Field.{PrimeField, IsLawful, limbs_value, AreLimbs}
use truth_table.Sign.Decode.{low_bits_loop, field_low_bits_unsigned}

loop-8 : (ls : List ℕ) → AreLimbs ls → low_bits_loop ls 8 0 0 ≡ limbs_value ls % 2 ^ 8
unfolding low_bits_loop
loop-8 [] h = refl
loop-8 (l ∷ []) h = omega (arith, h.0)
loop-8 (l ∷ m ∷ ls) h = omega (arith, h.0)

loop-16 : (ls : List ℕ) → AreLimbs ls → low_bits_loop ls 16 0 0 ≡ limbs_value ls % 2 ^ 16
unfolding low_bits_loop
loop-16 [] h = refl
loop-16 (l ∷ []) h = omega (arith, h.0)
loop-16 (l ∷ m ∷ ls) h = omega (arith, h.0)

loop-32 : (ls : List ℕ) → AreLimbs ls → low_bits_loop ls 32 0 0 ≡ limbs_value ls % 2 ^ 32
unfolding low_bits_loop
loop-32 [] h = refl
loop-32 (l ∷ []) h = omega (arith, h.0)
loop-32 (l ∷ m ∷ ls) h = omega (arith, h.0)

loop-64 : (ls : List ℕ) → AreLimbs ls → low_bits_loop ls 64 0 0 ≡ limbs_value ls % 2 ^ 64
unfolding low_bits_loop
loop-64 [] h = refl
loop-64 (l ∷ []) h = omega (arith, h.0)
loop-64 (l ∷ m ∷ ls) h = omega (arith, h.0)

loop-128 : (ls : List ℕ) → AreLimbs ls → low_bits_loop ls 128 0 0 ≡ limbs_value ls % 2 ^ 128
unfolding low_bits_loop
loop-128 [] h = refl
loop-128 (l ∷ []) h = omega (arith, h.0)
loop-128 (l ∷ m ∷ []) h = omega (arith, h.0, h.1.0)
loop-128 (l ∷ m ∷ n ∷ ls) h = omega (arith, h.0, h.1.0)

-- the widths of the integer columns
pub data Width : Type 0 where
  w8 w16 w32 w64 w128 : Width

abbrev pub bits_of : Width → ℕ
bits_of Width.w8 = 8
bits_of Width.w16 = 16
bits_of Width.w32 = 32
bits_of Width.w64 = 64
bits_of Width.w128 = 128

loop-bits_of :
    (w : Width) (ls : List ℕ)
    → AreLimbs ls
    → low_bits_loop ls (bits_of w) 0 0 ≡ limbs_value ls % 2 ^ bits_of w
loop-bits_of Width.w8 ls h = loop-8 ls h
loop-bits_of Width.w16 ls h = loop-16 ls h
loop-bits_of Width.w32 ls h = loop-32 ls h
loop-bits_of Width.w64 ls h = loop-64 ls h
loop-bits_of Width.w128 ls h = loop-128 ls h

low_bits-loop :
    (k : PrimeField) (value : k.F) (w : Width)
    → field_low_bits_unsigned k value (bits_of w) ≡ low_bits_loop (k.limbs value) (bits_of w) 0 0
unfolding field_low_bits_unsigned
low_bits-loop k value Width.w8 = refl
low_bits-loop k value _ = refl

-- At each width of an integer column, the bits that are read of a field element are its
-- representative modulo two to the width.
pub field_low_bits_unsigned-mod :
    (k : PrimeField) (law : IsLawful k) (value : k.F) (w : Width)
    → field_low_bits_unsigned k value (bits_of w) ≡ k.into_bigint value % 2 ^ bits_of w
field_low_bits_unsigned-mod k law value w =
    low_bits-loop k value w
    ∙ loop-bits_of w (k.limbs value) (law.limbs-AreLimbs value)
    ∙ ap (λ n. n % 2 ^ bits_of w) (law.limbs_value-limbs value)
