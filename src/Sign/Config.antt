-- ===== src/Sign/Config.antt =====
-- `Sign`, `SignConfig`, `SignNode::{new, sign_for_index, zero_sensitive_indices}`.
-- `none` in place of a sign is the panic on a column without a specification.
use truth_table.Common.{
  ℕ, zero, suc, ◌+◌, ◌-◌, ◌≡◌, ◌<◌, ◌≤◌, refl, Bool, true, false, ◌||◌, ◌&&◌, List, [], ◌∷◌, ◌++◌,
  Option, none, some, length, get_elem?, arith, ◌==◌, ltb, if◌then◌else◌,
}

pub data Sign : Type 0 where
  non_negative negative non_positive positive : Sign

pub data SignConfig : Type 0 where
  uniform : Sign → SignConfig
  semi_uniform : Sign → Sign → SignConfig
  per_column : List Sign → SignConfig

-- `matches!(sign, Sign::Positive | Sign::Negative)`
unfoldable pub is_strict : Sign → Bool
is_strict Sign.positive = true
is_strict Sign.negative = true
is_strict _ = false

any_strict : List Sign → Bool
any_strict [] = false
any_strict (s ∷ ss) = is_strict s || any_strict ss

-- whether `SignNode::new` makes the child that proves values different from zero
unfoldable pub needs_zero_check : SignConfig → Bool
unfolding any_strict
needs_zero_check (SignConfig.uniform s) = is_strict s
needs_zero_check (SignConfig.semi_uniform s last) = is_strict s || is_strict last
needs_zero_check (SignConfig.per_column ss) = any_strict ss

unfoldable pub sign_for_index : SignConfig → ℕ → ℕ → Option Sign
sign_for_index (SignConfig.uniform s) idx total = some s
sign_for_index (SignConfig.semi_uniform s last) idx total =
    if idx + 1 == total then some last else some s
sign_for_index (SignConfig.per_column ss) idx total = get_elem? ss idx

-- `(0..n).collect()`
range_from : ℕ → ℕ → List ℕ
range_from start zero = []
range_from start (suc n) = start ∷ range_from (start + 1) n

-- the indices of the strict signs, counted from `i`
strict_indices : ℕ → List Sign → List ℕ
strict_indices i [] = []
strict_indices i (s ∷ ss) =
    let rest = strict_indices (i + 1) ss in if is_strict s then i ∷ rest else rest

unfoldable pub zero_sensitive_indices : SignConfig → ℕ → List ℕ
unfolding range_from strict_indices
zero_sensitive_indices (SignConfig.uniform s) total = if is_strict s then range_from 0 total else []
zero_sensitive_indices (SignConfig.semi_uniform s last) total =
    (if is_strict s then range_from 0 (total - 1) else [])
    ++ (if ltb 0 total && is_strict last then (total - 1) ∷ [] else [])
zero_sensitive_indices (SignConfig.per_column ss) total = strict_indices 0 ss

-- membership as a test
abbrev pub elem : ℕ → List ℕ → Bool
elem i [] = false
elem i (j ∷ js) = (i == j) || elem i js

abbrev pub strict_at : Option Sign → Bool
strict_at none = false
strict_at (some s) = is_strict s

elem-append : (i : ℕ) (xs ys : List ℕ) → elem i (xs ++ ys) ≡ (elem i xs || elem i ys)
elem-append i [] ys = refl
elem-append i (x ∷ xs) ys = ground (arith, elem-append i xs ys)

elem-range_from :
    (i start n : ℕ)
    → elem i (range_from start n) ≡ (if ltb i start then false else ltb i (start + n))
unfolding range_from
elem-range_from i start zero = ground arith
elem-range_from i start (suc n) = ground (arith, elem-range_from i (start + 1) n)

elem-strict_indices_below :
    (i k : ℕ) (ss : List Sign) → i < k → elem i (strict_indices k ss) ≡ false
unfolding strict_indices
elem-strict_indices_below i k [] h = refl
elem-strict_indices_below i k (s ∷ ss) h =
    ground (arith, elem-strict_indices_below i (k + 1) ss (omega arith))

elem-strict_indices :
    (i k : ℕ) (ss : List Sign) → elem (k + i) (strict_indices k ss) ≡ strict_at (get_elem? ss i)
unfolding strict_indices
elem-strict_indices i k [] = refl
elem-strict_indices zero k (s ∷ ss) =
    ground (arith, elem-strict_indices_below (k + 0) (k + 1) ss (omega arith))
elem-strict_indices (suc i) k (s ∷ ss) = ground (arith, elem-strict_indices i (k + 1) ss)

get_elem?-beyond : (ss : List Sign) (i : ℕ) → length ss ≤ i → get_elem? ss i ≡ none
get_elem?-beyond [] i h = refl
get_elem?-beyond (s ∷ ss) zero h = absurd (omega arith)
get_elem?-beyond (s ∷ ss) (suc i) h = get_elem?-beyond ss i (omega arith)

-- a configuration by column names every column
abbrev pub Covers : SignConfig → ℕ → Type 0
Covers (SignConfig.per_column ss) total = length ss ≡ total
Covers _ total = Unit

-- If a configuration by column has a sign for each column, then the indices that
-- `zero_sensitive_indices` lists are exactly the columns below `total` whose sign is strict.
pub zero_sensitive_indices-sign_for_index :
    (c : SignConfig) (total i : ℕ)
    → Covers c total
    → elem i (zero_sensitive_indices c total)
      ≡ (ltb i total && strict_at (sign_for_index c i total))
unfolding zero_sensitive_indices sign_for_index
zero_sensitive_indices-sign_for_index (SignConfig.uniform s) total i h =
    ground (arith, elem-range_from i 0 total)
zero_sensitive_indices-sign_for_index (SignConfig.semi_uniform s last) total i h = ground (
  arith,
  elem-range_from i 0 (total - 1),
  elem-append i (if is_strict s then range_from 0 (total - 1) else [])
      (if ltb 0 total && is_strict last then (total - 1) ∷ [] else []),
)
zero_sensitive_indices-sign_for_index (SignConfig.per_column ss) total i h =
    ground (arith, elem-strict_indices i 0 ss, get_elem?-beyond ss i)

-- Without the child that proves values different from zero, no column is listed for it.
zero_sensitive_indices-none :
    (c : SignConfig) (total : ℕ) → needs_zero_check c ≡ false → zero_sensitive_indices c total ≡ []
unfolding needs_zero_check zero_sensitive_indices
zero_sensitive_indices-none (SignConfig.uniform s) total h = ground arith
zero_sensitive_indices-none (SignConfig.semi_uniform s last) total h = ground arith
zero_sensitive_indices-none (SignConfig.per_column ss) total h = go 0 ss h
  where
    go : (k : ℕ) (ss : List Sign) → any_strict ss ≡ false → strict_indices k ss ≡ []
    go k [] h = refl
    go k (s ∷ ss) h = ground (arith, go (k + 1) ss)
