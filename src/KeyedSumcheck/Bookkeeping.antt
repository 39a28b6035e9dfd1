-- ===== src/KeyedSumcheck/Bookkeeping.antt =====
-- `bookkeeping_map`: a count for each element, as an association list.
use truth_table.Common.{
  List, [], ◌∷◌, Bool, true, false, ◌||◌, ◌&&◌, if◌then◌else◌, ◌≡◌, refl, arith, &&_split,
}
use truth_table.Field.{PrimeField, eqb_F, is_zero}

module _ (k : PrimeField) where
  -- `*bookkeeping_map.entry(elem).or_insert(B::F::zero()) += d`
  unfoldable pub bump : k.F → k.F → List (k.F × k.F) → List (k.F × k.F)
  bump elem d [] = (elem, k.add k.zero_F d) ∷ []
  bump elem d ((key, count) ∷ m) =
      let rest = bump elem d m in
      if eqb_F k key elem then (key, k.add count d) ∷ m else (key, count) ∷ rest

  unfoldable pub bump_all : List (k.F × k.F) → List (k.F × k.F) → List (k.F × k.F)
  bump_all m [] = m
  bump_all m ((elem, d) ∷ ds) = bump_all (bump elem d m) ds

  -- the last loop, which fails at a count other than zero
  unfoldable pub all_zero : List (k.F × k.F) → Bool
  all_zero [] = true
  all_zero ((key, count) ∷ m) = is_zero k count && all_zero m

  -- the count of an element, zero if there is none
  abbrev pub count_of : k.F → List (k.F × k.F) → k.F
  count_of x [] = k.zero_F
  count_of x ((key, count) ∷ m) = if eqb_F k key x then count else count_of x m

  abbrev has_key : k.F → List (k.F × k.F) → Bool
  has_key x [] = false
  has_key x ((key, count) ∷ m) = eqb_F k key x || has_key x m

  abbrev pub AreDistinct : List (k.F × k.F) → Type 0
  AreDistinct [] = Unit
  AreDistinct ((key, count) ∷ m) = (has_key key m ≡ false) × AreDistinct m

  count_of-bump :
      (x elem d : k.F) (m : List (k.F × k.F))
      → count_of x (bump elem d m)
        ≡ (if eqb_F k elem x then k.add (count_of x m) d else count_of x m)
  unfolding bump
  count_of-bump x elem d [] = refl
  count_of-bump x elem d ((key, count) ∷ m) = ground (arith, count_of-bump x elem d m)

  has_key-bump :
      (x elem d : k.F) (m : List (k.F × k.F))
      → has_key x (bump elem d m) ≡ (eqb_F k elem x || has_key x m)
  unfolding bump
  has_key-bump x elem d [] = ground arith
  has_key-bump x elem d ((key, count) ∷ m) = ground (arith, has_key-bump x elem d m)

  bump-AreDistinct :
      (elem d : k.F) (m : List (k.F × k.F)) → AreDistinct m → AreDistinct (bump elem d m)
  unfolding bump
  bump-AreDistinct elem d [] h = (refl, tt)
  bump-AreDistinct elem d ((key, count) ∷ m) h =
      ground (arith, h.0, h.1, has_key-bump key elem d m, bump-AreDistinct elem d m h.1)

  pub bump_all-AreDistinct : (ds m : List (k.F × k.F)) → AreDistinct m → AreDistinct (bump_all m ds)
  unfolding bump_all
  bump_all-AreDistinct [] m h = h
  bump_all-AreDistinct ((elem, d) ∷ ds) m h =
      bump_all-AreDistinct ds (bump elem d m) (bump-AreDistinct elem d m h)

  -- what the changes make of one element's count
  abbrev pub balance : k.F → k.F → List (k.F × k.F) → k.F
  balance x acc [] = acc
  balance x acc ((elem, d) ∷ ds) = balance x (if eqb_F k elem x then k.add acc d else acc) ds

  pub count_of-bump_all :
      (x : k.F) (ds m : List (k.F × k.F)) → count_of x (bump_all m ds) ≡ balance x (count_of x m) ds
  unfolding bump_all
  count_of-bump_all x [] m = refl
  count_of-bump_all x ((elem, d) ∷ ds) m =
      rw (count_of-bump_all x ds (bump elem d m), count_of-bump x elem d m)

  is_zero_zero : is_zero k k.zero_F ≡ true
  is_zero_zero = ground arith

  pub count_of-is_zero :
      (m : List (k.F × k.F)) → all_zero m ≡ true → (x : k.F) → is_zero k (count_of x m) ≡ true
  unfolding all_zero
  count_of-is_zero [] h x = is_zero_zero
  count_of-is_zero ((key, count) ∷ m) h x =
      let (head, rest) = &&_split (is_zero k count) (all_zero m) h in
      ground (arith, head, count_of-is_zero m rest x)

  has_key-count_of :
      (x : k.F) (m : List (k.F × k.F)) → has_key x m ≡ false → is_zero k (count_of x m) ≡ true
  has_key-count_of x [] h = is_zero_zero
  has_key-count_of x ((key, count) ∷ m) h = ground (arith, h, has_key-count_of x m)

  count_of-key :
      (x y : k.F) (m : List (k.F × k.F)) → eqb_F k x y ≡ true → count_of x m ≡ count_of y m
  count_of-key x y [] h = refl
  count_of-key x y ((key, count) ∷ m) h = ground (arith, count_of-key x y m h)

  pub all_zero-of_counts :
      (m : List (k.F × k.F))
      → AreDistinct m
      → ((x : k.F) → is_zero k (count_of x m) ≡ true)
      → all_zero m ≡ true
  unfolding all_zero
  all_zero-of_counts [] d h = refl
  all_zero-of_counts ((key, count) ∷ m) d h =
      let head = h key in
      let rest =
        all_zero-of_counts m d.1
          (λ x. ground (arith, h x, d.0, count_of-key x key m, has_key-count_of key m d.0)) in
      ground (arith, head, rest)
