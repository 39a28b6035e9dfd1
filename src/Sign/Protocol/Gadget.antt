-- ===== src/Sign/Protocol/Gadget.antt =====
-- `verify` of a sign configuration over all its data columns (sign/mod.rs).
use truth_table.Common.{
  ℕ, zero, suc, ◌+◌, ◌<◌, ◌≡◌, refl, List, [], ◌∷◌, ◌++◌, ok, err, ◌>>=◌, Option, none, some,
  length, get_elem?, arith,
}
use truth_table.Datafusion.Host.{Host}
use truth_table.Field.{PrimeField, IsLawful}
use truth_table.Sign.Config.{Sign, SignConfig, sign_for_index}
use truth_table.Sign.Column.{Poly, TrackedCol, Claim, negated_col}
use truth_table.Sign.Claims.{AllHold, IsActive, range_size}
use truth_table.Sign.Protocol.{Run, with_sign, verify_sign_inner, signed_col, verify_from, verify}
use truth_table.Sign.Protocol.Soundness.{verify_sign_inner-lt}

module _ {k : PrimeField} (rows : ℕ) where
  append-AllHold :
      (xs ys : List (Claim k)) → AllHold rows (xs ++ ys) → AllHold rows xs × AllHold rows ys
  append-AllHold [] ys holds = (tt, holds)
  append-AllHold (x ∷ xs) ys holds =
      let rest = append-AllHold xs ys holds.1 in ((holds.0, rest.0), rest.1)

  -- if the claims of a run hold, so does `P`
  abbrev Shows : Type 0 → Run k → Type 0
  Shows P (ok r) = AllHold rows r.0 → P
  Shows P (err e) = Unit

  with_sign-Shows :
      (P : Type 0) (o : Option Sign) (f : Sign → Run k)
      → ((s : Sign) → o ≡ some s → Shows P (f s))
      → Shows P (with_sign o f)
  with_sign-Shows P none f a = tt
  with_sign-Shows P (some s) f a = a s refl

  module _ (P : Type 0) where
    then_Shows-first :
        (claims : List (Claim k)) (n : Run k)
        → (AllHold rows claims → P)
        → Shows P (n >>= λ r. ok (claims ++ r.0, r.1))
    then_Shows-first claims (ok r) a = λ holds. a (append-AllHold claims r.0 holds).0
    then_Shows-first claims (err e) a = tt

    then_Shows-rest :
        (claims : List (Claim k)) (n : Run k)
        → Shows P n
        → Shows P (n >>= λ r. ok (claims ++ r.0, r.1))
    then_Shows-rest claims (ok r) a = λ holds. a (append-AllHold claims r.0 holds).1
    then_Shows-rest claims (err e) a = tt

    Shows->>= :
        (m : Run k) (f : List (Claim k) × List (Poly k) → Run k)
        → ((r : List (Claim k) × List (Poly k)) → m ≡ ok r → Shows P (f r))
        → Shows P (m >>= f)
    Shows->>= (ok r) f a = a r refl
    Shows->>= (err e) f a = tt

    Shows-ok :
        (m : Run k) {claims : List (Claim k)} {left : List (Poly k)}
        → Shows P m
        → m ≡ ok (claims, left)
        → AllHold rows claims
        → P
    Shows-ok (ok r) shows e holds = ground arith
    Shows-ok (err x) shows e holds = cc

module _ {h : Host} {k : PrimeField} (law : IsLawful k) (rows : ℕ) (cfg : SignConfig) where
  signed_col-lt :
      (s : Sign) (c : TrackedCol h k) (coms : List (Poly k)) {claims : List (Claim k)}
      {left : List (Poly k)}
      → verify_sign_inner (signed_col s c) coms ≡ ok (claims, left)
      → AllHold rows claims
      → (i : ℕ) → i < rows
      → IsActive k c.activator i
      → k.into_bigint ((signed_col s c).data_poly i) < range_size c.data_type
  unfolding signed_col negated_col
  signed_col-lt Sign.non_negative c coms = verify_sign_inner-lt law rows c coms
  signed_col-lt Sign.positive c coms = verify_sign_inner-lt law rows c coms
  signed_col-lt Sign.non_positive c coms = verify_sign_inner-lt law rows (negated_col c) coms
  signed_col-lt Sign.negative c coms = verify_sign_inner-lt law rows (negated_col c) coms

  -- the head of the list and its sign, found
  found_lt :
      (s s' : Sign) (c c' : TrackedCol h k) (coms : List (Poly k))
      (r : List (Claim k) × List (Poly k))
      → c ≡ c'
      → s' ≡ s
      → verify_sign_inner (signed_col s' c) coms ≡ ok r
      → AllHold rows r.0
      → (i : ℕ) → i < rows
      → IsActive k c'.activator i
      → k.into_bigint ((signed_col s c').data_poly i) < range_size c'.data_type
  found_lt s s' c c' coms r ec es e holds i lt active =
      signed_col-lt s c' coms {claims = r.0} {left = r.1} (rw (← ec, ← es) e) holds i lt active

  verify_from-Shows :
      (total idx : ℕ) (cs : List (TrackedCol h k)) (coms : List (Poly k)) (j : ℕ)
      {c : TrackedCol h k} {s : Sign}
      → get_elem? cs j ≡ some c
      → sign_for_index cfg (idx + j) total ≡ some s
      → (i : ℕ) → i < rows
      → IsActive k c.activator i
      → Shows rows
          (k.into_bigint ((signed_col s c).data_poly i) < range_size c.data_type)
          (verify_from cfg total idx cs coms)
  unfolding verify_from
  verify_from-Shows total idx [] coms j e sign i lt active = λ holds. cc
  verify_from-Shows total idx (c ∷ cs) coms zero {c = c'} {s} e sign i lt active =
      with_sign-Shows rows _ (sign_for_index cfg idx total) _ λ s' e'.
        Shows->>= rows _ (verify_sign_inner (signed_col s' c) coms) _ λ r er.
          then_Shows-first rows _ r.0 (verify_from cfg total (idx + 1) cs r.1)
            (λ holds. found_lt s s' c c' coms r (ground arith) (ground arith) er holds i lt active)
  verify_from-Shows total idx (c ∷ cs) coms (suc j) {s = s} e sign i lt active =
      with_sign-Shows rows _ (sign_for_index cfg idx total) _ λ s' e'.
        Shows->>= rows _ (verify_sign_inner (signed_col s' c) coms) _ λ r er.
          then_Shows-rest rows _ r.0 (verify_from cfg total (idx + 1) cs r.1)
            (verify_from-Shows total (idx + 1) cs r.1 j e (grind arith) i lt active)

  -- Once the claims that the verifier of a sign configuration adds hold on the rows, each data
  -- column has at each active row, itself or negated as its sign asks, a value below the range size
  -- of its type, whatever commitments were read.
  pub verify-lt :
      (cs : List (TrackedCol h k)) (coms : List (Poly k)) {claims : List (Claim k)}
      {left : List (Poly k)}
      → verify cfg cs coms ≡ ok (claims, left)
      → AllHold rows claims
      → (j : ℕ) {c : TrackedCol h k} {s : Sign} → get_elem? cs j ≡ some c
      → sign_for_index cfg j (length cs) ≡ some s
      → (i : ℕ) → i < rows
      → IsActive k c.activator i
      → k.into_bigint ((signed_col s c).data_poly i) < range_size c.data_type
  unfolding verify
  verify-lt cs coms e holds j {s = s} found sign i lt active =
      Shows-ok rows _ (verify_from cfg (length cs) 0 cs coms)
        (verify_from-Shows (length cs) 0 cs coms j found (grind arith) i lt active) e holds
