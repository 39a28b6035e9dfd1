-- ===== src/Gadgets/Claims.antt =====
-- Runs of a verifier that succeed with claims that hold.
use native.Mathlib.Nat.{one-le-pow}
use truth_table.Common.{
  zero, suc, false, sym, ==_iff, ◌==◌, ◌≤◌, Bool, ℕ, ◌<◌, ◌≡◌, ◌↔◌, refl, ap, List, [], ◌∷◌, ◌++◌,
  true, Result, ok, err, ◌>>=◌, arith, Bool-cases, inl, inr, ◌+◌, ◌∙◌,
}
use truth_table.Datafusion.Host.{Host}
use truth_table.Field.{PrimeField, IsLawful, is_zero}
use truth_table.Field.Arithmetic.{into_bigint-injective}
use truth_table.Sign.Column.{Claim}
use truth_table.Sign.Claims.{AllHold}
use truth_table.Table.{TrackedTable, size}
use truth_table.Gadgets.{GadgetError}

-- the run succeeds, and its claims hold on the rows
abbrev pub Met : {k : PrimeField} → ℕ → Result GadgetError (List (Claim k)) → Type 0
Met rows (ok claims) = AllHold rows claims
Met rows (err e) = ⊥

pub is_zero_iff : {k : PrimeField} → IsLawful k → (x : k.F) → (is_zero k x ≡ true) ↔ (x ≡ k.zero_F)
is_zero_iff {k} law x = (
  λ e. into_bigint-injective law x k.zero_F (ground (arith, e)),
  λ e.
      let same : k.into_bigint x ≡ k.into_bigint k.zero_F = ap k.into_bigint e in
      ground (arith, same),
)

pub size_pos : {h : Host} {k : PrimeField} (t : TrackedTable h k) → 0 < size k t
unfolding size
size_pos t = omega (arith, one-le-pow t.log_size 2 (omega arith))

module _ {k : PrimeField} (rows : ℕ) where
  pub AllHold-append :
      (xs ys : List (Claim k)) → AllHold rows (xs ++ ys) ↔ (AllHold rows xs × AllHold rows ys)
  AllHold-append [] ys = (λ holds. (tt, holds), λ holds. holds.1)
  AllHold-append (x ∷ xs) ys = (
    λ holds. let (first, rest) = (AllHold-append xs ys).0 holds.1 in ((holds.0, first), rest),
    λ holds. (holds.0.0, (AllHold-append xs ys).1 (holds.0.1, holds.1)),
  )

  -- the claims of one run followed by those of another
  pub Met-append :
      (m r : Result GadgetError (List (Claim k)))
      → Met rows (m >>= λ first. r >>= λ others. ok (first ++ others)) ↔ (Met rows m × Met rows r)
  Met-append (ok first) (ok others) = AllHold-append first others
  Met-append (ok first) (err e) = (λ met. absurd met, λ met. met.1)
  Met-append (err e) r = (λ met. absurd met, λ met. met.0)

-- two checks, one after the other
pub then_ok_iff :
    (m r : Result GadgetError (Unit {0})) → ((m >>= λ _. r) ≡ ok tt) ↔ ((m ≡ ok tt) × (r ≡ ok tt))
then_ok_iff (ok u) r = (λ e. (refl, e), λ e. e.1)
then_ok_iff (err x) r = (λ e. cc, λ e. cc)

pub true_ne_false : true ≡ false → ⊥
true_ne_false e = cc

false_claim_ne_ok :
    ◌≡◌ {A = Result GadgetError (Unit {0})} (err GadgetError.false_claim) (ok tt) → ⊥
false_claim_ne_ok e = cc

-- A loop over `n` rows from `i` on that stops at the first row that does not pass.
module _ (loop : ℕ → ℕ → Result GadgetError (Unit {0})) (passes : ℕ → Bool)
    (done : (i : ℕ) → loop i zero ≡ ok tt)
    (goes_on : (i n : ℕ) → passes i ≡ true → loop i (suc n) ≡ loop (i + 1) n)
    (stops : (i n : ℕ) → passes i ≡ false → loop i (suc n) ≡ err GadgetError.false_claim) where
  passes_at :
      (i j n : ℕ)
      → passes i ≡ true
      → ((j : ℕ) → i + 1 ≤ j → j < i + 1 + n → passes j ≡ true)
      → i ≤ j
      → j < i + suc n
      → passes j ≡ true
  passes_at i j n here later le lt = elim (Bool-cases (i == j)) [
    | inl same ↦ ap passes (sym ((==_iff i j).0 same)) ∙ here
    | inr other ↦ later j (ground (arith, other)) (omega arith)
  ]

  pub loop_iff : (i n : ℕ) → (loop i n ≡ ok tt) ↔ ((j : ℕ) → i ≤ j → j < i + n → passes j ≡ true)
  loop_iff i zero = (λ e j le lt. absurd (omega arith), λ all. done i)
  loop_iff i (suc n) =
      let ih = loop_iff (i + 1) n in
      elim (Bool-cases (passes i)) [
        | inl here ↦ (
          λ e j le lt. passes_at i j n here (ih.0 (sym (goes_on i n here) ∙ e)) le lt,
          λ all. goes_on i n here ∙ ih.1 (λ j le lt. all j (omega arith) (omega arith)),
        )
        | inr fails ↦ (
          λ e. absurd (false_claim_ne_ok (sym (stops i n fails) ∙ e)),
          λ all. absurd (true_ne_false (sym (all i (omega arith) (omega arith)) ∙ fails)),
        )
      ]
