-- ===== src/Common/Outcome.antt =====
-- `Result<T, E>` and its `?` operator.
use mathlib.Core.Path.{◌≡◌}
use native.Mathlib.Omega.{arith}

pub data Result {ℓ κ} (E : Type κ) (A : Type ℓ) : Type (ℓ ⊔ κ) where
  ok : A → Result E A
  err : E → Result E A

infixl 5 ◌>>=◌
abbrev pub ◌>>=◌ {ℓ κ μ} :
    {E : Type κ} {A : Type ℓ} {B : Type μ} → Result E A → (A → Result E B) → Result E B
ok a >>= f = f a
err e >>= f = err e

-- What an encoder accepts, the decoder restores.
abbrev pub Restores {ℓ κ μ} :
    {E : Type κ} {R : Type ℓ} {A : Type μ} → Result E R → (R → Result E A) → A → Type (κ ⊔ μ)
Restores (ok r) decode a = decode r ≡ ok a
Restores (err e) decode a = Unit

module _ {ℓ κ μ ν ρ} {E : Type κ} {R : Type ℓ} {A : Type μ} {S : Type ν} {B : Type ρ} where
  pub Restores->>= :
      (m : Result E R) (k : R → Result E S) (decode : R → Result E A) (a : A)
      (decode' : S → Result E B) (b : B)
      → Restores m decode a
      → ((r : R) → decode r ≡ ok a → Restores (k r) decode' b)
      → Restores (m >>= k) decode' b
  Restores->>= (ok r) k decode a decode' b h f = f r h
  Restores->>= (err e) k decode a decode' b h f = tt

-- The same, as an implication.
pub Restores-ok {ℓ κ μ} :
    {E : Type κ} {R : Type ℓ} {A : Type μ} (m : Result E R) (decode : R → Result E A) (a : A)
    {r : R}
    → Restores m decode a
    → m ≡ ok r
    → decode r ≡ ok a
Restores-ok (ok r) decode a h e = ground arith
Restores-ok (err x) decode a h e = cc
