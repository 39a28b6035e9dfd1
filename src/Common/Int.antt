-- ===== src/Common/Int.antt =====
-- Signed integers over the native numbers, under the library's name.
use Prim.Native.Nat.{ℕ}
use mathlib.Core.Bool.{Bool, false}
use truth_table.Common.Tests.{◌==◌}

-- `negsuc n` is -(n + 1).
pub data ℤ : Type 0 where
  pos : ℕ → ℤ
  negsuc : ℕ → ℤ

-- Rust's `==` on a signed integer.
abbrev pub eqb_ℤ : ℤ → ℤ → Bool
eqb_ℤ (pos a) (pos b) = a == b
eqb_ℤ (negsuc a) (negsuc b) = a == b
eqb_ℤ _ _ = false
