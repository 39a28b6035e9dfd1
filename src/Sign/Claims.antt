-- ===== src/Sign/Claims.antt =====
-- What the claims of the sign gadget state, and what is read of a column once they hold.
use truth_table.Common.{ℕ, ◌^◌, ◌<◌, ◌≡◌, ◌≢◌, List, [], ◌∷◌, Option, none, some}
use truth_table.Datafusion.Host.{Host}
use truth_table.Datafusion.Arrow.{DataType}
use truth_table.Field.{PrimeField}
use truth_table.Sign.Column.{Poly, Claim}

-- the elements of the range table, the numbers below `2 ^ nv` as field elements
abbrev pub InRange : (k : PrimeField) → ℕ → k.F → Type 0
InRange k nv x = (n : ℕ) × (n < 2 ^ nv) × (x ≡ k.from n)

-- what a claim states of the first `rows` rows
abbrev pub Holds : {k : PrimeField} → ℕ → Claim k → Type 0
Holds {k} rows (Claim.lookup nv p) = (i : ℕ) → i < rows → InRange k nv (p i)
Holds {k} rows (Claim.zerocheck p) = (i : ℕ) → i < rows → p i ≡ k.zero_F
Holds {k} rows (Claim.nozerocheck p) = (i : ℕ) → i < rows → p i ≢ k.zero_F

abbrev pub AllHold : {k : PrimeField} → ℕ → List (Claim k) → Type 0
AllHold rows [] = Unit
AllHold rows (c ∷ cs) = Holds rows c × AllHold rows cs

-- a row that the activator keeps
abbrev pub IsActive : (k : PrimeField) → Option (Poly k) → ℕ → Type 0
IsActive k none i = Unit
IsActive k (some a) i = a i ≡ k.one_F

-- how many values the claims allow at a type
unfoldable pub range_size : {h : Host} → DataType h → ℕ
range_size DataType.uint8 = 2 ^ 8
range_size DataType.int8 = 2 ^ 7
range_size DataType.uint16 = 2 ^ 16
range_size DataType.int16 = 2 ^ 15
range_size DataType.uint32 = 2 ^ 64
range_size DataType.int32 = 2 ^ 63
range_size DataType.date32 = 2 ^ 63
range_size DataType.uint64 = 2 ^ 64
range_size DataType.int64 = 2 ^ 63
range_size (DataType.decimal128 _ _) = 2 ^ 127
range_size DataType.utf8_view = 2 ^ 256
range_size _ = 0
