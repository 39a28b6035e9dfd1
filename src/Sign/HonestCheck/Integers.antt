-- ===== src/Sign/HonestCheck/Integers.antt =====
-- The honest prover's check (sign/mod.rs) on columns that hold integers.
use truth_table.Common.{
  ℕ, ◌<◌, ◌≡◌, ◌≢◌, ◌↔◌, List, Option, none, some, false, ok, length, get_elem?, arith,
}
use truth_table.Common.Int.{ℤ}
use truth_table.Datafusion.Host.{Host}
use truth_table.Field.{PrimeField, IsLawful, is_zero}
use truth_table.Sign.Config.{Sign, SignConfig, sign_for_index}
use truth_table.Sign.Column.{TrackedCol, is_inactive}
use truth_table.Sign.HonestCheck.{honest_prover_check}
use truth_table.Sign.HonestCheck.Rows.{honest_prover_check_iff}
use truth_table.Sign.HonestCheck.Values.{kind, Fits, Fits-lt, Shown, row_passes_iff}

-- a row is active where there is no activator or it is not zero
abbrev pub IsActive : {h : Host} {k : PrimeField} → TrackedCol h k → ℕ → Type 0
IsActive {k = k} c i = elim c.activator [ none ↦ Unit | some a ↦ k.into_bigint (a i) ≢ 0 ]

module _ {k : PrimeField} (law : IsLawful k) where
  inactive_iff : {h : Host} (c : TrackedCol h k) (i : ℕ) → (is_inactive c i ≡ false) ↔ IsActive c i
  inactive_iff c i = go c.activator
    where
      go :
          (o : Option (ℕ → k.F))
          → ((elim o [ none ↦ false | some a ↦ is_zero k (a i) ]) ≡ false)
            ↔ (elim o [ none ↦ Unit {0} | some a ↦ k.into_bigint (a i) ≢ 0 ])
      go none = ground arith
      go (some a) = ground (arith, law.into_bigint-zero)

  -- what the columns hold, by the column and the row
  module _ {h : Host} (cfg : SignConfig) (rows : ℕ) (cs : List (TrackedCol h k))
      (value : ℕ → ℕ → ℤ) where
    -- the integers of the active rows are the values, in the range of the column's type
    abbrev pub Hold : Type 0
    Hold =
        (j : ℕ) (c : TrackedCol h k)
        → get_elem? cs j ≡ some c
        → (i : ℕ) → i < rows
        → IsActive c i
        → (c.data_poly i ≡ k.from_signed (value j i))
          × Fits k.modulus (kind c.data_type) (value j i)

    -- Over columns whose active rows hold integers that fit the column's type, the honest prover's
    -- check succeeds exactly when each column has a sign and the following holds of the integer of
    -- each active row. In a column of a signed type the integer has the sign: it is at least zero,
    -- more than zero, at most zero or less than zero. In a column of an unsigned type or of texts it
    -- is not zero if the sign is strict. A column of another type has no active row. An integer fits
    -- a signed type of that many bits if its absolute value is below 2 ^ (bits - 1) and its double
    -- below the modulus, and any other type if its absolute value is below the modulus.
    pub honest_prover_check-Shown :
        Hold
        → (honest_prover_check cfg rows cs ≡ ok tt) ↔ (
            (j : ℕ) (c : TrackedCol h k)
            → get_elem? cs j ≡ some c
            → (s : Sign) × (sign_for_index cfg j (length cs) ≡ some s)
              × ((i : ℕ) → i < rows → IsActive c i → Shown (kind c.data_type) s (value j i)))
    honest_prover_check-Shown hold =
        let cols = honest_prover_check_iff cfg rows cs in
        (
          (λ e j c found.
              let (s, is, pass) = cols.0 e j c found in
              (
                s,
                is,
                (λ i lt active.
                    let (reads, fits) = hold j c found i lt active in
                    (row_passes_iff law s c.data_type (value j i)
                        (Fits-lt _ (kind c.data_type) _ fits) fits).0
                      (rw (← reads) (pass i lt ((inactive_iff c i).1 active)))),
              )),
          (λ p. cols.1 (λ j c found.
              let (s, is, shown) = p j c found in
              (
                s,
                is,
                (λ i lt active.
                    let act = (inactive_iff c i).0 active in
                    let (reads, fits) = hold j c found i lt act in
                    rw reads (
                      (row_passes_iff law s c.data_type (value j i)
                          (Fits-lt _ (kind c.data_type) _ fits) fits).1
                        (shown i lt act))),
              ))),
        )
