-- ===== src/Sign/Node/Agreement.antt =====
-- A sign node's `prove` and `verify` at its payload (sign/mod.rs), wherever in a tree it stands.
use truth_table.Common.{◌≡◌, List, ◌++◌, Result, ok}
use truth_table.Datafusion.Host.{Host}
use truth_table.Field.{PrimeField}
use truth_table.Sign.Column.{Poly, SnarkError}
use truth_table.Sign.Node.{Prover, Verifier}

module _ {h : Host} {k : PrimeField} where
  -- The prover has added commitments, and a verifier's step that finds them ahead of `rest` comes to
  -- the prover's claims and leaves `rest`.
  abbrev pub Follows :
      (Verifier h k → Verifier h k × Result SnarkError (Unit {0}))
      → List (Poly k)
      → Prover h k
      → Prover h k
      → Type 0
  Follows step rest p p' =
      (added : List (Poly k)) × (p'.0.commitments ≡ p.0.commitments ++ added)
      × (step ((p.0.claims, added ++ rest), p.1) ≡ (((p'.0.claims, rest), p'.1), ok tt))
