-- ===== src/Sign/Node.antt =====
-- `SignNode`'s `prove` and `verify` on the payloads of a pass (sign/mod.rs). The prover keeps what it
-- has committed to and claimed; the verifier its claims and the commitments that it has not read. On
-- an error the two are not used again, and are kept as they were.
pub mod Agreement
use Prim.Native.String.{compare}
use Prim.Native.Nat.{lt, eq, gt}
use truth_table.Common.{List, [], ◌∷◌, ◌++◌, Option, none, some, Result, ok, err, String}
use truth_table.Datafusion.Host.{Host}
use truth_table.Field.{PrimeField}
use truth_table.Ir.Passes.{Ir, payload_for_node}
use truth_table.Ir.GadgetPasses.{PayloadStructure, Step}
use truth_table.Sign.Config.{SignConfig}
use truth_table.Sign.Column.{Poly, TrackedCol, Claim, SnarkError, Transcript}
use truth_table.Sign.Protocol.{Run, prove, verify}

-- a table of data columns
abbrev Table : Host → PrimeField → Type 0
Table h k = List (TrackedCol h k)

-- the lookup of a key in a payload
find_label : {T : Type 0} → String → List (String × T) → Option T
find_label label [] = none
find_label label ((key, table) ∷ rest) =
    let found = find_label label rest in
    elim (compare key label) [ lt ↦ found | eq ↦ some table | gt ↦ found ]

abbrev pub input_label : String
input_label = "__input__"

unfoldable pub input_of : {T : Type 0} → Option (PayloadStructure T) → Option T
unfolding find_label
input_of none = none
input_of (some (PayloadStructure.plan_payload table)) = none
input_of (some (PayloadStructure.gadget_payload entries)) = find_label input_label entries

abbrev pub Tables : Host → PrimeField → Type 0
Tables h k = PayloadStructure (Table h k)

abbrev pub Prover : Host → PrimeField → Type 0
Prover h k = Transcript k × Ir SignConfig (Tables h k)

abbrev pub Verifier : Host → PrimeField → Type 0
Verifier h k = (List (Claim k) × List (Poly k)) × Ir SignConfig (Tables h k)

module _ {h : Host} {k : PrimeField} where
  abbrev pub after_prove :
      Prover h k → Result SnarkError (Transcript k) → Prover h k × Result SnarkError (Unit {0})
  after_prove (t, ir) (ok u) =
      let commitments = t.commitments ++ u.commitments in
      ((record { commitments = commitments; claims = t.claims ++ u.claims }, ir), ok tt)
  after_prove p (err e) = (p, err e)

  abbrev pub prove_input :
      SignConfig → Prover h k → Option (Table h k) → Prover h k × Result SnarkError (Unit {0})
  prove_input cfg p none = (p, err SnarkError.panic)
  prove_input cfg p (some cols) = after_prove p (prove cfg cols)

  unfoldable pub prove_sign_node : Step (Transcript k) SignConfig (Tables h k) SnarkError
  prove_sign_node cfg p id = prove_input cfg p (input_of (payload_for_node p.1 id))

  abbrev pub after_verify : Verifier h k → Run k → Verifier h k × Result SnarkError (Unit {0})
  after_verify ((claims, coms), ir) (ok r) = (((claims ++ r.0, r.1), ir), ok tt)
  after_verify v (err e) = (v, err e)

  abbrev pub verify_input :
      SignConfig → Verifier h k → Option (Table h k) → Verifier h k × Result SnarkError (Unit {0})
  verify_input cfg v none = (v, err SnarkError.panic)
  verify_input cfg v (some cols) = after_verify v (verify cfg cols v.0.1)

  unfoldable pub verify_sign_node :
      Step (List (Claim k) × List (Poly k)) SignConfig (Tables h k) SnarkError
  verify_sign_node cfg v id = verify_input cfg v (input_of (payload_for_node v.1 id))
