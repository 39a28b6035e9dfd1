-- ===== src/Gadgets.antt =====
-- The gadgets of crates/tt-core/src/irs/nodes/utils that make claims about columns: bool, eq, neq, leq
-- and geq. What they share is here.
pub mod Claims
pub mod Boolean
pub mod Equality
pub mod Compare
pub mod Payloads
pub mod Strict
pub mod Operands
pub mod BinCmp
pub mod BinEq
use truth_table.Common.{ℕ, List, [], ◌∷◌, Option, none, some, String, ◌≡◌, Result, ok, err}
use truth_table.Datafusion.Host.{Host}
use truth_table.Field.{PrimeField}
use truth_table.Sign.Column.{Poly}
use truth_table.Ir.GadgetPasses.{PayloadStructure}
use truth_table.Join.Constraints.{find_name}

-- `false_claim` is the honest prover's error, `check_failed` the verifier's, `panic` a missing payload
-- or an index out of bounds
pub data GadgetError : Type 0 where
  false_claim check_failed panic : GadgetError

-- an entry of the payload of a gadget
unfoldable pub payload_input : {T : Type 0} → Option (PayloadStructure T) → String → Option T
payload_input none label = none
payload_input (some (PayloadStructure.plan_payload t)) label = none
payload_input (some (PayloadStructure.gadget_payload entries)) label = find_name label entries

abbrev pub or_panic {ℓ} :
    {A : Type 0} {B : Type ℓ} → Option A → (A → Result GadgetError B) → Result GadgetError B
or_panic none f = err GadgetError.panic
or_panic (some a) f = f a

-- `as_constant` tells of some polynomials, not of all, that they are constant
pub record Constants (k : PrimeField) : Type 0 where
  pub as_constant : Poly k → Option k.F
  pub constant_value : (p : Poly k) (c : k.F) → as_constant p ≡ some c → (i : ℕ) → p i ≡ c
