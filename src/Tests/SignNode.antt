-- ===== src/Tests/SignNode.antt =====
-- A step of the sign gadget for two columns, of which none may be negative.
use truth_table.Common.{[], ◌∷◌, none, some}
use truth_table.Ir.Nodes.{Node, Nodes}
use truth_table.Ir.Passes.{Ir}
use truth_table.Ir.GadgetPasses.{PayloadStructure}
use truth_table.Sign.Config.{Sign, SignConfig}
use truth_table.Sign.Node.{Tables, Prover}
use truth_table.Tests.Database.{host}
use truth_table.Tests.Sign.{field, ages, balances, transcript}

abbrev plain : SignConfig
plain = SignConfig.uniform Sign.non_negative

abbrev gadget_node : Node SignConfig
gadget_node = Node.gadget 1 plain Nodes.nil

abbrev plan_node : Node SignConfig
plan_node = Node.plan 0 (Nodes.cons gadget_node Nodes.nil)

abbrev ready : Ir SignConfig (Tables host field)
ready = record {
  tree = record { root = plan_node; arena = (1, gadget_node) ∷ (0, plan_node) ∷ [] };
  payloads =
      (1, some (PayloadStructure.gadget_payload (("__input__", ages ∷ balances ∷ []) ∷ [])))
      ∷ (0, none)
      ∷ [];
}

abbrev before : Prover host field
before = (record { commitments = []; claims = [] }, ready)

abbrev after : Prover host field
after = (record { commitments = transcript.commitments; claims = transcript.claims }, ready)
