-- ===== src/Ir/PayloadPasses.antt =====
-- The passes in which nodes write payloads: `VirtualizationPass` and `GadgetInitializationPass` of
-- crates/tt-core/src/prover/passes and crates/tt-core/src/verifier/passes. What a node writes is an
-- argument; it is `none` where the code panics, and a pass that has panicked has the state `none`.
pub mod Filled
use truth_table.Common.{ℕ, List, [], ◌∷◌, Option, none, some, map}
use truth_table.Ir.Nodes.{Node}
use truth_table.Ir.Tree.{get}
use truth_table.Ir.Passes.{
  Ir, PassOrder, LocalPass, or_else, payload_for_node, set_payload_for_node,
}
use truth_table.Ir.GadgetPasses.{PayloadStructure}

-- the empty table that stands in for a missing payload
abbrev pub empty_table : {T : Type 0} → T → PayloadStructure T
empty_table default = PayloadStructure.plan_payload default

module _ {G T : Type 0} (default : T) where
  -- `VirtualizationPass::new` of the prover and of the verifier
  unfoldable pub prover_virtualized_ir : Ir G (PayloadStructure T) → Ir G (PayloadStructure T)
  prover_virtualized_ir tracked = record {
    tree = tracked.tree;
    payloads = map (λ e. (e.0, or_else e.1 (some (empty_table default)))) tracked.payloads;
  }

  unfoldable pub verifier_virtualized_ir : Ir G (PayloadStructure T) → Ir G (PayloadStructure T)
  verifier_virtualized_ir tracked = record { tree = tracked.tree; payloads = tracked.payloads }

  abbrev after_witness :
      ℕ
      → Option (PayloadStructure T)
      → Option (Ir G (PayloadStructure T))
      → Option (PayloadStructure T) × Option (Ir G (PayloadStructure T))
  after_witness id payload none = (none, none)
  after_witness id payload (some ir) =
      (or_else (payload_for_node ir id) (or_else payload (some (empty_table default))), some ir)

  unfoldable pub virtualization_transform :
      (Node G → ℕ → Ir G (PayloadStructure T) → Option (Ir G (PayloadStructure T)))
      → Node G
      → ℕ
      → Option (PayloadStructure T)
      → Option (Ir G (PayloadStructure T))
      → Option (PayloadStructure T) × Option (Ir G (PayloadStructure T))
  virtualization_transform add_virtual_witness node id payload none = (none, none)
  virtualization_transform add_virtual_witness node id payload (some ir) =
      after_witness id payload (add_virtual_witness node id ir)

  unfoldable pub virtualization_pass :
      (Node G → ℕ → Ir G (PayloadStructure T) → Option (Ir G (PayloadStructure T)))
      → LocalPass G (PayloadStructure T) (PayloadStructure T) (Option (Ir G (PayloadStructure T)))
  unfolding virtualization_transform
  virtualization_pass add_virtual_witness = record {
    transform = virtualization_transform add_virtual_witness;
    order = PassOrder.post_order;
    fallback_payload = λ node id. some (empty_table default);
    begin_pass = λ ir s. s;
    end_pass = λ s. s;
  }

module _ {G T : Type 0} where
  -- the payload of a node, seeded where the node has no entry
  unfoldable pub seeded : ℕ → Option T → Ir G T → Ir G T
  unfolding set_payload_for_node
  seeded id payload ir = elim (get id ir.payloads) [
    | none ↦ set_payload_for_node id payload ir
    | some p ↦ ir
  ]

module _ {A G T : Type 0} where
  abbrev after_initialization :
      ℕ
      → Option (PayloadStructure T)
      → Option (A × Ir G (PayloadStructure T))
      → Option (PayloadStructure T) × Option (A × Ir G (PayloadStructure T))
  after_initialization id payload none = (none, none)
  after_initialization id payload (some (arg, ir)) =
      (or_else (payload_for_node ir id) payload, some (arg, ir))

  -- `A` is what the prover or the verifier keeps, which the clones of it share
  unfoldable pub initialization_transform :
      (Node G → ℕ → A × Ir G (PayloadStructure T) → Option (A × Ir G (PayloadStructure T)))
      → Node G
      → ℕ
      → Option (PayloadStructure T)
      → Option (A × Ir G (PayloadStructure T))
      → Option (PayloadStructure T) × Option (A × Ir G (PayloadStructure T))
  unfolding seeded
  initialization_transform initialize_gadgets node id payload none = (none, none)
  initialization_transform initialize_gadgets node id payload (some (arg, ir)) =
      after_initialization id payload (initialize_gadgets node id (arg, seeded id payload ir))

module _ {A G T : Type 0} (default : T) where
  unfoldable pub gadget_initialization_pass :
      (Node G → ℕ → A × Ir G (PayloadStructure T) → Option (A × Ir G (PayloadStructure T)))
      → LocalPass G
          (PayloadStructure T)
          (PayloadStructure T)
          (Option (A × Ir G (PayloadStructure T)))
  unfolding initialization_transform
  gadget_initialization_pass initialize_gadgets = record {
    transform = initialization_transform initialize_gadgets;
    order = PassOrder.pre_order;
    fallback_payload = λ node id. some (empty_table default);
    begin_pass = λ ir s. s;
    end_pass = λ s. s;
  }
