-- ===== src/Ir.antt =====
-- crates/tt-core/src/irs and the passes over it: trees of nodes, their arenas, passes that visit
-- each node, and the passes that run the gadgets of a prover and of a verifier.
pub mod Nodes
pub mod Tree
pub mod Passes
pub mod JoinModes
pub mod GadgetPasses
pub mod PayloadPasses
