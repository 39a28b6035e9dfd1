-- ===== src/Sign.antt =====
-- crates/tt-core/src/irs/nodes/utils/sign/mod.rs: the gadget that proves the sign of each active value of
-- a column by range lookups on 16-bit chunks.
pub mod Config
pub mod Chunks
pub mod Decode
pub mod Column
pub mod Protocol
pub mod Node
pub mod HonestCheck
pub mod Claims
