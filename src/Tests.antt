-- ===== src/Tests.antt =====
-- Runs of the theorems at concrete inputs.
pub mod Database
pub mod Codec
pub mod Sign
pub mod SignNode
pub mod Planner
pub mod Filters
pub mod KeyedSumcheck
pub mod Chunks
pub mod Ir
pub mod Encoding
pub mod Join
pub mod JoinModes
pub mod Inclusion
pub mod Gadgets
pub mod Compare
pub mod BinCmp
pub mod Strict
pub mod BinEq
