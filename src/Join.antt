-- ===== src/Join.antt =====
-- How a join is specialised by the keys of its tables: crates/tt-core/src/irs/nodes/plan/lps/join/modes.rs
-- and the constraints of crates/tt-core/src/irs/nodes/hints.rs.
pub mod Text
pub mod Constraints
pub mod Modes
pub mod Decide
