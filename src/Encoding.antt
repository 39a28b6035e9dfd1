-- ===== src/Encoding.antt =====
-- crates/tt-arithmetic/src/encoding.rs: Arrow arrays as columns of field elements.
pub mod Columns
pub mod Bytes
pub mod Arrays
