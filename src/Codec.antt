-- ===== src/Codec.antt =====
-- crates/tt-core/src/irs/codec.rs: the serialisable form of plans, and the translations both ways.
pub mod DataTypes
pub mod Scalars
pub mod Enums
pub mod Reprs
pub mod Encode
pub mod Decode
pub mod Detached
pub mod RoundTrip
