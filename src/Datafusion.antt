-- ===== src/Datafusion.antt =====
-- The types of Arrow and DataFusion that the program takes apart, with the constructors and fields
-- that it reads. What it only passes on is a type of the parameter `Host`.
pub mod Host
pub mod Arrow
pub mod Scalar
pub mod Enums
pub mod Plans
