-- ===== src/Planner.antt =====
-- crates/tt-proof-planner: the rules that rewrite logical plans.
pub mod Rewrite
pub mod MergeLimits
pub mod Filters
pub mod SortFetch
