-- ===== src/Consolidate.antt =====
-- Consolidation: crates/memgardend/src/consolidate/round.rs, and the statements of
-- crates/memgarden-store/src/consolidate.rs that a round rests on.
pub mod Runs
pub mod Plan
pub mod Batch
pub mod Round
pub mod Nodes
