-- ===== src/Chunk.antt =====
-- crates/memgardend/src/retain/chunk.rs: the chunker.
pub mod Split
pub mod Json
pub mod Whole
