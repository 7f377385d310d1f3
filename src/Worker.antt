-- ===== src/Worker.antt =====
-- crates/memgardend/src/retain/mod.rs: the retain worker, one job from its chunks to its final row.
pub mod Run
pub mod Loop
pub mod Outcome
pub mod Ahead
pub mod Resume
pub mod Admission
pub mod Rows
