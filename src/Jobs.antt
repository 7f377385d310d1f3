-- ===== src/Jobs.antt =====
-- crates/memgarden-store/src/retain_jobs.rs: the durable rows of the retain jobs.
pub mod Status
pub mod Row
pub mod Table
pub mod Restart
pub mod Settled
pub mod Life
