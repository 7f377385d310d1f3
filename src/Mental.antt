-- ===== src/Mental.antt =====
-- crates/memgardend/src/mental/cron.rs: when a mental model is due.
pub mod Field
pub mod Cron
