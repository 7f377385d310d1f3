-- ===== src/Hook.antt =====
-- The hook's side of retain: crates/memgarden-cli/src/state.rs, transcript.rs and cmd/retain.rs.
pub mod State
pub mod Reader
pub mod Replies
pub mod Retain
