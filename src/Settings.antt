-- ===== src/Settings.antt =====
-- crates/memgarden-cli/src/settings.rs: the hooks in the user's `settings.json`, edited by splice.
pub mod Scan
pub mod Tree
pub mod Entry
pub mod View
pub mod Install
pub mod Uninstall
pub mod Cycle
