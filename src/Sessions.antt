-- ===== src/Sessions.antt =====
-- The daemon's mirror of the hook's sessions: rows, the table, and what moves the two cursors.
pub mod Row
pub mod Table
pub mod Writers
pub mod Cursors
