-- ===== src/Examples.antt =====
-- Runs of the models at concrete inputs, and the theorems at inputs that meet their hypotheses.
mod Sessions
mod Jobs
mod Worker
mod Chunk
mod Hook
mod Mental
mod Metrics
mod Recall
mod Settings
mod Consolidate
