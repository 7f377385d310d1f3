-- ===== src/Recall.antt =====
-- crates/memgardend/src/recall: how the arms' hits become a ranked list that fits a budget.
pub mod Float
pub mod Fusion
pub mod Budget
