-- ===== src/Policy.antt =====
-- server/src/DynamicPriorityPolicy.cpp: which waiting train to release into a shared corridor.
pub mod Constraints
pub mod Scoring
pub mod Decision
pub mod Selection
pub mod Release
pub mod Choice
pub mod Fairness
mod Tests
