-- ===== src/Planning.antt =====
-- src/rooben/planning: from a specification to a graph of tasks.
pub mod Cycles
pub mod Checker
pub mod Draft
pub mod Judge
pub mod Planner
