-- ===== src/Verification.antt =====
-- src/rooben/verification: the check of a task's output.
pub mod Verifier
pub mod Chained
pub mod Heuristic
pub mod Tiered
