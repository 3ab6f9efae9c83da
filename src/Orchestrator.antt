-- ===== src/Orchestrator.antt =====
-- src/rooben/orchestrator.py: the execution engine.
pub mod Core
pub mod Updates
pub mod TaskSteps
pub mod Execution
pub mod Gather
pub mod Loop
pub mod Phases
