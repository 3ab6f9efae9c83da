-- ===== src/Domain.antt =====
-- src/rooben/domain.py: the runtime state of the orchestration.
pub mod Status
pub mod Models
pub mod State
