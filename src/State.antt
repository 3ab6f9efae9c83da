-- ===== src/State.antt =====
-- src/rooben/state: the backends that persist the workflow state.
pub mod Filesystem
pub mod Protocol
