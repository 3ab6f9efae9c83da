-- ===== src/Context.antt =====
-- src/rooben/context: the prompts of the agents.
pub mod Sections
pub mod Builder
