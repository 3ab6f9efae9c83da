-- ===== src/Agents.antt =====
-- src/rooben/agents: what agents use to do their work.
pub mod Pool
pub mod Scratchpad
