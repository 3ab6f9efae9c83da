-- ===== src/Spec.antt =====
-- src/rooben/spec: what a user asks for.
pub mod Models
pub mod Validator
