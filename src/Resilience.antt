-- ===== src/Resilience.antt =====
-- src/rooben/resilience: what keeps a run going, or stops it, when calls fail.
pub mod CircuitBreaker
pub mod ApiRetry
pub mod ApiLimiter
pub mod Checkpoint
