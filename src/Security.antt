-- ===== src/Security.antt =====
-- src/rooben/security: the limits on what a run may use.
pub mod Budget
pub mod RateLimiter
