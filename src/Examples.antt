-- ===== src/Examples.antt =====
-- The theorems at concrete inputs, and small runs of the definitions.
pub mod Execution
pub mod Limits
pub mod Planning
pub mod Planner
pub mod Context
pub mod State
pub mod Spec
pub mod Billing
pub mod Agents
pub mod Verification
