-- ===== src/Billing.antt =====
-- src/rooben/billing: what the tokens cost.
pub mod Costs
