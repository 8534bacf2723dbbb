-- ===== src/Billing.antt =====
-- The Billing service's domain (apps/billing/src/domain).
pub mod Ledger
pub mod Line
pub mod Credit
pub mod Invoice
