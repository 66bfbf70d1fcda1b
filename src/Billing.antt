-- ===== src/Billing.antt =====
-- internal/plugins/billing/service.go: the payments service over the database.
pub mod Settle
pub mod Create
pub mod Once
pub mod Credit
pub mod Solvency
pub mod Extend
