-- ===== src/Tests.antt =====
-- A small database, and the cases of the theorems on it.
pub mod Data
pub mod Payments
pub mod Prices
pub mod Codes
pub mod Bans
pub mod Expiry
pub mod Frames
pub mod Fraud
pub mod Journal
pub mod Plugins
pub mod Counters
