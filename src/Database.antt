-- ===== src/Database.antt =====
-- internal/database: the tables, the statements on them, and transactions.
-- A table is the list of its rows in the order of the primary key. A driver may refuse any
-- statement: `Faults` says which ones it refuses while an operation runs.
pub mod Users
pub mod Payments
pub mod Promos
pub mod Subscriptions
pub mod Devices
pub mod Expiry
pub mod Keeps
mod Tables
pub use Tables.*
