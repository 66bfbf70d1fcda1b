-- ===== src/Replication.antt =====
-- internal/plugins/cluster_replication: the replication of desired state from a master to slaves.
pub mod Frame
pub mod Tables
pub mod Outbox
pub mod Fraud
pub mod Ingest
pub mod Slave
pub mod Apply
