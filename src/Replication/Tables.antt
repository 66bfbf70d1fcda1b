-- ===== src/Replication/Tables.antt =====
-- The tables of internal/plugins/cluster_replication/store.go, and its statements.
use xraytool_go.Prelude.{ℕ, Bool, List, Option, String}
use xraytool_go.Prelude.Int.{ℤ}
pub use xraytool_go.Transaction.{statement, transaction, continue, ◌>>=◌, ◌>>◌, pure, lift}

pub record OutboxRow : Type 0 where
  pub revision : ℕ
  pub kind : String
  pub payload : String
  pub checksum : String

pub record ReplicaRow : Type 0 where
  pub node_id : String
  pub acknowledged_revision : ℤ
  pub connected_at : ℕ
  pub last_seen_at : ℕ

pub record InboxRow : Type 0 where
  pub master_id : String
  pub revision : ℤ
  pub checksum : String

pub record MetaRow : Type 0 where
  pub key : String
  pub value : String

pub record DesiredUserRow : Type 0 where
  pub email : String
  pub payload : String
  pub revision : ℤ

pub record StagingUserRow : Type 0 where
  pub snapshot_id : String
  pub email : String
  pub payload : String

pub record FraudOutboxRow : Type 0 where
  pub event_id : String
  pub email : String
  pub ip_hash : String
  pub hash_key_id : String
  pub occurred_at : ℕ
  pub created_at : ℕ

pub record FraudInboxRow : Type 0 where
  pub node_id : String
  pub event_id : String
  pub email : String
  pub ip_hash : String
  pub hash_key_id : String
  pub occurred_at : ℕ
  pub received_at : ℕ

-- The database of one node. The key of the outbox is automatic and is never given twice.
pub record Store : Type 0 where
  pub outbox : List OutboxRow
  pub next_revision : ℕ
  pub replicas : List ReplicaRow
  pub inbox : List InboxRow
  pub meta : List MetaRow
  pub desired : List DesiredUserRow
  pub staging : List StagingUserRow
  pub fraud_outbox : List FraudOutboxRow
  pub fraud_inbox : List FraudInboxRow

pub data Stmt : Type 0 where
  create_event read_events delete_events : Stmt
  find_replica create_replica save_replica : Stmt
  count_inbox create_inbox find_meta save_meta : Stmt
  delete_desired create_desired save_desired : Stmt
  read_staging save_staging delete_staging : Stmt
  create_fraud read_fraud delete_fraud read_receipts create_receipt : Stmt
  commit : Stmt

abbrev pub Faults : Type 0
Faults = Stmt → Bool

-- Base64 and the SHA-256 checksum of a kind and its payload, in hexadecimal digits.
pub record Codec : Type 0 where
  pub encode : List ℕ → String
  pub decode : String → Option (List ℕ)
  pub checksum : String → List ℕ → String

pub record Event : Type 0 where
  pub revision : ℤ
  pub kind : String
  pub payload : List ℕ
  pub checksum : String
