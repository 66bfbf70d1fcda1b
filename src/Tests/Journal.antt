-- ===== src/Tests/Journal.antt =====
-- A journal of three events, with two slaves, and a slave's observations.
use xraytool_go.Prelude.{ℕ, ◌≡◌, refl, true, false, some, List, [], ◌∷◌, String, arith, All}
use xraytool_go.Prelude.Int.{pos}
use xraytool_go.Result.{ok}
use xraytool_go.Replication.Tables.{OutboxRow, ReplicaRow, Store, Faults, Codec, FraudOutboxRow}
use xraytool_go.Replication.Outbox.{events_after, prune_acknowledged, acknowledge_replica, append}
use xraytool_go.Replication.Outbox.Retention.{Retains}
use xraytool_go.Replication.Outbox.Runs.{
  here, next, appends, acknowledges, prunes, Reach-Retains, events_after-prune_acknowledged,
}
use xraytool_go.Replication.Fraud.{
  FraudEvent, Observation, ids_of, enqueue_fraud_events, acknowledge_fraud_events,
  unreceived_fraud_events, mark_fraud_received,
}
use xraytool_go.Replication.Fraud.Receipts.{HasReceipt}
use xraytool_go.Replication.Fraud.Queue.{acknowledge-enqueue_fraud_events}
use xraytool_go.Tests.Data.{go}
use xraytool_go.Prelude.{map, ◌⊎◌, none}
use xraytool_go.Result.{Error, err}
use xraytool_go.Replication.Tables.{StagingUserRow, Event}
use xraytool_go.Replication.Slave.{
  activate_snapshot, staged_of, already_applied, mark_applied, remove_desired_user, put_meta,
}
use xraytool_go.Replication.Slave.Snapshot.{with_snapshot, activate_snapshot-with_snapshot}
use xraytool_go.Replication.Apply.{Env, Node, apply_event}
use xraytool_go.Replication.Apply.Idempotent.{apply_event-again}
use xraytool_go.Replication.Ingest.{Master, Server, ingest_fraud_events}
use xraytool_go.Replication.Ingest.Replay.{ingest_fraud_events-again}

abbrev codec : Codec
codec = record { encode = λ b. "x"; decode = λ s. some (1 ∷ []); checksum = λ k b. "c" }

abbrev event : ℕ → OutboxRow
event n = record { revision = n; kind = "user"; payload = "x"; checksum = "c" }

abbrev replica : String → ℕ → ReplicaRow
replica id n = record {
  node_id = id;
  acknowledged_revision = pos n;
  connected_at = 1;
  last_seen_at = 1;
}

abbrev old_row : FraudOutboxRow
old_row = record {
  event_id = "old";
  email = "anna";
  ip_hash = "h";
  hash_key_id = "k";
  occurred_at = 1;
  created_at = 1;
}

abbrev journal : Store
journal = record {
  outbox = event 1 ∷ event 2 ∷ event 3 ∷ [];
  next_revision = 4;
  replicas = replica "east" 2 ∷ replica "west" 1 ∷ [];
  inbox = [];
  meta = [];
  desired = [];
  staging = [];
  fraud_outbox = old_row ∷ [];
  fraud_inbox = [];
}

abbrev none_fail : Faults
none_fail = λ s. false

abbrev both : List String
both = "east" ∷ "west" ∷ []

-- The first event goes, and no other.
prune_lem : (prune_acknowledged none_fail both journal).1.outbox ≡ event 2 ∷ event 3 ∷ []
unfolding prune_acknowledged
prune_lem = refl

events_after-prune_acknowledged_example :
    events_after none_fail codec (pos 2) (pos 10) (prune_acknowledged none_fail both journal).1
    ≡ events_after none_fail codec (pos 2) (pos 10) journal
events_after-prune_acknowledged_example =
    events_after-prune_acknowledged none_fail none_fail codec both "east" (replica "east" 2)
      (pos 10) journal (omega arith) refl refl

abbrev later : Store
later =
    (acknowledge_replica none_fail 5 "west" (pos 3)
      (append none_fail codec "user" (1 ∷ []) journal).1).1

Reach-Retains_example : Retains "east" journal (prune_acknowledged none_fail both later).1
Reach-Retains_example = Reach-Retains both "east" refl (omega arith) (
    next
      (next (next here (appends none_fail codec "user" (1 ∷ []) journal)) (
        acknowledges none_fail 5 "west" (pos 3) (append none_fail codec "user" (1 ∷ []) journal).1
          (omega arith)))
      (prunes none_fail later))

abbrev seen_at : String → Observation
seen_at ip = record { email = "anna"; ip = ip; occurred_at = 3; hash_key_id = "k" }

abbrev sent : String → String → FraudEvent
sent id ip = record { id = id; email = "anna"; ip = ip; occurred_at = 3; hash_key_id = "k" }

abbrev uuid : ℕ → String
uuid n = "id"

queue_lem :
    (enqueue_fraud_events none_fail 7 uuid (seen_at "h1" ∷ []) journal).0 ≡ ok (sent "id" "h1" ∷ [])
unfolding enqueue_fraud_events
queue_lem = refl

acknowledge-enqueue_fraud_events_example :
    acknowledge_fraud_events none_fail
      (ids_of (sent "id" "h1" ∷ []))
      (enqueue_fraud_events none_fail 7 uuid (seen_at "h1" ∷ []) journal).1
    ≡ (ok tt, journal)
acknowledge-enqueue_fraud_events_example =
    acknowledge-enqueue_fraud_events none_fail none_fail 7 uuid (seen_at "h1" ∷ []) journal
      (sent "id" "h1" ∷ []) (λ i. refl) queue_lem refl

abbrev batch : List FraudEvent
batch = sent "id1" "h1" ∷ sent "id2" "h2" ∷ []

abbrev server : Server
server = record { decode_json = λ b. some batch; fraud_sink = some (λ s b. true); has_store = true }

abbrev master : Master
master = record { store = journal; handed = [] }

ingest_lem :
    (ingest_fraud_events none_fail 7 server "east" (1 ∷ []) master).0 ≡ ok ("id1" ∷ "id2" ∷ [])
unfolding ingest_fraud_events unreceived_fraud_events mark_fraud_received
ingest_lem = refl

ingest_fraud_events-again_example :
    (All
      (HasReceipt "east" (ingest_fraud_events none_fail 7 server "east" (1 ∷ []) master).1.store)
      batch)
    × (ids_of batch ≡ "id1" ∷ "id2" ∷ [])
    × (ingest_fraud_events none_fail 9 server "east"
          (1 ∷ [])
          (ingest_fraud_events none_fail 7 server "east" (1 ∷ []) master).1
        ≡ (
          ok ("id1" ∷ "id2" ∷ []),
          (ingest_fraud_events none_fail 7 server "east" (1 ∷ []) master).1,
        ))
ingest_fraud_events-again_example =
    ingest_fraud_events-again none_fail none_fail 7 9 server "east" (1 ∷ []) (sent "id1" "h1")
      (sent "id2" "h2" ∷ []) ("id1" ∷ "id2" ∷ []) master refl refl refl ingest_lem

abbrev staged : String → StagingUserRow
staged email = record { snapshot_id = "s"; email = email; payload = "x" }

abbrev staging_store : Store
staging_store = record journal {
  staging = staged "b" ∷ staged "a" ∷ record (staged "a") { snapshot_id = "t" } ∷ [];
}

activate_snapshot-with_snapshot_example :
    ((payloads : List (List ℕ)) × (activate_snapshot go none_fail codec "s" (pos 9) staging_store
        ≡ (ok payloads, with_snapshot go "s" (pos 9) staging_store))
      × (map (λ r. codec.decode r.payload) (staged_of "s" staging_store) ≡ map some payloads))
    ⊎ ((e : Error) × (activate_snapshot go none_fail codec "s" (pos 9) staging_store
          ≡ (err e, staging_store)))
activate_snapshot-with_snapshot_example =
    activate_snapshot-with_snapshot go none_fail codec "s" (pos 9) staging_store

abbrev remove_anna : Event
remove_anna = record { revision = pos 4; kind = "user.remove"; payload = 1 ∷ []; checksum = "c" }

abbrev env : Env
env = record {
  decode_user = λ b. none;
  decode_remove = λ b. some "anna";
  engine_fails = λ c. false;
  apply_artifact = λ e n. (ok tt, n);
}

abbrev slave : Node
slave = record { store = journal; calls = [] }

apply_lem : (apply_event go env none_fail codec "m" remove_anna slave).0 ≡ ok tt
unfolding apply_event already_applied mark_applied remove_desired_user put_meta
apply_lem = refl

apply_event-again_example :
    apply_event go env none_fail codec "m" remove_anna
      (apply_event go env none_fail codec "m" remove_anna slave).1
    ≡ (ok tt, (apply_event go env none_fail codec "m" remove_anna slave).1)
apply_event-again_example =
    apply_event-again go env env none_fail none_fail codec "m" remove_anna slave refl apply_lem
