-- ===== src/Replication/Outbox.antt =====
-- store.go: the journal of a master, and what its slaves have acknowledged.
pub mod Retention
pub mod Steps
pub mod Runs
use xraytool_go.Prelude.{
  ℕ, zero, suc, Bool, true, false, ◌||◌, not, Option, none, some, List, [], ◌∷◌, ◌++◌, String,
  first, keep, length, take, update_where, str_eq, if◌then◌else◌,
}
use xraytool_go.Prelude.Int.{ℤ, pos, negsuc, ltb_ℤ, leb_ℤ}
use xraytool_go.Result.{Result, ok, err, message, db_error}
use xraytool_go.Replication.Tables.{
  OutboxRow, ReplicaRow, Store, Stmt, Faults, Codec, Event, create_event, read_events,
  delete_events, find_replica, create_replica, save_replica, statement,
}

abbrev pub new_row : Codec → String → List ℕ → ℕ → OutboxRow
new_row codec kind payload revision = record {
  revision = revision;
  kind = kind;
  payload = codec.encode payload;
  checksum = codec.checksum kind payload;
}

abbrev appended : Codec → String → List ℕ → Store → Store
appended codec kind payload db = record db {
  outbox = db.outbox ++ new_row codec kind payload db.next_revision ∷ [];
  next_revision = suc db.next_revision;
}

unfoldable pub append : Faults → Codec → String → List ℕ → Store → Result Event × Store
append faults codec kind payload db =
    statement (faults create_event)
      (
        ok (record {
          revision = pos db.next_revision;
          kind = kind;
          payload = payload;
          checksum = codec.checksum kind payload;
        }),
        appended codec kind payload db,
      )
      db

abbrev pub is_after : ℤ → OutboxRow → Bool
is_after revision r = ltb_ℤ revision (pos r.revision)

abbrev pub limit_or : ℕ → ℤ → ℕ
limit_or n (pos zero) = n
limit_or n (pos (suc m)) = suc m
limit_or n (negsuc _) = n

abbrev decoded_row : OutboxRow → Option (List ℕ) → Result (List Event) → Result (List Event)
decoded_row r none _ = err (message "decode replication event")
decoded_row r (some payload) (err e) = err e
decoded_row r (some payload) (ok events) = ok (
    record { revision = pos r.revision; kind = r.kind; payload = payload; checksum = r.checksum }
    ∷ events)

abbrev pub decoded : Codec → List OutboxRow → Result (List Event)
decoded codec [] = ok []
decoded codec (r ∷ rs) = decoded_row r (codec.decode r.payload) (decoded codec rs)

-- The oldest events after a revision, in the order of their revisions.
unfoldable pub events_after : Faults → Codec → ℤ → ℤ → Store → Result (List Event)
events_after faults codec revision limit db =
    if faults read_events
    then err db_error
    else decoded codec (take (limit_or 500 limit) (keep (is_after revision) db.outbox))

abbrev last_revision : ℕ → List OutboxRow → ℕ
last_revision n [] = n
last_revision n (r ∷ rs) = last_revision r.revision rs

abbrev first_revision : List OutboxRow → ℕ
first_revision [] = 0
first_revision (r ∷ _) = r.revision

unfoldable pub latest_revision : Faults → Store → Result ℕ
latest_revision faults db =
    if faults read_events then err db_error else ok (last_revision 0 db.outbox)

unfoldable pub oldest_revision : Faults → Store → Result ℕ
oldest_revision faults db =
    if faults read_events then err db_error else ok (first_revision db.outbox)

abbrev pub is_node : String → ReplicaRow → Bool
is_node node_id r = str_eq r.node_id node_id

abbrev pub replica_of : String → Store → Option ReplicaRow
replica_of node_id db = first (is_node node_id) db.replicas

abbrev pub save_row : Faults → ReplicaRow → Store → Result (Unit {0}) × Store
save_row faults row db =
    statement (faults save_replica)
      (ok tt, record db { replicas = update_where (is_node row.node_id) (λ _. row) db.replicas }) db

abbrev pub create_row : Faults → ReplicaRow → Store → Result (Unit {0}) × Store
create_row faults row db =
    statement (faults create_replica) (ok tt, record db { replicas = db.replicas ++ row ∷ [] }) db

abbrev pub connected : Faults → ℕ → String → Option ReplicaRow → Store → Result (Unit {0}) × Store
connected faults now node_id none = create_row faults (record {
  node_id = node_id;
  acknowledged_revision = pos 0;
  connected_at = now;
  last_seen_at = now;
})
connected faults now node_id (some row) = save_row faults (record row { last_seen_at = now })

unfoldable pub mark_replica_connected : Faults → ℕ → String → Store → Result (Unit {0}) × Store
mark_replica_connected faults now node_id db =
    if faults find_replica
    then (err db_error, db)
    else connected faults now node_id (replica_of node_id db) db

abbrev pub higher : ℤ → ℤ → ℤ
higher revision known = if ltb_ℤ known revision then revision else known

abbrev pub acknowledged :
    Faults → ℕ → String → ℤ → Option ReplicaRow → Store → Result (Unit {0}) × Store
acknowledged faults now node_id revision none = create_row faults (record {
  node_id = node_id;
  acknowledged_revision = revision;
  connected_at = now;
  last_seen_at = now;
})
acknowledged faults now node_id revision (some row) = save_row faults (record row {
  acknowledged_revision = higher revision row.acknowledged_revision;
  last_seen_at = now;
})

unfoldable pub acknowledge_replica : Faults → ℕ → String → ℤ → Store → Result (Unit {0}) × Store
acknowledge_replica faults now node_id revision db =
    if faults find_replica
    then (err db_error, db)
    else acknowledged faults now node_id revision (replica_of node_id db) db

-- The least revision that the nodes have acknowledged, from -1 on; none if a node is unknown.
abbrev pub lower : ℤ → ℤ → ℤ
lower minimum n = if ltb_ℤ minimum (pos 0) || ltb_ℤ n minimum then n else minimum

abbrev pub least : List String → ℤ → Store → Option ℤ
least [] minimum db = some minimum
least (node_id ∷ nodes) minimum db = elim (replica_of node_id db) [
  | none ↦ none
  | some row ↦ least nodes (lower minimum row.acknowledged_revision) db
]

abbrev pub is_acknowledged : ℤ → OutboxRow → Bool
is_acknowledged minimum r = leb_ℤ (pos r.revision) minimum

abbrev pub prune_to : Faults → Option ℤ → Store → Result ℕ × Store
prune_to faults none db = (ok 0, db)
prune_to faults (some minimum) db =
    if leb_ℤ minimum (pos 0)
    then (ok 0, db)
    else statement (faults delete_events)
        (
          ok (length (keep (is_acknowledged minimum) db.outbox)),
          record db { outbox = keep (λ r. not (is_acknowledged minimum r)) db.outbox },
        )
        db

abbrev pub prune_for : Faults → List String → Store → Result ℕ × Store
prune_for faults [] db = (ok 0, db)
prune_for faults (node_id ∷ nodes) db =
    if faults find_replica
    then (err db_error, db)
    else prune_to faults (least (node_id ∷ nodes) (negsuc 0) db) db

unfoldable pub prune_acknowledged : Faults → List String → Store → Result ℕ × Store
prune_acknowledged faults allowed_nodes db = prune_for faults allowed_nodes db
