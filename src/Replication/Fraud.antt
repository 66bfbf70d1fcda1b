-- ===== src/Replication/Fraud.antt =====
-- store.go: the anti-fraud observations that a slave queues and the receipts that its master keeps.
pub mod Receipts
pub mod Queue
use xraytool_go.Prelude.{
  ℕ, suc, ◌+◌, ◌*◌, ◌==◌, Bool, true, false, ◌&&◌, ◌||◌, not, List, [], ◌∷◌, ◌++◌, map, String,
  keep, exists, str_eq, if◌then◌else◌,
}
use xraytool_go.Prelude.{take, ltb}
use xraytool_go.Prelude.Int.{ℤ}
use xraytool_go.Prelude.Sort.{sort_by, str_ltb}
use xraytool_go.Replication.Outbox.{limit_or}
use xraytool_go.Result.{Result, ok, err, message, db_error}
use xraytool_go.Replication.Tables.{
  Store, FraudOutboxRow, FraudInboxRow, Faults, create_fraud, read_fraud, delete_fraud,
  read_receipts, create_receipt, commit, statement, transaction, ◌>>◌, pure, lift,
}

pub record FraudEvent : Type 0 where
  pub id : String
  pub email : String
  pub ip : String
  -- 0 is the zero time.
  pub occurred_at : ℕ
  pub hash_key_id : String

abbrev pub is_invalid : FraudEvent → Bool
is_invalid e = str_eq e.id "" || str_eq e.email "" || str_eq e.ip ""

abbrev pub ids_of : List FraudEvent → List String
ids_of = map (λ e. e.id)

-- Each text but the empty one, once, in the order of the first occurrences.
abbrev pub unseen : List String → List String → List String
unseen seen [] = []
unseen seen (v ∷ vs) =
    let rest = unseen (v ∷ seen) vs in
    let skipped = unseen seen vs in
    if str_eq v "" || exists (str_eq v) seen then skipped else v ∷ rest

unfoldable pub non_empty_strings : List String → List String
non_empty_strings values = unseen [] values

-- pluginapi.FraudEvent
pub record Observation : Type 0 where
  pub email : String
  pub ip : String
  pub occurred_at : ℕ
  pub hash_key_id : String

abbrev pub occurred : ℕ → ℕ → ℕ
occurred now at = if at == 0 then now else at

abbrev pub fraud_row : ℕ → ℕ → String → Observation → FraudOutboxRow
fraud_row now index id e = record {
  event_id = id;
  email = e.email;
  ip_hash = e.ip;
  hash_key_id = e.hash_key_id;
  occurred_at = occurred now e.occurred_at;
  created_at = now + index * 1000;
}

abbrev pub event_of_row : FraudOutboxRow → FraudEvent
event_of_row r = record {
  id = r.event_id;
  email = r.email;
  ip = r.ip_hash;
  occurred_at = r.occurred_at;
  hash_key_id = r.hash_key_id;
}

-- The key of the table: a row that repeats it is refused.
abbrev pub has_event_id : String → FraudOutboxRow → Bool
has_event_id id r = str_eq r.event_id id

abbrev pub create_fraud_row : Faults → FraudOutboxRow → Store → Result (Unit {0}) × Store
create_fraud_row faults row db =
    statement (faults create_fraud || exists (has_event_id row.event_id) db.fraud_outbox)
      (ok tt, record db { fraud_outbox = db.fraud_outbox ++ row ∷ [] }) db

abbrev collect : FraudEvent → Result (List FraudEvent) × Store → Result (List FraudEvent) × Store
collect e (ok es, db) = (ok (e ∷ es), db)
collect e (err x, db) = (err x, db)

abbrev queue_event :
    FraudOutboxRow
    → Result (Unit {0}) × Store
    → (Store → Result (List FraudEvent) × Store)
    → Result (List FraudEvent) × Store
queue_event row (ok _, db) k = collect (event_of_row row) (k db)
queue_event row (err x, db) k = (err x, db)

-- `uuids` are the values of `uuid.New` in the order of the calls.
abbrev pub queue_rows :
    Faults → ℕ → (ℕ → String) → ℕ → List Observation → Store → Result (List FraudEvent) × Store
queue_rows faults now uuids index [] db = (ok [], db)
queue_rows faults now uuids index (e ∷ es) db =
    let queued =
      queue_event (fraud_row now index (uuids index) e)
        (create_fraud_row faults (fraud_row now index (uuids index) e) db)
        (queue_rows faults now uuids (suc index) es) in
    if str_eq e.email "" || str_eq e.ip ""
    then (err (message "invalid anti-fraud event"), db)
    else queued

unfoldable pub enqueue_fraud_events :
    Faults → ℕ → (ℕ → String) → List Observation → Store → Result (List FraudEvent) × Store
enqueue_fraud_events faults now uuids [] db = (ok [], db)
enqueue_fraud_events faults now uuids (e ∷ es) db =
    transaction (faults commit) (queue_rows faults now uuids 0 (e ∷ es)) db

-- `ORDER BY created_at, event_id`
abbrev pub is_older : FraudOutboxRow → FraudOutboxRow → Bool
is_older a b =
    ltb a.created_at b.created_at || a.created_at == b.created_at && str_ltb a.event_id b.event_id

unfoldable pub pending_fraud_events : Faults → ℤ → Store → Result (List FraudEvent)
pending_fraud_events faults limit db =
    if faults read_fraud
    then err db_error
    else ok (map event_of_row (take (limit_or 100 limit) (sort_by is_older db.fraud_outbox)))

abbrev pub delete_ids : Faults → List String → Store → Result (Unit {0}) × Store
delete_ids faults [] db = (ok tt, db)
delete_ids faults (i ∷ ids) db =
    statement (faults delete_fraud)
      (
        ok tt,
        record db {
          fraud_outbox = keep (λ r. not (exists (str_eq r.event_id) (i ∷ ids))) db.fraud_outbox;
        },
      )
      db

unfoldable pub acknowledge_fraud_events : Faults → List String → Store → Result (Unit {0}) × Store
acknowledge_fraud_events faults event_ids = delete_ids faults (non_empty_strings event_ids)

abbrev pub receipts : String → List String → Store → List FraudInboxRow
receipts node_id ids db =
    keep (λ r. str_eq r.node_id node_id && exists (str_eq r.event_id) ids) db.fraud_inbox

abbrev pub is_received : List FraudInboxRow → FraudEvent → Bool
is_received rows e = exists (λ r. str_eq r.event_id e.id) rows

abbrev pub unreceived_of : Faults → String → List FraudEvent → Store → Result (List FraudEvent)
unreceived_of faults node_id [] db = ok []
unreceived_of faults node_id (e ∷ es) db =
    if faults read_receipts
    then err db_error
    else ok (keep (λ x. not (is_received (receipts node_id (ids_of (e ∷ es)) db) x)) (e ∷ es))

unfoldable pub unreceived_fraud_events :
    Faults → String → List FraudEvent → Store → Result (List FraudEvent)
unreceived_fraud_events faults node_id events db =
    if str_eq node_id ""
    then err (message "replication anti-fraud source node is required")
    else (if exists is_invalid events
        then err (message "invalid replicated anti-fraud event")
        else unreceived_of faults node_id events db)

abbrev pub is_receipt : String → String → FraudInboxRow → Bool
is_receipt node_id id r = str_eq r.node_id node_id && str_eq r.event_id id

abbrev pub receipt_row : ℕ → String → FraudEvent → FraudInboxRow
receipt_row now node_id e = record {
  node_id = node_id;
  event_id = e.id;
  email = e.email;
  ip_hash = e.ip;
  hash_key_id = e.hash_key_id;
  occurred_at = occurred now e.occurred_at;
  received_at = now;
}

-- `ON CONFLICT DO NOTHING`
abbrev pub add_receipt : ℕ → String → FraudEvent → Store → Store
add_receipt now node_id e db =
    if exists (is_receipt node_id e.id) db.fraud_inbox
    then db
    else record db { fraud_inbox = db.fraud_inbox ++ receipt_row now node_id e ∷ [] }

abbrev pub save_receipts : Faults → ℕ → String → List FraudEvent → Store → Result (Unit {0}) × Store
save_receipts faults now node_id [] db = (ok tt, db)
save_receipts faults now node_id (e ∷ es) db =
    let rest = save_receipts faults now node_id es (add_receipt now node_id e db) in
    if is_invalid e
    then (err (message "invalid replicated anti-fraud event"), db)
    else (if faults create_receipt then (err db_error, db) else rest)

unfoldable pub mark_fraud_received :
    Faults → ℕ → String → List FraudEvent → Store → Result (Unit {0}) × Store
mark_fraud_received faults now node_id events db =
    if str_eq node_id ""
    then (err (message "replication anti-fraud source node is required"), db)
    else transaction (faults commit) (save_receipts faults now node_id events) db
