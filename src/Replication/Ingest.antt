-- ===== src/Replication/Ingest.antt =====
-- transport.go: what a master does with a slave's batch of anti-fraud observations.
pub mod Replay
use xraytool_go.Prelude.{
  ℕ, Bool, true, false, ◌&&◌, ◌||◌, not, Option, none, some, List, [], ◌∷◌, ◌++◌, map, String,
  exists, str_eq, if◌then◌else◌,
}
use xraytool_go.Result.{Result, ok, err, message}
use xraytool_go.Replication.Tables.{Store, Faults}
use xraytool_go.Replication.Fraud.{
  FraudEvent, Observation, ids_of, unreceived_fraud_events, mark_fraud_received,
}

-- The master, with the batches that its anti-fraud provider has accepted, the latest last.
pub record Master : Type 0 where
  pub store : Store
  pub handed : List (String × List Observation)

-- What the server is built with: the decoder of JSON, the provider's answer to a batch if there is a
-- provider, and whether the service has a store.
pub record Server : Type 0 where
  pub decode_json : List ℕ → Option (List FraudEvent)
  pub fraud_sink : Option (String → List Observation → Bool)
  pub has_store : Bool

abbrev pub observation : FraudEvent → Observation
observation e = record {
  email = e.email;
  ip = e.ip;
  occurred_at = e.occurred_at;
  hash_key_id = e.hash_key_id;
}

abbrev pub hand : String → List Observation → Master → Master
hand source_id batch m = record m { handed = m.handed ++ (source_id, batch) ∷ [] }

-- An observation of the wrong format for the batch.
abbrev pub is_misformed : Bool → FraudEvent → Bool
is_misformed legacy e =
    str_eq e.email ""
    || str_eq e.ip ""
    || (legacy && not (str_eq e.id ""))
    || (not legacy && str_eq e.id "")

abbrev pub ingest_legacy :
    Option (String → List Observation → Bool)
    → String
    → List FraudEvent
    → Master
    → Result (List String) × Master
ingest_legacy none source_id events m = (ok [], m)
ingest_legacy (some accepts) source_id events m =
    if accepts source_id (map observation events)
    then (ok [], hand source_id (map observation events) m)
    else (ok [], m)

abbrev pub receipted :
    List FraudEvent → Master → Result (Unit {0}) × Store → Result (List String) × Master
receipted events m (ok _, db) = (ok (ids_of events), record m { store = db })
receipted events m (err e, db) = (err e, record m { store = db })

abbrev pub deliver :
    Faults
    → ℕ
    → (String → List Observation → Bool)
    → String
    → List FraudEvent
    → Result (List FraudEvent)
    → Master
    → Result (List String) × Master
deliver faults now accepts source_id events (err e) m = (err e, m)
deliver faults now accepts source_id events (ok []) m = (ok (ids_of events), m)
deliver faults now accepts source_id events (ok (p ∷ pending)) m =
    if accepts source_id (map observation (p ∷ pending))
    then receipted events (hand source_id (map observation (p ∷ pending)) m)
        (mark_fraud_received faults now source_id (p ∷ pending) m.store)
    else (err (message "deliver replication anti-fraud events"), m)

abbrev pub ingest_identified :
    Faults
    → ℕ
    → Option (String → List Observation → Bool)
    → Bool
    → String
    → List FraudEvent
    → Master
    → Result (List String) × Master
ingest_identified faults now none has_store source_id events m =
    (err (message "anti-fraud sink is unavailable"), m)
ingest_identified faults now (some accepts) has_store source_id events m =
    if has_store
    then deliver faults now accepts source_id events
        (unreceived_fraud_events faults source_id events m.store) m
    else (err (message "replication anti-fraud store is unavailable"), m)

abbrev pub ingest_events :
    Faults → ℕ → Server → String → List FraudEvent → Master → Result (List String) × Master
ingest_events faults now server source_id [] m =
    (err (message "replication anti-fraud events are empty"), m)
ingest_events faults now server source_id (e ∷ es) m =
    if exists (is_misformed (str_eq e.id "")) (e ∷ es)
    then (err (message "invalid replication anti-fraud event"), m)
    else (if str_eq e.id ""
        then ingest_legacy server.fraud_sink source_id (e ∷ es) m
        else ingest_identified faults now server.fraud_sink server.has_store source_id (e ∷ es) m)

abbrev pub ingest_decoded :
    Faults → ℕ → Server → String → Option (List FraudEvent) → Master → Result (List String) × Master
ingest_decoded faults now server source_id none m =
    (err (message "decode replication anti-fraud events"), m)
ingest_decoded faults now server source_id (some events) m =
    ingest_events faults now server source_id events m

-- The identifiers that the answer acknowledges.
unfoldable pub ingest_fraud_events :
    Faults → ℕ → Server → String → List ℕ → Master → Result (List String) × Master
ingest_fraud_events faults now server source_id payload m =
    ingest_decoded faults now server source_id (server.decode_json payload) m
