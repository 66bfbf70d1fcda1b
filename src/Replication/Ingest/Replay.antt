-- ===== src/Replication/Ingest/Replay.antt =====
-- transport.go: a batch that a slave sends again.
use xraytool_go.Prelude.{
  ℕ, Bool, true, false, ◌≡◌, refl, sym, ap, subst, ◌∙◌, Option, none, some, List, [], ◌∷◌, map,
  String, arith, exists, str_eq, Bool-cases, inl, inr, All,
}
use xraytool_go.Result.{Result, ok, err}
use xraytool_go.Replication.Tables.{Store, Faults, read_receipts}
use xraytool_go.Replication.Fraud.{
  FraudEvent, Observation, is_invalid, ids_of, unreceived_fraud_events, mark_fraud_received,
}
use xraytool_go.Replication.Fraud.Receipts.{
  HasReceipt, unreceived-Filtered, unreceived-none, mark_fraud_received_lem, received_or_kept,
  listed,
}
use xraytool_go.Replication.Ingest.{
  Master, Server, observation, hand, is_misformed, receipted, deliver, ingest_identified,
  ingest_fraud_events,
}

-- What an acknowledged batch leaves at the master.
pub record Taken (source_id : String) (events : List FraudEvent) (ids : List String) (m : Master)
    : Type 0 where
  pub named : str_eq source_id "" ≡ false
  pub valid : exists is_invalid events ≡ false
  pub acknowledged : ids_of events ≡ ids
  pub durable : All (HasReceipt source_id m.store) events

module _ (faults : Faults) (now : ℕ) (accepts : String → List Observation → Bool)
    (source_id : String) where
  receipted_lem :
      (events : List FraudEvent) (ids : List String) (m : Master) (r : Result (Unit {0}) × Store)
      → (receipted events m r).0 ≡ ok ids
      → (r.0 ≡ ok tt) × (ids_of events ≡ ids) × ((receipted events m r).1.store ≡ r.1)
  receipted_lem events ids m (ok u, db) h = ground arith
  receipted_lem events ids m (err x, db) h = cc

  deliver-Taken :
      (e : FraudEvent) (es : List FraudEvent) (ids : List String) (m : Master)
      (left : Result (List FraudEvent))
      → unreceived_fraud_events faults source_id (e ∷ es) m.store ≡ left
      → (deliver faults now accepts source_id (e ∷ es) left m).0 ≡ ok ids
      → Taken source_id (e ∷ es) ids (deliver faults now accepts source_id (e ∷ es) left m).1
  deliver-Taken e es ids m (err x) q h = cc
  deliver-Taken e es ids m (ok []) q h =
      let f = unreceived-Filtered faults source_id e es m.store [] q in
      record {
        named = f.named;
        valid = f.valid;
        acknowledged = cc;
        durable =
            received_or_kept (HasReceipt source_id m.store) source_id m.store (ids_of (e ∷ es))
              (e ∷ es) (listed (e ∷ es)) (λ x k. k)
              (subst (All (HasReceipt source_id m.store)) (sym f.filter) tt);
      }
  deliver-Taken e es ids m (ok (p ∷ ps)) q h =
      elim (Bool-cases (accepts source_id (map observation (p ∷ ps)))) [
        | inl accepted ↦
            let f = unreceived-Filtered faults source_id e es m.store (p ∷ ps) q in
            let handed = hand source_id (map observation (p ∷ ps)) m in
            let marked = mark_fraud_received faults now source_id (p ∷ ps) m.store in
            let r = receipted_lem (e ∷ es) ids handed marked (rw accepted at h) in
            let kept = mark_fraud_received_lem faults now source_id (p ∷ ps) m.store r.0 in
            rw accepted (record {
              named = f.named;
              valid = f.valid;
              acknowledged = r.1;
              durable =
                  subst (λ (db : Store). All (HasReceipt source_id db) (e ∷ es)) (sym r.2)
                    (received_or_kept (HasReceipt source_id marked.1) source_id m.store
                      (ids_of (e ∷ es)) (e ∷ es) (listed (e ∷ es)) kept.1
                      (subst (All (HasReceipt source_id marked.1)) (sym f.filter) kept.0));
            })
        | inr refused ↦ ground arith
      ]

-- A batch that has been taken is acknowledged again, and nothing else is done.
again-Taken :
    (again : Faults) (later : ℕ) (accepts : String → List Observation → Bool) (source_id : String)
    (e : FraudEvent) (es : List FraudEvent) (ids : List String) (m : Master)
    → again read_receipts ≡ false
    → Taken source_id (e ∷ es) ids m
    → deliver again later accepts source_id
        (e ∷ es)
        (unreceived_fraud_events again source_id (e ∷ es) m.store)
        m
      ≡ (ok ids, m)
again-Taken again later accepts source_id e es ids m r t =
    rw (unreceived-none again source_id (e ∷ es) m.store t.named t.valid r t.durable)
      (ap (λ (l : List String). (ok l, m)) t.acknowledged)

module _ (faults again : Faults) (now later : ℕ) (source_id : String) (e : FraudEvent)
    (es : List FraudEvent) (ids : List String) where
  identified-Taken :
      (sink : Option (String → List Observation → Bool)) (has_store : Bool) (m : Master)
      → again read_receipts ≡ false
      → (ingest_identified faults now sink has_store source_id (e ∷ es) m).0 ≡ ok ids
      → Taken source_id
          (e ∷ es)
          ids
          (ingest_identified faults now sink has_store source_id (e ∷ es) m).1
        × (ingest_identified again later sink has_store source_id
              (e ∷ es)
              (ingest_identified faults now sink has_store source_id (e ∷ es) m).1
            ≡ (ok ids, (ingest_identified faults now sink has_store source_id (e ∷ es) m).1))
  identified-Taken none has_store m r h = cc
  identified-Taken (some accepts) false m r h = cc
  identified-Taken (some accepts) true m r h =
      let left = unreceived_fraud_events faults source_id (e ∷ es) m.store in
      let taken = deliver-Taken faults now accepts source_id e es ids m left refl h in
      (
        taken,
        again-Taken again later accepts source_id e es ids
            (deliver faults now accepts source_id (e ∷ es) left m).1 r taken,
      )

  run-identified :
      (f : Faults) (t : ℕ) (server : Server) (payload : List ℕ) (m : Master)
      → server.decode_json payload ≡ some (e ∷ es)
      → str_eq e.id "" ≡ false
      → exists (is_misformed (str_eq e.id "")) (e ∷ es) ≡ false
      → ingest_fraud_events f t server source_id payload m
        ≡ ingest_identified f t server.fraud_sink server.has_store source_id (e ∷ es) m
  unfolding ingest_fraud_events
  run-identified f t server payload m d i g = rw (d, g, i)

-- If a master acknowledges an identified batch (the first event has an identifier), every event of it
-- has its receipt in the master's database, and the identifiers are those of the batch. The same
-- payload from the same slave, sent again at any later time, is then acknowledged with the same
-- identifiers, hands nothing more to the anti-fraud provider and changes nothing, if the receipts can
-- be read.
pub ingest_fraud_events-again :
    (faults again : Faults) (now later : ℕ) (server : Server) (source_id : String)
    (payload : List ℕ) (e : FraudEvent) (es : List FraudEvent) (ids : List String) (m : Master)
    → server.decode_json payload ≡ some (e ∷ es)
    → str_eq e.id "" ≡ false
    → again read_receipts ≡ false
    → (ingest_fraud_events faults now server source_id payload m).0 ≡ ok ids
    → (All
        (HasReceipt source_id (ingest_fraud_events faults now server source_id payload m).1.store)
        (e ∷ es))
      × (ids_of (e ∷ es) ≡ ids)
      × (ingest_fraud_events again later server source_id payload
            (ingest_fraud_events faults now server source_id payload m).1
          ≡ (ok ids, (ingest_fraud_events faults now server source_id payload m).1))
unfolding ingest_fraud_events
ingest_fraud_events-again faults again now later server source_id payload e es ids m d i r h =
    elim (Bool-cases (exists (is_misformed (str_eq e.id "")) (e ∷ es))) [
      | inl bad ↦ (let refused = rw (d, bad) at h in cc)
      | inr good ↦
          let run = λ (f : Faults) (t : ℕ) (k : Master).
            run-identified faults again now later source_id e es ids f t server payload k d i
              good in
          let both =
            identified-Taken faults again now later source_id e es ids server.fraud_sink
              server.has_store m r
              (ap (λ (o : Result (List String) × Master). o.0) (sym (run faults now m)) ∙ h) in
          subst
            (λ (o : Result (List String) × Master).
              (All (HasReceipt source_id o.1.store) (e ∷ es))
              × (ids_of (e ∷ es) ≡ ids)
              × (ingest_fraud_events again later server source_id payload o.1 ≡ (ok ids, o.1)))
            (sym (run faults now m))
            (both.0.durable, both.0.acknowledged, run again later _ ∙ both.1)
    ]
