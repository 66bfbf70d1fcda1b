-- ===== src/Replication/Fraud/Queue.antt =====
-- store.go: a slave's queue from a batch's arrival to its acknowledgement.
use xraytool_go.Prelude.{
  ℕ, suc, Bool, true, false, ◌&&◌, ◌||◌, not, ◌≡◌, refl, sym, subst, ap, ◌∙◌, List, [], ◌∷◌, ◌++◌,
  map, String, arith, keep, exists, str_eq, eq_iff, Bool-cases, inl, inr, All, str_eq_refl,
  append_nil, append_assoc, keep-append, All-drop_last,
}
use xraytool_go.Result.{Result, ok, err}
use xraytool_go.Replication.Tables.{Store, FraudOutboxRow, Faults, delete_fraud}
use xraytool_go.Replication.Fraud.{
  FraudEvent, Observation, ids_of, unseen, non_empty_strings, fraud_row, event_of_row, has_event_id,
  create_fraud_row, queue_rows, collect, queue_event, enqueue_fraud_events, delete_ids,
  acknowledge_fraud_events,
}

-- A text is left when it is in the list, is not empty and has not been seen.
exists-unseen :
    (x : String) (seen vs : List String)
    → exists (str_eq x) (unseen seen vs)
      ≡ (exists (str_eq x) vs && not (str_eq x "") && not (exists (str_eq x) seen))
exists-unseen x seen [] = refl
exists-unseen x seen (v ∷ vs) = elim (Bool-cases (str_eq x v)) [
  | inl e ↦
      let same : v ≡ x = sym ((eq_iff x v).0 e) in
      let at_x : exists (str_eq x) (unseen seen (x ∷ vs))
          ≡ (exists (str_eq x) (x ∷ vs) && not (str_eq x "") && not (exists (str_eq x) seen)) =
        ground (arith, str_eq_refl x, exists-unseen x (x ∷ seen) vs, exists-unseen x seen vs) in
      subst
        (λ (k : String).
          exists (str_eq x) (unseen seen (k ∷ vs))
          ≡ (exists (str_eq x) (k ∷ vs) && not (str_eq x "") && not (exists (str_eq x) seen)))
        (sym same) at_x
  | inr e ↦ ground (arith, exists-unseen x (v ∷ seen) vs, exists-unseen x seen vs)
]

abbrev IsOutside : List String → FraudOutboxRow → Type 0
IsOutside ids r = exists (str_eq r.event_id) ids ≡ false

-- Rows that have neither the new identifier nor one of the others.
IsOutside-more :
    (i : String) (ids : List String) (rows : List FraudOutboxRow)
    → exists (has_event_id i) rows ≡ false
    → All (IsOutside ids) rows
    → All (IsOutside (i ∷ ids)) rows
IsOutside-more i ids [] h a = tt
IsOutside-more i ids (r ∷ rows) h a = (ground arith, IsOutside-more i ids rows (ground arith) a.1)

-- What a success of the batch from one call of `uuid.New` on leaves.
record Queued (db : Store) (queued : List FraudEvent) (after : Store) : Type 0 where
  rows : List FraudOutboxRow
  extended : after ≡ record db { fraud_outbox = db.fraud_outbox ++ rows }
  described : map event_of_row rows ≡ queued
  fresh : All (IsOutside (ids_of queued)) db.fraud_outbox
  named : All (λ (q : FraudEvent). str_eq q.id "" ≡ false) queued

IsOutside-none : (rows : List FraudOutboxRow) → All (IsOutside []) rows
IsOutside-none [] = tt
IsOutside-none (r ∷ rows) = (refl, IsOutside-none rows)

created :
    (faults : Faults) (row : FraudOutboxRow) (db : Store)
    (k : Store → Result (List FraudEvent) × Store) (queued : List FraudEvent)
    → (queue_event row (create_fraud_row faults row db) k).0 ≡ ok queued
    → (exists (has_event_id row.event_id) db.fraud_outbox ≡ false)
      × (queue_event row (create_fraud_row faults row db) k
          ≡ collect
              (event_of_row row)
              (k (record db { fraud_outbox = db.fraud_outbox ++ row ∷ [] })))
created faults row db k queued h = ground arith

collected :
    (e : FraudEvent) (r : Result (List FraudEvent) × Store) (queued : List FraudEvent)
    → (collect e r).0 ≡ ok queued
    → (rest : List FraudEvent) × (r.0 ≡ ok rest) × (queued ≡ e ∷ rest) × ((collect e r).1 ≡ r.1)
collected e (ok rest, db) queued h = (rest, refl, cc, refl)
collected e (err x, db) queued h = cc

module _ (faults : Faults) (now : ℕ) (uuids : ℕ → String)
    (given : (i : ℕ) → str_eq (uuids i) "" ≡ false) where
  queue_rows-Queued :
      (index : ℕ) (es : List Observation) (db : Store) (queued : List FraudEvent)
      → (queue_rows faults now uuids index es db).0 ≡ ok queued
      → Queued db queued (queue_rows faults now uuids index es db).1
  queue_rows-Queued index [] db queued h =
      let none_left : [] ≡ queued = cc in
      subst (λ (q : List FraudEvent). Queued db q db) none_left
        (record {
          rows = [];
          extended =
              ap (λ (l : List FraudOutboxRow). record db { fraud_outbox = l }) (append_nil _);
          described = refl;
          fresh = IsOutside-none _;
          named = tt;
        })
  queue_rows-Queued index (e ∷ es) db queued h =
      elim (Bool-cases (str_eq e.email "" || str_eq e.ip "")) [
        | inl bad ↦ (let refused = rw bad at h in cc)
        | inr good ↦ rw good (
            let row = fraud_row now index (uuids index) e in
            let k = queue_rows faults now uuids (suc index) es in
            let made = created faults row db k queued (rw good at h) in
            let next = record db { fraud_outbox = db.fraud_outbox ++ row ∷ [] } in
            let c =
              collected (event_of_row row) (k next) queued (
                ap (λ (r : Result (List FraudEvent) × Store). r.0) (sym made.1) ∙ (rw good at h)) in
            let rest = queue_rows-Queued (suc index) es next c.0 c.1 in
            subst (λ (s : Store). Queued db queued s)
              (sym (ap (λ (r : Result (List FraudEvent) × Store). r.1) made.1 ∙ c.3))
              (subst (λ (q : List FraudEvent). Queued db q (k next).1) (sym c.2)
                (record {
                  rows = row ∷ rest.rows;
                  extended =
                      rest.extended
                      ∙ ap (λ (l : List FraudOutboxRow). record db { fraud_outbox = l })
                          (append_assoc db.fraud_outbox (row ∷ []) rest.rows);
                  described = ap (λ l. event_of_row row ∷ l) rest.described;
                  fresh =
                      IsOutside-more (uuids index) (ids_of c.0) db.fraud_outbox made.0
                        (All-drop_last (IsOutside (ids_of c.0)) db.fraud_outbox row rest.fresh);
                  named = (given index, rest.named);
                })))
      ]

abbrev is_left : List String → FraudOutboxRow → Bool
is_left ids r = not (exists (str_eq r.event_id) (unseen [] ids))

keep-outside :
    (ids : List String) (rows : List FraudOutboxRow)
    → All (IsOutside ids) rows
    → keep (is_left ids) rows ≡ rows
keep-outside ids [] h = refl
keep-outside ids (r ∷ rows) h =
    ground (arith, exists-unseen r.event_id [] ids, keep-outside ids rows)

keep-queued :
    (ids : List String) (rows : List FraudOutboxRow)
    → All
        (λ (q : FraudEvent). (str_eq q.id "" ≡ false) × (exists (str_eq q.id) ids ≡ true))
        (map event_of_row rows)
    → keep (is_left ids) rows ≡ []
keep-queued ids [] h = refl
keep-queued ids (r ∷ rows) h = ground (arith, exists-unseen r.event_id [] ids, keep-queued ids rows)

inside-more :
    (i : String) (ids : List String) (qs : List FraudEvent)
    → All (λ (q : FraudEvent). (str_eq q.id "" ≡ false) × (exists (str_eq q.id) ids ≡ true)) qs
    → All
        (λ (q : FraudEvent). (str_eq q.id "" ≡ false) × (exists (str_eq q.id) (i ∷ ids) ≡ true))
        qs
inside-more i ids [] h = tt
inside-more i ids (q ∷ qs) h = ((h.0.0, ground arith), inside-more i ids qs h.1)

inside :
    (qs : List FraudEvent)
    → All (λ (q : FraudEvent). str_eq q.id "" ≡ false) qs
    → All
        (λ (q : FraudEvent). (str_eq q.id "" ≡ false) × (exists (str_eq q.id) (ids_of qs) ≡ true))
        qs
inside [] h = tt
inside (q ∷ qs) h =
    ((h.0, ground (arith, str_eq_refl q.id)), inside-more q.id (ids_of qs) qs (inside qs h.1))

keep-all : (rows : List FraudOutboxRow) → rows ≡ keep (λ (r : FraudOutboxRow). true) rows
keep-all [] = refl
keep-all (r ∷ rows) = ap (λ l. r ∷ l) (keep-all rows)

delete_ids_lem :
    (faults : Faults) (ids : List String) (db : Store)
    → faults delete_fraud ≡ false
    → delete_ids faults ids db ≡ (
      ok tt,
      record db { fraud_outbox = keep (λ r. not (exists (str_eq r.event_id) ids)) db.fraud_outbox },
    )
delete_ids_lem faults [] db h =
    ap (λ (l : List FraudOutboxRow). (ok tt, record db { fraud_outbox = l })) (keep-all _)
delete_ids_lem faults (i ∷ ids) db h = rw h

module _ (faults : Faults) (now : ℕ) (uuids : ℕ → String)
    (given : (i : ℕ) → str_eq (uuids i) "" ≡ false) where
  enqueue-Queued :
      (es : List Observation) (db : Store) (queued : List FraudEvent)
      → (enqueue_fraud_events faults now uuids es db).0 ≡ ok queued
      → Queued db queued (enqueue_fraud_events faults now uuids es db).1
  unfolding enqueue_fraud_events
  enqueue-Queued [] db queued h = queue_rows-Queued faults now uuids given 0 [] db queued h
  enqueue-Queued (e ∷ es) db queued h =
      let body = queue_rows faults now uuids 0 (e ∷ es) db in
      let done : (body.0 ≡ ok queued) × (enqueue_fraud_events faults now uuids (e ∷ es) db ≡ body) =
        ground arith in
      subst (λ (r : Result (List FraudEvent) × Store). Queued db queued r.1) (sym done.1)
        (queue_rows-Queued faults now uuids given 0 (e ∷ es) db queued done.0)

-- If the identifiers that `uuid.New` gives are not empty, a batch that is queued with success and
-- acknowledged by all the identifiers that the queueing returned leaves the slave's database exactly
-- as before, unless the deletion is refused: the rows of the batch are removed, and no other.
pub acknowledge-enqueue_fraud_events :
    (faults acking : Faults) (now : ℕ) (uuids : ℕ → String) (es : List Observation) (db : Store)
    (queued : List FraudEvent)
    → ((i : ℕ) → str_eq (uuids i) "" ≡ false)
    → (enqueue_fraud_events faults now uuids es db).0 ≡ ok queued
    → acking delete_fraud ≡ false
    → acknowledge_fraud_events acking
        (ids_of queued)
        (enqueue_fraud_events faults now uuids es db).1
      ≡ (ok tt, db)
unfolding acknowledge_fraud_events non_empty_strings
acknowledge-enqueue_fraud_events faults acking now uuids es db queued given h d =
    let q = enqueue-Queued faults now uuids given es db queued h in
    let ids = ids_of queued in
    let inner =
      subst (All (λ (x : FraudEvent). (str_eq x.id "" ≡ false) × (exists (str_eq x.id) ids ≡ true)))
        (sym q.described) (inside queued q.named) in
    ap (delete_ids acking (unseen [] ids)) q.extended
    ∙ delete_ids_lem acking (unseen [] ids) (record db { fraud_outbox = db.fraud_outbox ++ q.rows })
        d
    ∙ ap (λ (l : List FraudOutboxRow). (ok tt, record db { fraud_outbox = l }))
        (keep-append (is_left ids) db.fraud_outbox q.rows
          ∙ ap (λ (l : List FraudOutboxRow). l ++ keep (is_left ids) q.rows)
              (keep-outside ids db.fraud_outbox q.fresh)
          ∙ ap (λ (l : List FraudOutboxRow). db.fraud_outbox ++ l) (keep-queued ids q.rows inner)
          ∙ sym (append_nil db.fraud_outbox))
