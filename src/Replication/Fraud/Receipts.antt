-- ===== src/Replication/Fraud/Receipts.antt =====
-- store.go: what the master's receipts leave of a batch.
use xraytool_go.Prelude.{
  ℕ, Bool, true, false, ◌&&◌, not, ◌≡◌, refl, sym, subst, ap, ◌∙◌, List, [], ◌∷◌, ◌++◌, String,
  arith, keep, exists, str_eq, eq_iff, if◌then◌else◌, Bool-cases, inl, inr, All, str_eq_refl,
}
use xraytool_go.Result.{Result, ok}
use xraytool_go.Replication.Tables.{Store, FraudInboxRow, Faults, read_receipts}
use xraytool_go.Replication.Fraud.{
  FraudEvent, is_invalid, ids_of, receipts, is_received, unreceived_fraud_events, is_receipt,
  receipt_row, add_receipt, save_receipts, mark_fraud_received,
}

-- The master has a receipt of the event.
abbrev pub HasReceipt : String → Store → FraudEvent → Type 0
HasReceipt node_id db e = exists (is_receipt node_id e.id) db.fraud_inbox ≡ true

exists-append {ℓ} :
    {A : Type ℓ} (p : A → Bool) (xs : List A) (y : A)
    → exists p xs ≡ true
    → exists p (xs ++ y ∷ []) ≡ true
exists-append p [] y h = cc
exists-append p (x ∷ xs) y h = ground (arith, exists-append p xs y)

exists-last {ℓ} :
    {A : Type ℓ} (p : A → Bool) (xs : List A) (y : A) → p y ≡ true → exists p (xs ++ y ∷ []) ≡ true
exists-last p [] y h = ground arith
exists-last p (x ∷ xs) y h = ground (arith, exists-last p xs y)

-- The rows that the query reads hold a receipt of an identifier of the batch, if there is one.
found_receipt :
    (node_id id : String) (ids : List String) (rows : List FraudInboxRow)
    → exists (str_eq id) ids ≡ true
    → exists
        (λ r. str_eq r.event_id id)
        (keep (λ r. str_eq r.node_id node_id && exists (str_eq r.event_id) ids) rows)
      ≡ exists (is_receipt node_id id) rows
found_receipt node_id id ids [] h = refl
found_receipt node_id id ids (r ∷ rows) h = elim (Bool-cases (str_eq r.event_id id)) [
  | inl e ↦
      let same : r.event_id ≡ id = (eq_iff r.event_id id).0 e in
      let listed : exists (str_eq r.event_id) ids ≡ true =
        subst (λ (k : String). exists (str_eq k) ids ≡ true) (sym same) h in
      ground (arith, found_receipt node_id id ids rows)
  | inr e ↦ ground (arith, found_receipt node_id id ids rows)
]

pub add_receipt-keeps :
    (now : ℕ) (node_id : String) (x e : FraudEvent) (db : Store)
    → HasReceipt node_id db e
    → HasReceipt node_id (add_receipt now node_id x db) e
add_receipt-keeps now node_id x e db h =
    ground
      (arith, exists-append (is_receipt node_id e.id) db.fraud_inbox (receipt_row now node_id x))

add_receipt_lem :
    (now : ℕ) (node_id : String) (e : FraudEvent) (db : Store)
    → HasReceipt node_id (add_receipt now node_id e db) e
add_receipt_lem now node_id e db = ground (
  arith,
  str_eq_refl node_id,
  str_eq_refl e.id,
  exists-last (is_receipt node_id e.id) db.fraud_inbox (receipt_row now node_id e),
)

save_receipts-keeps :
    (faults : Faults) (now : ℕ) (node_id : String) (es : List FraudEvent) (e : FraudEvent)
    (db : Store)
    → HasReceipt node_id db e
    → HasReceipt node_id (save_receipts faults now node_id es db).1 e
save_receipts-keeps faults now node_id [] e db h = h
save_receipts-keeps faults now node_id (x ∷ es) e db h = ground (
  arith,
  add_receipt-keeps now node_id x e db,
  save_receipts-keeps faults now node_id es e (add_receipt now node_id x db),
)

save_receipts-step :
    (faults : Faults) (now : ℕ) (node_id : String) (e : FraudEvent) (es : List FraudEvent)
    (db : Store)
    → (save_receipts faults now node_id (e ∷ es) db).0 ≡ ok tt
    → save_receipts faults now node_id (e ∷ es) db
      ≡ save_receipts faults now node_id es (add_receipt now node_id e db)
save_receipts-step faults now node_id e es db h = ground arith

-- After a success every event of the batch has its receipt.
save_receipts_lem :
    (faults : Faults) (now : ℕ) (node_id : String) (es : List FraudEvent) (db : Store)
    → (save_receipts faults now node_id es db).0 ≡ ok tt
    → All (HasReceipt node_id (save_receipts faults now node_id es db).1) es
save_receipts_lem faults now node_id [] db h = tt
save_receipts_lem faults now node_id (e ∷ es) db h =
    let after = add_receipt now node_id e db in
    let step = save_receipts-step faults now node_id e es db h in
    let done : (save_receipts faults now node_id es after).0 ≡ ok tt = cc in
    subst (λ (r : Result (Unit {0}) × Store). All (HasReceipt node_id r.1) (e ∷ es)) (sym step)
      (
        save_receipts-keeps faults now node_id es e after (add_receipt_lem now node_id e db),
        save_receipts_lem faults now node_id es after done,
      )

-- A batch that has been marked has its receipts, and those of before are there still.
pub mark_fraud_received_lem :
    (faults : Faults) (now : ℕ) (node_id : String) (es : List FraudEvent) (db : Store)
    → (mark_fraud_received faults now node_id es db).0 ≡ ok tt
    → (All (HasReceipt node_id (mark_fraud_received faults now node_id es db).1) es)
      × ((e : FraudEvent)
          → HasReceipt node_id db e
          → HasReceipt node_id (mark_fraud_received faults now node_id es db).1 e)
unfolding mark_fraud_received
mark_fraud_received_lem faults now node_id es db h =
    let result = save_receipts faults now node_id es db in
    let marked : (mark_fraud_received faults now node_id es db ≡ result) × (result.0 ≡ ok tt) =
      ground arith in
    subst
      (λ (r : Result (Unit {0}) × Store).
        (All (HasReceipt node_id r.1) es)
        × ((e : FraudEvent) → HasReceipt node_id db e → HasReceipt node_id r.1 e))
      (sym marked.0)
      (
        save_receipts_lem faults now node_id es db marked.1,
        λ e k. save_receipts-keeps faults now node_id es e db k,
      )

-- Where every event of a part of the batch has its receipt, the filter leaves none of the part.
keep-none :
    (node_id : String) (db : Store) (ids : List String) (es : List FraudEvent)
    → All (HasReceipt node_id db) es
    → All (λ e. exists (str_eq e.id) ids ≡ true) es
    → keep (λ x. not (is_received (receipts node_id ids db) x)) es ≡ []
keep-none node_id db ids [] h i = refl
keep-none node_id db ids (e ∷ es) h i =
    ground (arith, found_receipt node_id e.id ids db.fraud_inbox, keep-none node_id db ids es)

listed-more :
    (i : String) (ids : List String) (es : List FraudEvent)
    → All (λ e. exists (str_eq e.id) ids ≡ true) es
    → All (λ e. exists (str_eq e.id) (i ∷ ids) ≡ true) es
listed-more i ids [] h = tt
listed-more i ids (e ∷ es) h = (ground arith, listed-more i ids es h.1)

pub listed : (es : List FraudEvent) → All (λ e. exists (str_eq e.id) (ids_of es) ≡ true) es
listed [] = tt
listed (e ∷ es) = (ground (arith, str_eq_refl e.id), listed-more e.id (ids_of es) es (listed es))

-- An event that the filter leaves out has its receipt.
pub received_or_kept :
    (P : FraudEvent → Type 0) (node_id : String) (db : Store) (ids : List String)
    (es : List FraudEvent)
    → All (λ e. exists (str_eq e.id) ids ≡ true) es
    → ((e : FraudEvent) → HasReceipt node_id db e → P e)
    → All P (keep (λ x. not (is_received (receipts node_id ids db) x)) es)
    → All P es
received_or_kept P node_id db ids [] i h k = tt
received_or_kept P node_id db ids (e ∷ es) i h k =
    elim (Bool-cases (is_received (receipts node_id ids db) e)) [
      | inl old ↦ (
        h e (sym (found_receipt node_id e.id ids db.fraud_inbox i.0) ∙ old),
        received_or_kept P node_id db ids es i.1 h (
            subst
              (λ (b : Bool). All P (
                if not b
                then e ∷ keep (λ x. not (is_received (receipts node_id ids db) x)) es
                else keep (λ x. not (is_received (receipts node_id ids db) x)) es))
              old k),
      )
      | inr new ↦
          let both =
            subst
              (λ (b : Bool). All P (
                if not b
                then e ∷ keep (λ x. not (is_received (receipts node_id ids db) x)) es
                else keep (λ x. not (is_received (receipts node_id ids db) x)) es))
              new k in
          (both.0, received_or_kept P node_id db ids es i.1 h both.1)
    ]

-- A batch with all its receipts has nothing more to hand over.
pub unreceived-none :
    (faults : Faults) (node_id : String) (es : List FraudEvent) (db : Store)
    → str_eq node_id "" ≡ false
    → exists is_invalid es ≡ false
    → faults read_receipts ≡ false
    → All (HasReceipt node_id db) es
    → unreceived_fraud_events faults node_id es db ≡ ok []
unfolding unreceived_fraud_events
unreceived-none faults node_id [] db n v r h = ground arith
unreceived-none faults node_id (e ∷ es) db n v r h =
    rw (n, v, r) (ap ok (keep-none node_id db (ids_of (e ∷ es)) (e ∷ es) h (listed (e ∷ es))))

-- What a successful filter says of its batch.
pub record Filtered (node_id : String) (es : List FraudEvent) (db : Store) (left : List FraudEvent)
    : Type 0 where
  pub named : str_eq node_id "" ≡ false
  pub valid : exists is_invalid es ≡ false
  pub filter : keep (λ x. not (is_received (receipts node_id (ids_of es) db) x)) es ≡ left

pub unreceived-Filtered :
    (faults : Faults) (node_id : String) (e : FraudEvent) (es : List FraudEvent) (db : Store)
    (left : List FraudEvent)
    → unreceived_fraud_events faults node_id (e ∷ es) db ≡ ok left
    → Filtered node_id (e ∷ es) db left
unfolding unreceived_fraud_events
unreceived-Filtered faults node_id e es db left h = elim (Bool-cases (str_eq node_id "")) [
  | inl empty ↦ ground arith
  | inr named ↦ elim (Bool-cases (exists is_invalid (e ∷ es))) [
    | inl bad ↦ ground arith
    | inr good ↦ elim (Bool-cases (faults read_receipts)) [
      | inl refused ↦ ground arith
      | inr done ↦
          let read = rw (named, good, done) at h in
          record { named = named; valid = good; filter = cc }
    ]
  ]
]
