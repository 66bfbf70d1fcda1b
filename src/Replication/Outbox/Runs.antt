-- ===== src/Replication/Outbox/Runs.antt =====
-- The operations of the master on its journal, in any order and over any failures.
use xraytool_go.Prelude.{
  ℕ, true, ◌≡◌, refl, ap, Option, none, some, List, [], ◌∷◌, String, arith, exists, keep, subst,
  take, not, str_eq, if◌then◌else◌, Bool-cases, Option-cases, inl, inr, All-append,
  All-update_where, All-first, keep-keep,
}
use xraytool_go.Prelude.Int.{ℤ, pos, negsuc, ◌≤ℤ◌}
use xraytool_go.Result.{err, db_error}
use xraytool_go.Replication.Tables.{
  OutboxRow, ReplicaRow, Store, Faults, Codec, find_replica, read_events,
}
use xraytool_go.Replication.Outbox.{
  acknowledge_replica, append, is_acknowledged, is_after, is_node, least, mark_replica_connected,
  prune_acknowledged, prune_to, replica_of, save_row, create_row, higher, events_after, decoded,
  limit_or,
}
use xraytool_go.Replication.Outbox.Retention.{
  Retains, Retains-refl, Retains-trans, lacks, lacks_from,
}
use xraytool_go.Replication.Outbox.Steps.{
  IsCounted, AllCounted, append-Retains, connected-Retains, acknowledged-Retains, pruned-Retains,
  not_lacked,
}

module _ (faults : Faults) where
  create_row-AllCounted :
      (row : ReplicaRow) (a : Store)
      → IsCounted row
      → AllCounted a
      → AllCounted (create_row faults row a).1
  create_row-AllCounted row a c h = ground (arith, All-append IsCounted a.replicas row)

  save_row-AllCounted :
      (row : ReplicaRow) (a : Store)
      → IsCounted row
      → AllCounted a
      → AllCounted (save_row faults row a).1
  save_row-AllCounted row a c h =
      ground
        (arith, All-update_where IsCounted (is_node row.node_id) (λ _. row) (λ _ _ _. c) a.replicas)

  connected-AllCounted :
      (now : ℕ) (n : String) (a : Store)
      → AllCounted a
      → AllCounted (mark_replica_connected faults now n a).1
  unfolding mark_replica_connected
  connected-AllCounted now n a h = elim (Bool-cases (faults find_replica)) [
    | inl refused ↦ rw refused h
    | inr done ↦ rw done (elim (Option-cases (replica_of n a)) [
      | inl missing ↦ rw missing (create_row-AllCounted _ a (omega arith) h)
      | inr (x, f) ↦
          rw f (save_row-AllCounted _ a (All-first IsCounted (is_node n) a.replicas h f) h)
    ])
  ]

  higher-le : (r k : ℤ) → pos 0 ≤ℤ r → pos 0 ≤ℤ k → pos 0 ≤ℤ higher r k
  higher-le r k h i = ground arith

  acknowledged-AllCounted :
      (now : ℕ) (n : String) (revision : ℤ) (a : Store)
      → pos 0 ≤ℤ revision
      → AllCounted a
      → AllCounted (acknowledge_replica faults now n revision a).1
  unfolding acknowledge_replica
  acknowledged-AllCounted now n revision a p h = elim (Bool-cases (faults find_replica)) [
    | inl refused ↦ rw refused h
    | inr done ↦ rw done (elim (Option-cases (replica_of n a)) [
      | inl missing ↦ rw missing (create_row-AllCounted _ a p h)
      | inr (x, f) ↦ rw f (
          save_row-AllCounted _ a
            (higher-le revision x.acknowledged_revision p
              (All-first IsCounted (is_node n) a.replicas h f))
            h)
    ])
  ]

  append-AllCounted :
      (codec : Codec) (kind : String) (payload : List ℕ) (a : Store)
      → AllCounted a
      → AllCounted (append faults codec kind payload a).1
  unfolding append
  append-AllCounted codec kind payload a h = ground arith

  prune_to-AllCounted :
      (o : Option ℤ) (a : Store) → AllCounted a → AllCounted (prune_to faults o a).1
  prune_to-AllCounted none a h = h
  prune_to-AllCounted (some m) a h = ground arith

  prune-AllCounted :
      (nodes : List String) (a : Store)
      → AllCounted a
      → AllCounted (prune_acknowledged faults nodes a).1
  unfolding prune_acknowledged
  prune-AllCounted [] a h = h
  prune-AllCounted (n ∷ nodes) a h =
      ground (arith, prune_to-AllCounted (least (n ∷ nodes) (negsuc 0) a) a)

-- One operation of the master, whichever statements of it fail.
pub data Step (allowed : List String) : Store → Store → Type 0 where
  appends :
      (faults : Faults) (codec : Codec) (kind : String) (payload : List ℕ) (a : Store)
      → Step allowed a (append faults codec kind payload a).1
  connects :
      (faults : Faults) (now : ℕ) (node_id : String) (a : Store)
      → Step allowed a (mark_replica_connected faults now node_id a).1
  acknowledges :
      (faults : Faults) (now : ℕ) (node_id : String) (revision : ℤ) (a : Store)
      → pos 0 ≤ℤ revision
      → Step allowed a (acknowledge_replica faults now node_id revision a).1
  prunes : (faults : Faults) (a : Store) → Step allowed a (prune_acknowledged faults allowed a).1

pub data Reach (allowed : List String) (a : Store) : Store → Type 0 where
  here : Reach allowed a a
  next : {b c : Store} → Reach allowed a b → Step allowed b c → Reach allowed a c

Step-AllCounted :
    {allowed : List String} {a b : Store} → Step allowed a b → AllCounted a → AllCounted b
Step-AllCounted (appends f codec kind payload a) h = append-AllCounted f codec kind payload a h
Step-AllCounted (connects f now n a) h = connected-AllCounted f now n a h
Step-AllCounted (acknowledges f now n revision a p) h =
    acknowledged-AllCounted f now n revision a p h
Step-AllCounted {allowed} (prunes f a) h = prune-AllCounted f allowed a h

Reach-AllCounted :
    {allowed : List String} {a b : Store} → Reach allowed a b → AllCounted a → AllCounted b
Reach-AllCounted here h = h
Reach-AllCounted (next r s) h = Step-AllCounted s (Reach-AllCounted r h)

Step-Retains :
    {allowed : List String} {a b : Store} (node_id : String)
    → exists (str_eq node_id) allowed ≡ true
    → AllCounted a
    → Step allowed a b
    → Retains node_id a b
Step-Retains node_id i h (appends f codec kind payload a) =
    append-Retains f node_id codec kind payload a
Step-Retains node_id i h (connects f now n a) = connected-Retains f node_id now n a
Step-Retains node_id i h (acknowledges f now n revision a p) =
    acknowledged-Retains f node_id now n revision a
Step-Retains {allowed} node_id i h (prunes f a) = pruned-Retains f node_id allowed a h i

-- From a database whose acknowledged revisions are not negative, along any appends, connections,
-- acknowledgements of revisions that are not negative and prunings for the allowed nodes, whichever
-- of their statements fail, for every allowed node: an event that the node lacks at the end it
-- lacked at the start, if it was there, and the events that it lacks at the end are those events of
-- the start's journal that it still lacks, all of them and in their order, and then others.
pub Reach-Retains :
    (allowed : List String) (node_id : String) {a b : Store}
    → exists (str_eq node_id) allowed ≡ true
    → AllCounted a
    → Reach allowed a b
    → Retains node_id a b
Reach-Retains allowed node_id {a} i h here = Retains-refl node_id a
Reach-Retains allowed node_id {a} {b = c} i h (next {b} r s) =
    Retains-trans node_id a b c (Reach-Retains allowed node_id i h r)
      (Step-Retains node_id i (Reach-AllCounted r h) s)

module _ (node_id : String) where
  pruned_to_same :
      (faults : Faults) (o : Option ℤ) (a : Store)
      → ((m : ℤ) (r : OutboxRow)
          → o ≡ some m
          → lacks node_id a r ≡ true
          → not (is_acknowledged m r) ≡ true)
      → (keep (lacks node_id a) (prune_to faults o a).1.outbox ≡ keep (lacks node_id a) a.outbox)
        × ((prune_to faults o a).1.replicas ≡ a.replicas)
  pruned_to_same faults none a h = (refl, refl)
  pruned_to_same faults (some m) a h = ground (
    arith,
    keep-keep (lacks node_id a) (λ (r : OutboxRow). not (is_acknowledged m r))
        (λ (r : OutboxRow). h m r refl) a.outbox,
  )

  pruned_same :
      (faults : Faults) (nodes : List String) (a : Store)
      → AllCounted a
      → exists (str_eq node_id) nodes ≡ true
      → (keep (lacks node_id a) (prune_acknowledged faults nodes a).1.outbox
          ≡ keep (lacks node_id a) a.outbox)
        × ((prune_acknowledged faults nodes a).1.replicas ≡ a.replicas)
  unfolding prune_acknowledged
  pruned_same faults [] a h i = (refl, refl)
  pruned_same faults (n ∷ nodes) a h i = ground (
    arith,
    pruned_to_same faults (least (n ∷ nodes) (negsuc 0) a) a
        (λ (m : ℤ) (r : OutboxRow) (e : least (n ∷ nodes) (negsuc 0) a ≡ some m)
            (l : lacks node_id a r ≡ true).
          not_lacked a node_id (n ∷ nodes) m r h i e l),
  )

-- With acknowledged revisions that are not negative, pruning for the allowed nodes, whichever of its
-- statements fail, changes nothing for a node among them that has a row: the master reads the same
-- events after the revision that the node has acknowledged, or fails alike, under every limit and
-- over every failure of the reading.
pub events_after-prune_acknowledged :
    (faults reading : Faults) (codec : Codec) (nodes : List String) (node_id : String)
    (row : ReplicaRow) (limit : ℤ) (db : Store)
    → AllCounted db
    → exists (str_eq node_id) nodes ≡ true
    → replica_of node_id db ≡ some row
    → events_after reading codec row.acknowledged_revision limit
        (prune_acknowledged faults nodes db).1
      ≡ events_after reading codec row.acknowledged_revision limit db
unfolding events_after
events_after-prune_acknowledged faults reading codec nodes node_id row limit db h i f =
    let same : keep (is_after row.acknowledged_revision)
          (prune_acknowledged faults nodes db).1.outbox
        ≡ keep (is_after row.acknowledged_revision) db.outbox =
      subst
        (λ (o : Option ReplicaRow).
          keep (lacks_from o) (prune_acknowledged faults nodes db).1.outbox
          ≡ keep (lacks_from o) db.outbox)
        f (pruned_same node_id faults nodes db h i).0 in
    ap
      (λ (l : List OutboxRow).
        if reading read_events then err db_error else decoded codec (take (limit_or 500 limit) l))
      same
