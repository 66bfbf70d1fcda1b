-- ===== src/Replication/Outbox/Steps.antt =====
-- The operations of the master on its journal, in any order, and what they leave to be sent.
use xraytool_go.Prelude.{
  ℕ, true, not, ◌≡◌, refl, sym, ◌∙◌, Option, none, some, List, [], ◌∷◌, String, arith, first, keep,
  exists, str_eq, eq_iff, Bool-cases, Option-cases, inl, inr, All, All-first, str_eq_sound,
  first_sound, subst, append_nil, keep-append, keep-keep,
}
use xraytool_go.Prelude.Int.{ℤ, pos, negsuc, leb_ℤ, ◌≤ℤ◌}
use xraytool_go.Replication.Tables.{
  OutboxRow, ReplicaRow, Store, Faults, Codec, create_event, find_replica, delete_events,
}
use xraytool_go.Replication.Outbox.{
  acknowledge_replica, append, is_acknowledged, is_node, least, lower, mark_replica_connected,
  new_row, prune_acknowledged, prune_to, replica_of, higher,
}
use xraytool_go.Replication.Outbox.Retention.{
  Retains, Retains-refl, create_row-Retains, save_row-Retains, lacks,
}

-- A node's acknowledged revision is not below zero.
abbrev pub IsCounted : ReplicaRow → Type 0
IsCounted row = pos 0 ≤ℤ row.acknowledged_revision

abbrev pub AllCounted : Store → Type 0
AllCounted db = All IsCounted db.replicas

least-le_minimum :
    (db : Store) (nodes : List String) (m k : ℤ)
    → AllCounted db
    → pos 0 ≤ℤ m
    → least nodes m db ≡ some k
    → k ≤ℤ m
least-le_minimum db [] m k h p e = ground arith
least-le_minimum db (n ∷ nodes) m k h p e = elim (Option-cases (replica_of n db)) [
  | inl missing ↦ ground arith
  | inr (row, f) ↦
      let counted : IsCounted row = All-first IsCounted (is_node n) db.replicas h f in
      ground (arith, least-le_minimum db nodes (lower m row.acknowledged_revision) k)
]

least-le :
    (db : Store) (node_id : String) (row : ReplicaRow) (nodes : List String) (m k : ℤ)
    → AllCounted db
    → replica_of node_id db ≡ some row
    → exists (str_eq node_id) nodes ≡ true
    → least nodes m db ≡ some k
    → k ≤ℤ row.acknowledged_revision
least-le db node_id row [] m k h r i e = cc
least-le db node_id row (n ∷ nodes) m k h r i e = elim (Option-cases (replica_of n db)) [
  | inl missing ↦ ground arith
  | inr (x, f) ↦
      let counted : IsCounted x = All-first IsCounted (is_node n) db.replicas h f in
      elim (Bool-cases (str_eq node_id n)) [
        | inl same ↦
            ground (
              arith,
              eq_iff node_id n,
              least-le_minimum db nodes (lower m x.acknowledged_revision) k,
            )
        | inr other ↦
            ground (arith, least-le db node_id row nodes (lower m x.acknowledged_revision) k)
      ]
]

found_again :
    (n : String) (x : ReplicaRow) (a : Store)
    → replica_of n a ≡ some x
    → replica_of x.node_id a ≡ some x
found_again n x a f =
    let same : x.node_id ≡ n = str_eq_sound x.node_id n (first_sound (is_node n) a.replicas f) in
    subst (λ (k : String). first (is_node k) a.replicas ≡ some x) (sym same) f

-- A node with no row stops the pruning.
least-unknown :
    (db : Store) (node_id : String) (nodes : List String) (m : ℤ)
    → replica_of node_id db ≡ none
    → exists (str_eq node_id) nodes ≡ true
    → least nodes m db ≡ none
least-unknown db node_id [] m r i = cc
least-unknown db node_id (n ∷ nodes) m r i = elim (Option-cases (replica_of n db)) [
  | inl missing ↦ ground arith
  | inr (x, f) ↦
      ground
        (arith, eq_iff node_id n, least-unknown db node_id nodes (lower m x.acknowledged_revision))
]

-- An event up to the least revision, the node does not lack.
pub not_lacked :
    (db : Store) (node_id : String) (nodes : List String) (m : ℤ) (r : OutboxRow)
    → AllCounted db
    → exists (str_eq node_id) nodes ≡ true
    → least nodes (negsuc 0) db ≡ some m
    → lacks node_id db r ≡ true
    → not (is_acknowledged m r) ≡ true
not_lacked db node_id nodes m r h i e l = elim (Option-cases (replica_of node_id db)) [
  | inl missing ↦ ground (arith, least-unknown db node_id nodes (negsuc 0))
  | inr (row, f) ↦ ground (arith, least-le db node_id row nodes (negsuc 0) m)
]

module _ (faults : Faults) (node_id : String) where
  pub append-Retains :
      (codec : Codec) (kind : String) (payload : List ℕ) (a : Store)
      → Retains node_id a (append faults codec kind payload a).1
  unfolding append
  append-Retains codec kind payload a = elim (Bool-cases (faults create_event)) [
    | inl refused ↦ rw refused (Retains-refl node_id a)
    | inr done ↦ rw done (record {
      fewer = λ r h. h;
      kept = (
        keep (lacks node_id a) (new_row codec kind payload a.next_revision ∷ []),
        keep-append (lacks node_id a) a.outbox (new_row codec kind payload a.next_revision ∷ []),
      );
    })
  ]

  pub connected-Retains :
      (now : ℕ) (n : String) (a : Store)
      → Retains node_id a (mark_replica_connected faults now n a).1
  unfolding mark_replica_connected
  connected-Retains now n a = elim (Bool-cases (faults find_replica)) [
    | inl refused ↦ rw refused (Retains-refl node_id a)
    | inr done ↦ rw done (elim (Option-cases (replica_of n a)) [
      | inl missing ↦ rw missing (create_row-Retains faults node_id _ a)
      | inr (x, f) ↦ rw f (
          save_row-Retains faults node_id (record x { last_seen_at = now }) x a
            (found_again n x a f) (omega arith))
    ])
  ]

  pub acknowledged-Retains :
      (now : ℕ) (n : String) (revision : ℤ) (a : Store)
      → Retains node_id a (acknowledge_replica faults now n revision a).1
  unfolding acknowledge_replica
  acknowledged-Retains now n revision a = elim (Bool-cases (faults find_replica)) [
    | inl refused ↦ rw refused (Retains-refl node_id a)
    | inr done ↦ rw done (elim (Option-cases (replica_of n a)) [
      | inl missing ↦ rw missing (create_row-Retains faults node_id _ a)
      | inr (x, f) ↦ rw f (
          save_row-Retains faults node_id
            (record x {
              acknowledged_revision = higher revision x.acknowledged_revision;
              last_seen_at = now;
            })
            x a (found_again n x a f) (ground arith))
    ])
  ]

  pruned_to-Retains :
      (o : Option ℤ) (a : Store)
      → ((m : ℤ) (r : OutboxRow)
          → o ≡ some m
          → lacks node_id a r ≡ true
          → not (is_acknowledged m r) ≡ true)
      → Retains node_id a (prune_to faults o a).1
  pruned_to-Retains none a h = Retains-refl node_id a
  pruned_to-Retains (some m) a h = elim (Bool-cases (leb_ℤ m (pos 0))) [
    | inl low ↦ rw low (Retains-refl node_id a)
    | inr high ↦ rw high (elim (Bool-cases (faults delete_events)) [
      | inl refused ↦ rw refused (Retains-refl node_id a)
      | inr done ↦ rw done (record {
        fewer = λ r l. l;
        kept = (
          [],
          keep-keep (lacks node_id a) (λ r. not (is_acknowledged m r)) (λ r. h m r refl) a.outbox
              ∙ append_nil _,
        );
      })
    ])
  ]

  -- What is deleted, the node has acknowledged.
  pub pruned-Retains :
      (nodes : List String) (a : Store)
      → AllCounted a
      → exists (str_eq node_id) nodes ≡ true
      → Retains node_id a (prune_acknowledged faults nodes a).1
  unfolding prune_acknowledged
  pruned-Retains [] a h i = cc
  pruned-Retains (n ∷ nodes) a h i = elim (Bool-cases (faults find_replica)) [
    | inl refused ↦ rw refused (Retains-refl node_id a)
    | inr done ↦ rw done (
        pruned_to-Retains (least (n ∷ nodes) (negsuc 0) a) a
          (λ m r e l. not_lacked a node_id (n ∷ nodes) m r h i e l))
  ]
