-- ===== src/Replication/Outbox/Retention.antt =====
-- The journal under pruning: the events that a node has not acknowledged.
use xraytool_go.Prelude.{
  Bool, true, false, ◌≡◌, refl, sym, ap, ◌∙◌, Option, none, some, List, [], ◌∷◌, ◌++◌, String,
  arith, ◌⊎◌, first, keep, update_where, str_eq, eq_iff, Bool-cases, inl, inr, keep-append,
  append_nil, append_assoc, keep-keep,
}
use xraytool_go.Prelude.Int.{◌≤ℤ◌}
use xraytool_go.Replication.Tables.{OutboxRow, ReplicaRow, Store, Faults}
use xraytool_go.Replication.Outbox.{is_after, is_node, replica_of, save_row, create_row}

-- An event that the node has not acknowledged.
abbrev pub lacks_from : Option ReplicaRow → OutboxRow → Bool
lacks_from none r = true
lacks_from (some row) r = is_after row.acknowledged_revision r

abbrev pub lacks : String → Store → OutboxRow → Bool
lacks node_id db = lacks_from (replica_of node_id db)

-- From one state of the database to a later one the node's acknowledged revision does not fall, and
-- the events that it lacks are those that it still lacks of before, and new ones.
pub record Retains (node_id : String) (a b : Store) : Type 0 where
  pub fewer : (r : OutboxRow) → lacks node_id b r ≡ true → lacks node_id a r ≡ true
  pub kept :
      (extra : List OutboxRow) × (keep (lacks node_id b) b.outbox
        ≡ keep (lacks node_id b) a.outbox ++ extra)

pub Retains-refl : (node_id : String) (a : Store) → Retains node_id a a
Retains-refl node_id a = record { fewer = λ r h. h; kept = ([], append_nil _) }

pub Retains-trans :
    (node_id : String) (a b c : Store)
    → Retains node_id a b
    → Retains node_id b c
    → Retains node_id a c
Retains-trans node_id a b c h k = record {
  fewer = λ r l. h.fewer r (k.fewer r l);
  kept = (
    keep (lacks node_id c) h.kept.0 ++ k.kept.0,
    k.kept.1
        ∙ ap (λ l. l ++ k.kept.0)
            (sym (keep-keep (lacks node_id c) (lacks node_id b) k.fewer b.outbox)
              ∙ ap (keep (lacks node_id c)) h.kept.1
              ∙ keep-append (lacks node_id c) (keep (lacks node_id b) a.outbox) h.kept.0
              ∙ ap (λ l. l ++ keep (lacks node_id c) h.kept.0)
                  (keep-keep (lacks node_id c) (lacks node_id b) k.fewer a.outbox))
        ∙ append_assoc (keep (lacks node_id c) a.outbox) (keep (lacks node_id c) h.kept.0) k.kept.0,
  );
}

first-other :
    (n : String) (row : ReplicaRow) (rs : List ReplicaRow)
    → str_eq row.node_id n ≡ false
    → first (is_node n) (update_where (is_node row.node_id) (λ _. row) rs) ≡ first (is_node n) rs
first-other n row [] h = refl
first-other n row (r ∷ rs) h = ground (
  arith,
  first-other n row rs,
  eq_iff r.node_id row.node_id,
  eq_iff r.node_id n,
  eq_iff row.node_id n,
)

first-saved :
    (row x : ReplicaRow) (rs : List ReplicaRow)
    → first (is_node row.node_id) rs ≡ some x
    → first (is_node row.node_id) (update_where (is_node row.node_id) (λ _. row) rs) ≡ some row
first-saved row x [] h = cc
first-saved row x (r ∷ rs) h = ground (arith, first-saved row x rs, eq_iff row.node_id row.node_id)

first-created :
    (n : String) (row : ReplicaRow) (rs : List ReplicaRow)
    → (first (is_node n) (rs ++ row ∷ []) ≡ first (is_node n) rs) ⊎ (first (is_node n) rs ≡ none)
first-created n row [] = inr refl
first-created n row (r ∷ rs) = ground (arith, first-created n row rs)

-- The journal is the same, and no node lacks more.
pub same_outbox :
    (node_id : String) (a b : Store)
    → b.outbox ≡ a.outbox
    → ((r : OutboxRow) → lacks node_id b r ≡ true → lacks node_id a r ≡ true)
    → Retains node_id a b
same_outbox node_id a b e h = record {
  fewer = h;
  kept = ([], ap (keep (lacks node_id b)) e ∙ append_nil _);
}

module _ (faults : Faults) (node_id : String) where
  pub create_row-Retains :
      (row : ReplicaRow) (a : Store) → Retains node_id a (create_row faults row a).1
  create_row-Retains row a =
      same_outbox node_id a (create_row faults row a).1 (ground arith)
        (λ r h. ground (arith, first-created node_id row a.replicas))

  pub save_row-Retains :
      (row x : ReplicaRow) (a : Store)
      → replica_of row.node_id a ≡ some x
      → x.acknowledged_revision ≤ℤ row.acknowledged_revision
      → Retains node_id a (save_row faults row a).1
  save_row-Retains row x a f le =
      same_outbox node_id a (save_row faults row a).1 (ground arith) (λ r h.
        elim (Bool-cases (str_eq row.node_id node_id)) [
          | inl same ↦ ground (arith, first-saved row x a.replicas, eq_iff row.node_id node_id)
          | inr other ↦ ground (arith, first-other node_id row a.replicas)
        ])
