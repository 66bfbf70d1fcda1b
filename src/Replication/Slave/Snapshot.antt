-- ===== src/Replication/Slave/Snapshot.antt =====
-- store.go: a snapshot that is activated.
use xraytool_go.Prelude.{
  ℕ, ◌||◌, not, ◌≡◌, refl, sym, subst, ap, ◌∙◌, ◌⊎◌, inl, inr, Option, none, some, List, [], ◌∷◌,
  ◌++◌, map, String, keep, exists, Bool-cases, append_nil, append_assoc,
}
use xraytool_go.Prelude.Int.{ℤ}
use xraytool_go.GoLib.{GoLib}
use xraytool_go.Result.{Result, Error, ok, err, message, db_error}
use xraytool_go.Transaction.{continue, end_transaction}
use xraytool_go.Replication.Tables.{
  Store, Faults, Codec, DesiredUserRow, StagingUserRow, commit, create_desired, read_staging,
  delete_desired, delete_staging, save_meta,
}
use xraytool_go.Replication.Slave.{
  with_meta, is_user, in_snapshot, staged_of, desired_row, create_desired_row, with_payload,
  activate_row, activate_rows, finish, activate_snapshot,
}

-- The database after an activation.
abbrev pub with_snapshot : GoLib → String → ℤ → Store → Store
with_snapshot lib snapshot_id revision db = with_meta "snapshot_initialized" "true" (
    with_meta "applied_revision" (lib.format_int revision) (record db {
      desired = map (desired_row revision) (staged_of snapshot_id db);
      staging = keep (λ r. not (in_snapshot snapshot_id r)) db.staging;
    }))

-- Rows that were taken: the desired users that they became, and their payloads.
record Taken (codec : Codec) (revision : ℤ) (rs : List StagingUserRow) (db : Store)
    (out : Result (List (List ℕ)) × Store) : Type 0 where
  payloads : List (List ℕ)
  result : out ≡ (ok payloads, record db { desired = db.desired ++ map (desired_row revision) rs })
  decoded : map (λ r. codec.decode r.payload) rs ≡ map some payloads

data Activation (codec : Codec) (revision : ℤ) (rs : List StagingUserRow) (db : Store)
    (out : Result (List (List ℕ)) × Store) : Type 0 where
  taken : Taken codec revision rs db out → Activation codec revision rs db out
  failed : (e : Error) (s : Store) → out ≡ (err e, s) → Activation codec revision rs db out

created :
    (faults : Faults) (row : DesiredUserRow) (db : Store)
    → (create_desired_row faults row db ≡ (ok tt, record db { desired = db.desired ++ row ∷ [] }))
      ⊎ ((e : Error) × (create_desired_row faults row db ≡ (err e, db)))
created faults row db =
    elim (Bool-cases (faults create_desired || exists (is_user row.email) db.desired)) [
      | inl refused ↦ inr (db_error, rw refused)
      | inr done ↦ inl (rw done)
    ]

module _ (faults : Faults) (codec : Codec) (revision : ℤ) where
  Activation-cons :
      (r : StagingUserRow) (rs : List StagingUserRow) (payload : List ℕ) (db : Store)
      (rest : Store → Result (List (List ℕ)) × Store)
      → codec.decode r.payload ≡ some payload
      → ((s : Store) → Activation codec revision rs s (rest s))
      → Activation codec revision
          (r ∷ rs)
          db
          (activate_row faults revision r (some payload) rest db)
  Activation-cons r rs payload db rest d ih = by_row (created faults (desired_row revision r) db)
    where
      next : Store
      next = record db { desired = db.desired ++ desired_row revision r ∷ [] }

      by_rest :
          (out : Result (List (List ℕ)) × Store)
          → Activation codec revision rs next out
          → Activation codec revision (r ∷ rs) db (with_payload payload out)
      by_rest out (taken t) = taken (record {
        payloads = payload ∷ t.payloads;
        result =
            ap (with_payload payload) t.result
            ∙ ap
                (λ (l : List DesiredUserRow).
                  (ok (payload ∷ t.payloads), record db { desired = l }))
                (append_assoc db.desired (desired_row revision r ∷ [])
                  (map (desired_row revision) rs));
        decoded =
            ap (λ l. codec.decode r.payload ∷ l) t.decoded ∙ ap (λ o. o ∷ map some t.payloads) d;
      })
      by_rest out (failed e s q) = failed e s (ap (with_payload payload) q)

      by_row :
          (create_desired_row faults (desired_row revision r) db ≡ (ok tt, next))
            ⊎ ((e : Error) × (create_desired_row faults (desired_row revision r) db ≡ (err e, db)))
          → Activation codec revision
              (r ∷ rs)
              db
              (activate_row faults revision r (some payload) rest db)
      by_row (inl q) =
          subst
            (λ (x : Result (Unit {0}) × Store).
              Activation codec revision (r ∷ rs) db
                (continue x (λ _ s. with_payload payload (rest s))))
            (sym q) (by_rest (rest next) (ih next))
      by_row (inr q) = failed q.0 db (
          ap (λ (x : Result (Unit {0}) × Store). continue x (λ _ s. with_payload payload (rest s)))
            q.1)

  activate_rows-Activation :
      (rs : List StagingUserRow) (db : Store)
      → Activation codec revision rs db (activate_rows faults codec revision rs db)
  activate_rows-Activation [] db = taken (record {
    payloads = [];
    result =
        ap (λ (l : List DesiredUserRow). (ok [], record db { desired = l }))
          (append_nil db.desired);
    decoded = refl;
  })
  activate_rows-Activation (r ∷ rs) db =
      by_decode (codec.decode r.payload) refl (activate_rows-Activation rs)
    where
      by_decode :
          (o : Option (List ℕ))
          → codec.decode r.payload ≡ o
          → ((s : Store)
              → Activation codec revision rs s (activate_rows faults codec revision rs s))
          → Activation codec revision
              (r ∷ rs)
              db
              (activate_row faults revision r o (activate_rows faults codec revision rs) db)
      by_decode none q ih = failed (message "decode staged payload") db refl
      by_decode (some payload) q ih =
          Activation-cons r rs payload db (activate_rows faults codec revision rs) q ih

-- A snapshot is activated whole or not at all, whatever fails: either the payloads of its staged users
-- are returned, all of them and in the order of the addresses, the desired users are exactly those
-- users with the revision of the snapshot, the staged rows of the snapshot are gone, those of other
-- snapshots are left, and both marks are set; or an error is returned, and nothing has changed.
pub activate_snapshot-with_snapshot :
    (lib : GoLib) (faults : Faults) (codec : Codec) (snapshot_id : String) (revision : ℤ)
    (db : Store)
    → ((payloads : List (List ℕ)) × (activate_snapshot lib faults codec snapshot_id revision db
          ≡ (ok payloads, with_snapshot lib snapshot_id revision db))
        × (map (λ r. codec.decode r.payload) (staged_of snapshot_id db) ≡ map some payloads))
      ⊎ ((e : Error) × (activate_snapshot lib faults codec snapshot_id revision db ≡ (err e, db)))
unfolding activate_snapshot
activate_snapshot-with_snapshot lib faults codec snapshot_id revision db =
    elim (Bool-cases (faults read_staging || faults delete_desired)) [
      | inl refused ↦ inr (db_error, rw refused)
      | inr read ↦ rw read (
          by_rows
            (activate_rows faults codec revision (staged_of snapshot_id db)
              (record db { desired = [] }))
            (activate_rows-Activation faults codec revision (staged_of snapshot_id db)
              (record db { desired = [] })))
    ]
  where
    by_rows :
        (out : Result (List (List ℕ)) × Store)
        → Activation codec revision (staged_of snapshot_id db) (record db { desired = [] }) out
        → ((payloads : List (List ℕ)) × (end_transaction
                (faults commit)
                db
                (continue out (finish lib faults snapshot_id revision))
              ≡ (ok payloads, with_snapshot lib snapshot_id revision db))
            × (map (λ r. codec.decode r.payload) (staged_of snapshot_id db) ≡ map some payloads))
          ⊎ ((e : Error) × (end_transaction
                  (faults commit)
                  db
                  (continue out (finish lib faults snapshot_id revision))
                ≡ (err e, db)))
    by_rows out (failed e s q) = inr (
      e,
      ap
          (λ (x : Result (List (List ℕ)) × Store).
            end_transaction (faults commit) db
              (continue x (finish lib faults snapshot_id revision)))
          q,
    )
    by_rows out (taken t) =
        let reached =
          ap
            (λ (x : Result (List (List ℕ)) × Store).
              end_transaction (faults commit) db
                (continue x (finish lib faults snapshot_id revision)))
            t.result in
        elim (Bool-cases (faults delete_staging || faults save_meta)) [
          | inl refused ↦ inr (db_error, reached ∙ rw refused)
          | inr done ↦ elim (Bool-cases (faults commit)) [
            | inl refused ↦ inr (db_error, reached ∙ rw (done, refused))
            | inr ended ↦ inl (t.payloads, reached ∙ rw (done, ended), t.decoded)
          ]
        ]
