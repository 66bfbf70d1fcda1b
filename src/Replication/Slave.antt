-- ===== src/Replication/Slave.antt =====
-- store.go: what a slave keeps: the inbox, the metadata, the desired users and their snapshots.
pub mod Snapshot
use xraytool_go.Prelude.{
  ℕ, Bool, true, false, ◌&&◌, ◌||◌, not, Option, none, some, List, [], ◌∷◌, ◌++◌, map, String, keep,
  first, exists, update_where, str_eq, if◌then◌else◌,
}
use xraytool_go.Prelude.Int.{ℤ, eqb_ℤ}
use xraytool_go.Prelude.Sort.{sort_by, str_ltb}
use xraytool_go.GoLib.{GoLib}
use xraytool_go.Result.{Result, ok, err, message, db_error}
use xraytool_go.Replication.Tables.{
  Store, Faults, Codec, Event, InboxRow, MetaRow, DesiredUserRow, StagingUserRow, count_inbox,
  create_inbox, find_meta, save_meta, delete_desired, create_desired, save_desired, read_staging,
  save_staging, delete_staging, commit, statement, transaction, continue, ◌>>=◌, ◌>>◌, pure,
}

-- `Save`: the row of the key, or a new one.
abbrev pub upsert {ℓ} : {A : Type ℓ} → (A → Bool) → A → List A → List A
upsert is_row row rows =
    if exists is_row rows then update_where is_row (λ _. row) rows else rows ++ row ∷ []

abbrev pub is_key : String → MetaRow → Bool
is_key key r = str_eq r.key key

abbrev value_of : Option MetaRow → Option String
value_of none = none
value_of (some r) = some r.value

unfoldable pub get_meta : Faults → String → Store → Result (Option String)
get_meta faults key db =
    if faults find_meta then err db_error else ok (value_of (first (is_key key) db.meta))

abbrev pub with_meta : String → String → Store → Store
with_meta key value db = record db {
  meta = upsert (is_key key) (record { key = key; value = value }) db.meta;
}

unfoldable pub put_meta : Faults → String → String → Store → Result (Unit {0}) × Store
put_meta faults key value db = statement (faults save_meta) (ok tt, with_meta key value db) db

abbrev pub is_applied : String → ℤ → InboxRow → Bool
is_applied master_id revision r = str_eq r.master_id master_id && eqb_ℤ r.revision revision

unfoldable pub already_applied : Faults → String → ℤ → Store → Result Bool
already_applied faults master_id revision db =
    if faults count_inbox
    then err db_error
    else ok (exists (is_applied master_id revision) db.inbox)

-- A row that is there is left, with no error.
abbrev pub marked : GoLib → Faults → String → Event → Store → Result (Unit {0}) × Store
marked lib faults master_id event db =
    if faults create_inbox
    then (err db_error, db)
    else (if exists (is_applied master_id event.revision) db.inbox
        then (ok tt, db)
        else put_meta faults "applied_revision" (lib.format_int event.revision) (record db {
          inbox =
              db.inbox
              ++ (record {
                master_id = master_id;
                revision = event.revision;
                checksum = event.checksum;
              })
                ∷ [];
        }))

unfoldable pub mark_applied : GoLib → Faults → String → Event → Store → Result (Unit {0}) × Store
mark_applied lib faults master_id event db =
    transaction (faults commit) (marked lib faults master_id event) db

abbrev pub is_user : String → DesiredUserRow → Bool
is_user email r = str_eq r.email email

unfoldable pub upsert_desired_user :
    Faults → Codec → String → List ℕ → ℤ → Store → Result (Unit {0}) × Store
upsert_desired_user faults codec email payload revision db =
    statement (faults save_desired)
      (
        ok tt,
        record db {
          desired =
              upsert (is_user email)
                (record { email = email; payload = codec.encode payload; revision = revision })
                db.desired;
        },
      )
      db

unfoldable pub remove_desired_user : Faults → String → Store → Result (Unit {0}) × Store
remove_desired_user faults email db =
    statement (faults delete_desired)
      (ok tt, record db { desired = keep (λ r. not (is_user email r)) db.desired }) db

abbrev pub is_staged : String → String → StagingUserRow → Bool
is_staged snapshot_id email r = str_eq r.snapshot_id snapshot_id && str_eq r.email email

unfoldable pub stage_user :
    Faults → Codec → String → String → List ℕ → Store → Result (Unit {0}) × Store
stage_user faults codec snapshot_id email payload db =
    statement (faults save_staging)
      (
        ok tt,
        record db {
          staging =
              upsert (is_staged snapshot_id email)
                (record {
                  snapshot_id = snapshot_id;
                  email = email;
                  payload = codec.encode payload;
                })
                db.staging;
        },
      )
      db

abbrev pub in_snapshot : String → StagingUserRow → Bool
in_snapshot snapshot_id r = str_eq r.snapshot_id snapshot_id

-- The rows of a snapshot, in the order of their e-mail addresses.
abbrev pub staged_of : String → Store → List StagingUserRow
staged_of snapshot_id db =
    sort_by (λ a b. str_ltb a.email b.email) (keep (in_snapshot snapshot_id) db.staging)

abbrev pub desired_row : ℤ → StagingUserRow → DesiredUserRow
desired_row revision r = record { email = r.email; payload = r.payload; revision = revision }

abbrev pub create_desired_row : Faults → DesiredUserRow → Store → Result (Unit {0}) × Store
create_desired_row faults row db =
    statement (faults create_desired || exists (is_user row.email) db.desired)
      (ok tt, record db { desired = db.desired ++ row ∷ [] }) db

abbrev pub with_payload : List ℕ → Result (List (List ℕ)) × Store → Result (List (List ℕ)) × Store
with_payload payload (ok rest, db) = (ok (payload ∷ rest), db)
with_payload payload (err e, db) = (err e, db)

abbrev pub activate_row :
    Faults
    → ℤ
    → StagingUserRow
    → Option (List ℕ)
    → (Store → Result (List (List ℕ)) × Store)
    → Store
    → Result (List (List ℕ)) × Store
activate_row faults revision r none rest db = (err (message "decode staged payload"), db)
activate_row faults revision r (some payload) rest db =
    continue (create_desired_row faults (desired_row revision r) db)
      (λ _ next. with_payload payload (rest next))

abbrev pub activate_rows :
    Faults → Codec → ℤ → List StagingUserRow → Store → Result (List (List ℕ)) × Store
activate_rows faults codec revision [] db = (ok [], db)
activate_rows faults codec revision (r ∷ rs) db =
    activate_row faults revision r (codec.decode r.payload) (activate_rows faults codec revision rs)
      db

-- The marks of the snapshot, after its rows have been taken.
abbrev pub finish :
    GoLib → Faults → String → ℤ → List (List ℕ) → Store → Result (List (List ℕ)) × Store
finish lib faults snapshot_id revision payloads db =
    if faults delete_staging || faults save_meta then (err db_error, db) else (
      ok payloads,
      with_meta "snapshot_initialized" "true" (
          with_meta "applied_revision" (lib.format_int revision)
            (record db { staging = keep (λ r. not (in_snapshot snapshot_id r)) db.staging })),
    )

abbrev pub activated : GoLib → Faults → Codec → String → ℤ → Store → Result (List (List ℕ)) × Store
activated lib faults codec snapshot_id revision db =
    if faults read_staging || faults delete_desired
    then (err db_error, db)
    else continue
        (activate_rows faults codec revision (staged_of snapshot_id db)
          (record db { desired = [] }))
        (finish lib faults snapshot_id revision)

unfoldable pub activate_snapshot :
    GoLib → Faults → Codec → String → ℤ → Store → Result (List (List ℕ)) × Store
activate_snapshot lib faults codec snapshot_id revision db =
    transaction (faults commit) (activated lib faults codec snapshot_id revision) db
