-- ===== src/Replication/Apply.antt =====
-- service.go: ApplyEvent, what a slave does with an event of its master.
pub mod Idempotent
use xraytool_go.Prelude.{
  ℕ, Bool, true, false, not, Option, none, some, List, [], ◌∷◌, String, str_eq, if◌then◌else◌,
}
use xraytool_go.Prelude.Int.{ℤ}
use xraytool_go.GoLib.{GoLib}
use xraytool_go.Result.{Result, ok, err, message, db_error}
use xraytool_go.Replication.Tables.{Store, Faults, Codec, Event}
use xraytool_go.Replication.Slave.{
  already_applied, mark_applied, upsert_desired_user, remove_desired_user,
}

-- internal/domain/engine.go
pub record VpnUserConfig : Type 0 where
  pub email : String
  pub uuid : String
  pub auth : String
  pub subfile : String
  pub expire : String
  pub max_devices : ℤ
  pub flow : String
  pub cipher : String
  pub plan_engine_ids : List String
  pub subscription_engine_ids : List String

pub data Call : Type 0 where
  add_user : VpnUserConfig → Call
  remove_user : String → Call

-- The node, with the calls of its engine, the latest first.
pub record Node : Type 0 where
  pub store : Store
  pub calls : List Call

-- The decoders of JSON, the calls that the engine refuses, and the writing of an artifact to its
-- files, which is not part of the model.
pub record Env : Type 0 where
  pub decode_user : List ℕ → Option VpnUserConfig
  pub decode_remove : List ℕ → Option String
  pub engine_fails : Call → Bool
  pub apply_artifact : Event → Node → Result (Unit {0}) × Node

abbrev pub event_user_upsert : String
event_user_upsert = "user.upsert"

abbrev pub event_user_remove : String
event_user_remove = "user.remove"

abbrev pub event_artifact : String
event_artifact = "artifact.upsert"

abbrev pub event_resnapshot : String
event_resnapshot = "snapshot.required"

abbrev pub stored : Node → Result (Unit {0}) × Store → Result (Unit {0}) × Node
stored n (r, db) = (r, record n { store = db })

-- The engine first, and then the statement.
abbrev pub call_engine :
    Env → Call → (Store → Result (Unit {0}) × Store) → Node → Result (Unit {0}) × Node
call_engine env c save n =
    if env.engine_fails c
    then (err (message "apply event"), record n { calls = c ∷ n.calls })
    else stored (record n { calls = c ∷ n.calls }) (save n.store)

abbrev pub apply_upsert :
    Env → Faults → Codec → Event → Option VpnUserConfig → Node → Result (Unit {0}) × Node
apply_upsert env faults codec event none n = (err (message "decode user event"), n)
apply_upsert env faults codec event (some user) n =
    if str_eq user.email ""
    then (err (message "empty user email"), n)
    else call_engine env (add_user user)
        (upsert_desired_user faults codec user.email event.payload event.revision) n

abbrev pub apply_remove : Env → Faults → Option String → Node → Result (Unit {0}) × Node
apply_remove env faults none n = (err (message "decode remove event"), n)
apply_remove env faults (some email) n =
    if str_eq email ""
    then (err (message "empty remove email"), n)
    else call_engine env (remove_user email) (remove_desired_user faults email) n

abbrev pub apply_kind : Env → Faults → Codec → Event → Node → Result (Unit {0}) × Node
apply_kind env faults codec event n =
    if str_eq event.kind event_user_upsert
    then apply_upsert env faults codec event (env.decode_user event.payload) n
    else (if str_eq event.kind event_user_remove
        then apply_remove env faults (env.decode_remove event.payload) n
        else (if str_eq event.kind event_artifact
            then env.apply_artifact event n
            else (if str_eq event.kind event_resnapshot
                then (err (message "received unexpanded replication resnapshot marker"), n)
                else (err (message "unknown replication event kind"), n))))

abbrev pub mark_after :
    GoLib → Faults → String → Event → Result (Unit {0}) × Node → Result (Unit {0}) × Node
mark_after lib faults master_id event (err e, n) = (err e, n)
mark_after lib faults master_id event (ok _, n) =
    stored n (mark_applied lib faults master_id event n.store)

abbrev pub apply_new :
    GoLib → Env → Faults → Codec → String → Event → Result Bool → Node → Result (Unit {0}) × Node
apply_new lib env faults codec master_id event (err e) n = (err db_error, n)
apply_new lib env faults codec master_id event (ok true) n = (ok tt, n)
apply_new lib env faults codec master_id event (ok false) n =
    mark_after lib faults master_id event (apply_kind env faults codec event n)

unfoldable pub apply_event :
    GoLib → Env → Faults → Codec → String → Event → Node → Result (Unit {0}) × Node
apply_event lib env faults codec master_id event n =
    if not (str_eq (codec.checksum event.kind event.payload) event.checksum)
    then (err (message "replication event checksum mismatch"), n)
    else apply_new lib env faults codec master_id event
        (already_applied faults master_id event.revision n.store) n
