-- ===== src/Replication/Apply/Idempotent.antt =====
-- service.go: an event that arrives again.
use xraytool_go.Prelude.{
  Bool, true, false, ◌≡◌, refl, String, arith, exists, str_eq, str_eq_refl, Bool-cases, inl, inr,
  exists-append_last,
}
use xraytool_go.Prelude.Int.{ℤ, eqb_ℤ}
use xraytool_go.GoLib.{GoLib}
use xraytool_go.Result.{Result, ok, err}
use xraytool_go.Replication.Tables.{Store, Faults, Codec, Event, InboxRow, count_inbox}
use xraytool_go.Replication.Slave.{already_applied, mark_applied, is_applied, put_meta}
use xraytool_go.Replication.Apply.{Node, Env, apply_kind, mark_after, apply_new, apply_event}

abbrev IsApplied : String → Event → Store → Type 0
IsApplied master_id event db = exists (is_applied master_id event.revision) db.inbox ≡ true

eqb_refl : (z : ℤ) → eqb_ℤ z z ≡ true
eqb_refl z = ground arith

mark_applied-IsApplied :
    (lib : GoLib) (faults : Faults) (master_id : String) (event : Event) (db : Store)
    → (mark_applied lib faults master_id event db).0 ≡ ok tt
    → IsApplied master_id event (mark_applied lib faults master_id event db).1
unfolding mark_applied put_meta
mark_applied-IsApplied lib faults master_id event db h =
    let row : InboxRow = record {
      master_id = master_id;
      revision = event.revision;
      checksum = event.checksum;
    } in
    ground (
      arith,
      str_eq_refl master_id,
      eqb_refl event.revision,
      exists-append_last (is_applied master_id event.revision) db.inbox row,
    )

-- What a success has left: the event passed its checksum, and it stands in the inbox.
record Done (codec : Codec) (master_id : String) (event : Event) (n : Node) : Type 0 where
  intact : str_eq (codec.checksum event.kind event.payload) event.checksum ≡ true
  applied : IsApplied master_id event n.store

module _ (lib : GoLib) (env : Env) (faults : Faults) (codec : Codec) (master_id : String)
    (event : Event) where
  mark_after-IsApplied :
      (out : Result (Unit {0}) × Node)
      → (mark_after lib faults master_id event out).0 ≡ ok tt
      → IsApplied master_id event (mark_after lib faults master_id event out).1.store
  mark_after-IsApplied (err e, n) h = cc
  mark_after-IsApplied (ok u, n) h = mark_applied-IsApplied lib faults master_id event n.store h

  apply_new-IsApplied :
      (known : Result Bool) (n : Node)
      → already_applied faults master_id event.revision n.store ≡ known
      → (apply_new lib env faults codec master_id event known n).0 ≡ ok tt
      → IsApplied master_id event (apply_new lib env faults codec master_id event known n).1.store
  unfolding already_applied
  apply_new-IsApplied (err e) n q h = cc
  apply_new-IsApplied (ok true) n q h = ground arith
  apply_new-IsApplied (ok false) n q h =
      mark_after-IsApplied (apply_kind env faults codec event n) h

  apply_event-Done :
      (n : Node)
      → (apply_event lib env faults codec master_id event n).0 ≡ ok tt
      → Done codec master_id event (apply_event lib env faults codec master_id event n).1
  unfolding apply_event
  apply_event-Done n h =
      elim (Bool-cases (str_eq (codec.checksum event.kind event.payload) event.checksum)) [
        | inr broken ↦ (let refused = rw broken at h in cc)
        | inl intact ↦ rw intact (record {
          intact = intact;
          applied =
              apply_new-IsApplied (already_applied faults master_id event.revision n.store) n refl
                (rw intact at h);
        })
      ]

applied_once :
    (lib : GoLib) (later : Env) (again : Faults) (codec : Codec) (master_id : String)
    (event : Event) (m : Node)
    → again count_inbox ≡ false
    → Done codec master_id event m
    → apply_event lib later again codec master_id event m ≡ (ok tt, m)
unfolding apply_event already_applied
applied_once lib later again codec master_id event m r d = rw (d.intact, r, d.applied)

-- An event is applied once: after a success, the same event of the same master, applied again with
-- whatever engine and whatever failures, if only the inbox can be read, succeeds and does nothing: no
-- call of the engine, no file, no change of the database.
pub apply_event-again :
    (lib : GoLib) (env later : Env) (faults again : Faults) (codec : Codec) (master_id : String)
    (event : Event) (n : Node)
    → again count_inbox ≡ false
    → (apply_event lib env faults codec master_id event n).0 ≡ ok tt
    → apply_event lib later again codec master_id event
        (apply_event lib env faults codec master_id event n).1
      ≡ (ok tt, (apply_event lib env faults codec master_id event n).1)
apply_event-again lib env later faults again codec master_id event n r h =
    applied_once lib later again codec master_id event
      (apply_event lib env faults codec master_id event n).1 r
      (apply_event-Done lib env faults codec master_id event n h)
