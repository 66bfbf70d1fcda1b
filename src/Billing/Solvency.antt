-- ===== src/Billing/Solvency.antt =====
-- The balances under the operations of the payments service.
use xraytool_go.Prelude.{
  ℕ, Bool, true, false, ◌||◌, not, ◌≡◌, refl, Option, none, some, List, String, arith, str_eq,
  All-update_where, if◌then◌else◌,
}
use xraytool_go.Prelude.Int.{ℤ, pos}
use xraytool_go.GoLib.{GoLib, Clock}
use xraytool_go.Result.{Result, ok, err}
use xraytool_go.Domain.{User, Payment}
use xraytool_go.Database.{Db, Faults, commit, release, ◌>>=◌, pure}
use xraytool_go.Database.Keeps.{Keeps, Keeps-bind, Keeps-transaction}
use xraytool_go.Database.Users.{adjust_balance, credited}
use xraytool_go.Database.Payments.{
  find_by_id, find_by_external_id, update_status, update_status_if_not_completed,
}
use xraytool_go.Database.Subscriptions.Effect.{
  IsSolvent, AllSolvent, Solvent, Solvent-refl, Solvent-trans, Solvent-same, auto_renew-Solvent,
}
use xraytool_go.Billing.Settle.{
  complete, complete_by, completed, devices_for, dispatched, extend_subscription, mapped_status,
  process_external_payment_status, read_back, reported, settle_body, settle_found, update_body,
  update_payment_status,
}

bind :
    {A B : Type 0} {m : Db → Result A × Db} {f : A → Db → Result B × Db}
    → Keeps Solvent m
    → ((x : A) → Keeps Solvent (f x))
    → Keeps Solvent (m >>= f)
bind {m = m} {f = f} = Keeps-bind Solvent-refl Solvent-trans m f

pure-Solvent : {A : Type 0} (a : A) → Keeps Solvent (pure a)
pure-Solvent a = record { at = Solvent-refl }

if-Solvent :
    {A : Type 0} (b : Bool) {m n : Db → Result A × Db}
    → Keeps Solvent m
    → Keeps Solvent n
    → Keeps Solvent (if b then m else n)
if-Solvent true km kn = km
if-Solvent false km kn = kn

-- The same where the branch is taken at a database.
if-at :
    {A : Type 0} (b : Bool) (db : Db) (x y : Result A × Db)
    → Solvent db x.1
    → Solvent db y.1
    → Solvent db (if b then x else y).1
if-at true db x y h k = h
if-at false db x y h k = k

credited-IsSolvent : (n : ℤ) (u : User) → IsSolvent (record u { balance = credited n u.balance })
unfolding credited
credited-IsSolvent n u = ground arith

module _ (faults : Faults) where
  adjusted :
      (u : String) (n : ℤ) (db : Db) → AllSolvent db → AllSolvent (adjust_balance faults u n db).1
  unfolding adjust_balance
  adjusted u n db h = ground (
    arith,
    All-update_where IsSolvent (λ x. str_eq x.id u)
        (λ x. record x { balance = credited n x.balance }) (λ x _ _. credited-IsSolvent n x)
        db.users h,
  )

  pub adjust-Solvent : (u : String) (n : ℤ) → Keeps Solvent (adjust_balance faults u n)
  adjust-Solvent u n = record { at = λ db. record { solvent = adjusted u n db } }

  find-Solvent : (e : String) → Keeps Solvent (find_by_external_id faults e)
  unfolding find_by_external_id
  find-Solvent e = record { at = λ db. Solvent-same db _ (ground arith) }

  guarded-Solvent : (n : ℕ) (s : String) → Keeps Solvent (update_status_if_not_completed faults n s)
  unfolding update_status_if_not_completed
  guarded-Solvent n s = record { at = λ db. Solvent-same db _ (ground arith) }

  status-Solvent :
      (n : ℕ) (s : String) (l : List String) → Keeps Solvent (update_status faults n s l)
  unfolding update_status
  status-Solvent n s l = record { at = λ db. Solvent-same db _ (ground arith) }

module _ (go : GoLib) (clock : Clock) (faults : Faults) where
  complete_by-Solvent :
      (p : Payment) (plan_id : Option ℕ) → Keeps Solvent (complete_by go clock faults p plan_id)
  unfolding complete_by extend_subscription
  complete_by-Solvent p none = record {
    at = λ db.
        if-at (str_eq p.method "balance") db (ok tt, db) _ (Solvent-refl db)
          ((adjust-Solvent faults p.user_id p.amount).at db);
  }
  complete_by-Solvent p (some plan_id) = record {
    at = λ db.
        (auto_renew-Solvent go clock faults (faults release) p.user_id (some plan_id) (pos 0) none
            (devices_for go faults p db)).at
          db;
  }

  completed-Solvent : (p : Payment) → Keeps Solvent (completed go clock faults p)
  unfolding completed complete
  completed-Solvent p = bind (complete_by-Solvent p p.plan_id) λ _. pure-Solvent (some p)

  found-Solvent : (s : String) (p : Payment) → Keeps Solvent (settle_found go clock faults s p)
  unfolding settle_found
  found-Solvent s p = record {
    at = λ db.
        if-at (str_eq p.status s || str_eq p.status "completed") db (ok none, db) _
          (Solvent-refl db)
          ((bind (guarded-Solvent faults p.id s) λ updated.
              if-Solvent (not updated) (pure-Solvent none)
                (if-Solvent (str_eq s "completed") (completed-Solvent p) (pure-Solvent none))).at
            db);
  }

  body-Solvent : (e s : String) → Keeps Solvent (settle_body go clock faults e s)
  unfolding settle_body
  body-Solvent e s = bind (find-Solvent faults e) (found-Solvent s)

  read_back-Solvent : (r : Result Payment) → Keeps Solvent (read_back go clock faults r)
  unfolding read_back
  read_back-Solvent (err e) = pure-Solvent (true, none)
  read_back-Solvent (ok p) = bind (completed-Solvent p) λ q. pure-Solvent (true, q)

  update_body-Solvent :
      (n : ℕ) (s : String) (l : List String) → Keeps Solvent (update_body go clock faults n s l)
  unfolding update_body
  update_body-Solvent n s l = bind (status-Solvent faults n s l) λ updated.
      if-Solvent (not updated) (pure-Solvent (false, none)) (
        if-Solvent (str_eq s "completed")
          (record { at = λ db. (read_back-Solvent (find_by_id faults n db).0).at db })
          (pure-Solvent (true, none)))

dispatched-db : (r : Result (Option Payment) × Db) → (dispatched r).db ≡ r.1
dispatched-db (ok none, db) = refl
dispatched-db (ok (some p), db) = refl
dispatched-db (err e, db) = refl

reported-db : (r : Result (Bool × Option Payment) × Db) → (reported r).db ≡ r.1
reported-db (ok (b, none), db) = refl
reported-db (ok (b, some p), db) = refl
reported-db (err e, db) = refl

-- If no balance is below zero, none is after a provider has reported a status, whatever the status
-- and the amount of the payment, and whichever statements the driver refuses.
pub process_external-Solvent :
    (go : GoLib) (clock : Clock) (faults : Faults) (ext_id status : String) (db : Db)
    → AllSolvent db
    → AllSolvent (process_external_payment_status go clock faults ext_id status db).db
unfolding process_external_payment_status
process_external-Solvent go clock faults ext_id status db h = rw dispatched-db (
    ((Keeps-transaction Solvent-refl Solvent-trans (faults commit) _
          (body-Solvent go clock faults ext_id (mapped_status status))).at
        db).solvent
      h)

-- If no balance is below zero, none is after the status of a payment has been changed by its key,
-- whatever the status, the statuses that are expected and the amount of the payment, and whichever
-- statements the driver refuses.
pub update_payment_status-Solvent :
    (go : GoLib) (clock : Clock) (faults : Faults) (payment_id : ℕ) (status : String)
    (expected : List String) (db : Db)
    → AllSolvent db
    → AllSolvent (update_payment_status go clock faults payment_id status expected db).db
unfolding update_payment_status
update_payment_status-Solvent go clock faults payment_id status expected db h = rw reported-db (
    ((Keeps-transaction Solvent-refl Solvent-trans (faults commit) _
          (update_body-Solvent go clock faults payment_id status expected)).at
        db).solvent
      h)
