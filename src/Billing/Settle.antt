-- ===== src/Billing/Settle.antt =====
-- internal/plugins/billing/service.go: ProcessExternalPaymentStatus, UpdatePaymentStatus,
-- extendSubscriptionForPayment, UpdateExternalID and ScrubOldPayments.
use xraytool_go.Prelude.{
  ℕ, ◌-◌, Bool, true, false, ◌||◌, not, Option, none, some, List, [], ◌∷◌, String, str_eq,
  if◌then◌else◌,
}
use xraytool_go.Prelude.Int.{ℤ, pos, ltb_ℤ}
use xraytool_go.GoLib.{GoLib, Clock}
use xraytool_go.Result.{Result, ok, err}
use xraytool_go.Domain.{Payment, Value, int_value, float_value, get_value}
use xraytool_go.Database.{Db, Faults, commit, release, transaction, ◌>>=◌, ◌>>◌, pure}
use xraytool_go.Database.Users.{adjust_balance}
use xraytool_go.Database.Payments.{
  find_by_id, find_by_external_id, update_status, update_status_if_not_completed, update,
  scrub_old_external_ids,
}
use xraytool_go.Database.Subscriptions.{find_latest_by_user_id, auto_renew_subscription}

-- The "payment.completed" event that the dispatcher is given.
pub record PaymentCompleted : Type 0 where
  pub payment_id : ℕ
  pub amount : ℤ
  pub payment_type : String
  pub method : String
  pub user_id : String

abbrev pub event_of : Payment → PaymentCompleted
event_of p = record {
  payment_id = p.id;
  amount = p.amount;
  payment_type = p.payment_type;
  method = p.method;
  user_id = p.user_id;
}

-- What a call of the service returns, the database after it, and the events it dispatched.
pub record Outcome {ℓ} (A : Type ℓ) : Type ℓ where
  pub result : Result A
  pub db : Db
  pub events : List PaymentCompleted

abbrev current_devices {ℓ} : {A : Type ℓ} → (A → ℤ) → Result A → ℤ
current_devices f (ok s) = f s
current_devices f (err _) = pos 3

-- `CustomData["max_devices"]` as a float64 or an int; any other value is ignored.
abbrev requested_devices : GoLib → ℤ → Option Value → ℤ
requested_devices go n (some (float_value x)) = go.int_of_float x
requested_devices go n (some (int_value m)) = m
requested_devices go n _ = n

abbrev at_least_three : ℤ → ℤ
at_least_three n = if ltb_ℤ n (pos 3) then pos 3 else n

-- The device limit that a paid plan brings.
unfoldable pub devices_for : GoLib → Faults → Payment → Db → ℤ
devices_for go faults payment db =
    let current =
      current_devices (λ s. s.max_devices) (find_latest_by_user_id faults payment.user_id db).0 in
    at_least_three (requested_devices go current (get_value "max_devices" payment.custom_data))

-- A failure of the renewal is logged and dropped.
unfoldable pub extend_subscription : GoLib → Clock → Faults → Payment → ℕ → Db → Db
extend_subscription go clock faults payment plan_id db =
    (auto_renew_subscription go clock faults (faults release) payment.user_id (some plan_id) (pos 0)
      none (devices_for go faults payment db) db).1

-- What a payment that has just been completed brings: a plan extends the subscription, and any
-- other payment that was not made from the balance is credited to it.
unfoldable pub complete_by :
    GoLib → Clock → Faults → Payment → Option ℕ → Db → Result (Unit {0}) × Db
complete_by go clock faults payment (some plan_id) db =
    (ok tt, extend_subscription go clock faults payment plan_id db)
complete_by go clock faults payment none db =
    if str_eq payment.method "balance"
    then (ok tt, db)
    else adjust_balance faults payment.user_id payment.amount db

unfoldable pub complete : GoLib → Clock → Faults → Payment → Db → Result (Unit {0}) × Db
unfolding complete_by
complete go clock faults payment = complete_by go clock faults payment payment.plan_id

-- The provider's names for a settled payment.
unfoldable pub mapped_status : String → String
mapped_status status =
    if str_eq status "success"
      || str_eq status "SUCCESS"
      || str_eq status "CONFIRMED"
      || str_eq status "COMPLETED"
    then "completed"
    else status

-- The end of both transactions: the payment is completed and handed to the dispatcher.
unfoldable pub completed : GoLib → Clock → Faults → Payment → Db → Result (Option Payment) × Db
completed go clock faults payment = complete go clock faults payment >> pure (some payment)

unfoldable pub settle_found :
    GoLib → Clock → Faults → String → Payment → Db → Result (Option Payment) × Db
settle_found go clock faults status payment db =
    if str_eq payment.status status || str_eq payment.status "completed"
    then (ok none, db)
    else (update_status_if_not_completed faults payment.id status >>= λ updated.
          if not updated
          then pure none
          else if str_eq status "completed"
          then completed go clock faults payment
          else pure none)
        db

unfoldable pub settle_body :
    GoLib → Clock → Faults → String → String → Db → Result (Option Payment) × Db
settle_body go clock faults ext_id status = do
  payment ← find_by_external_id faults ext_id
  settle_found go clock faults status payment

abbrev pub dispatched : Result (Option Payment) × Db → Outcome (Unit {0})
dispatched (err e, db) = record { result = err e; db = db; events = [] }
dispatched (ok none, db) = record { result = ok tt; db = db; events = [] }
dispatched (ok (some payment), db) = record {
  result = ok tt;
  db = db;
  events = event_of payment ∷ [];
}

unfoldable pub process_external_payment_status :
    GoLib → Clock → Faults → String → String → Db → Outcome (Unit {0})
unfolding settle_body settle_found completed
process_external_payment_status go clock faults ext_id status db =
    dispatched
      (transaction (faults commit) (settle_body go clock faults ext_id (mapped_status status)) db)

-- What the transaction of UpdatePaymentStatus reports: whether a row changed, and the payment.
-- A payment that cannot be read back is not completed, and the status stays changed.
unfoldable pub read_back :
    GoLib → Clock → Faults → Result Payment → Db → Result (Bool × Option Payment) × Db
read_back go clock faults (err _) = pure (true, none)
read_back go clock faults (ok payment) = completed go clock faults payment >>= λ p. pure (true, p)

unfoldable pub update_body :
    GoLib → Clock → Faults → ℕ → String → List String → Db → Result (Bool × Option Payment) × Db
unfolding read_back
update_body go clock faults payment_id status expected = do
  updated ← update_status faults payment_id status expected
  if not updated
      then pure (false, none)
      else if str_eq status "completed"
      then (λ db. read_back go clock faults (find_by_id faults payment_id db).0 db)
      else pure (true, none)

abbrev pub reported : Result (Bool × Option Payment) × Db → Outcome Bool
reported (err e, db) = record { result = err e; db = db; events = [] }
reported (ok (updated, none), db) = record { result = ok updated; db = db; events = [] }
reported (ok (updated, some payment), db) = record {
  result = ok updated;
  db = db;
  events = event_of payment ∷ [];
}

unfoldable pub update_payment_status :
    GoLib → Clock → Faults → ℕ → String → List String → Db → Outcome Bool
unfolding update_body completed
update_payment_status go clock faults payment_id status expected db =
    reported
      (transaction (faults commit) (update_body go clock faults payment_id status expected) db)

external_id_body : Faults → ℕ → String → Db → Result (Unit {0}) × Db
external_id_body faults payment_id ext_id = do
  p ← find_by_id faults payment_id
  update faults (record p { external_id = some ext_id })

unfoldable pub update_external_id : Faults → ℕ → String → Db → Result (Unit {0}) × Db
unfolding external_id_body
update_external_id faults payment_id ext_id =
    transaction (faults commit) (external_id_body faults payment_id ext_id)

unfoldable pub scrub_old_payments : Faults → ℕ → ℕ → Db → Result ℕ × Db
scrub_old_payments faults now older_than = scrub_old_external_ids faults (now - older_than)
