-- ===== src/Billing/Once.antt =====
-- ProcessExternalPaymentStatus and a payment that is completed already.
use xraytool_go.Prelude.{
  ℕ, Bool, true, false, ◌≡◌, refl, ◌∙◌, inl, inr, Option, none, some, List, [], ◌∷◌, String, arith,
  Option-cases, first-update_where, str_eq, eq_iff,
}
use xraytool_go.GoLib.{GoLib, Clock}
use xraytool_go.Result.{Result, ok}
use xraytool_go.Domain.{Payment}
use xraytool_go.Database.{Db, Faults, release}
use xraytool_go.Database.Users.{adjust_balance}
use xraytool_go.Database.Payments.{
  payment_of, holds, set_status, not_completed, find_by_external_id, update_status_if_not_completed,
}
use xraytool_go.Database.Subscriptions.Effect.{auto_renew-Same}
use xraytool_go.Prelude.Int.{pos}
use xraytool_go.Billing.Settle.{
  PaymentCompleted, Outcome, devices_for, complete, complete_by, completed, extend_subscription,
  mapped_status, process_external_payment_status, settle_found,
}

abbrev is_sent : Result (Option Payment) → Bool
is_sent (ok (some _)) = true
is_sent _ = false

module _ (go : GoLib) (clock : Clock) (faults : Faults) where
  extend-payments :
      (p : Payment) (plan_id : ℕ) (db : Db)
      → (extend_subscription go clock faults p plan_id db).payments ≡ db.payments
  unfolding extend_subscription
  extend-payments p plan_id db =
      ((auto_renew-Same go clock faults (faults release) p.user_id (some plan_id) (pos 0) none
          (devices_for go faults p db)).at
        db).payments

  complete_by-payments :
      (p : Payment) (plan_id : Option ℕ) (db : Db)
      → (complete_by go clock faults p plan_id db).1.payments ≡ db.payments
  unfolding complete_by adjust_balance
  complete_by-payments p (some plan_id) db = extend-payments p plan_id db
  complete_by-payments p none db = ground arith

  -- A completed payment: the call changes nothing and dispatches nothing.
  final :
      (ext_id status : String) (db : Db) (p : Payment)
      → payment_of ext_id db ≡ some p
      → p.status ≡ "completed"
      → let out = process_external_payment_status go clock faults ext_id status db in
        (out.db ≡ db) × (out.events ≡ [])
  unfolding process_external_payment_status find_by_external_id
  final ext_id status db p e c = ground (arith, eq_iff p.status "completed")

  -- The row that the guarded update leaves under the external id.
  marked :
      (ext_id status : String) (db : Db) (p : Payment)
      → payment_of ext_id db ≡ some p
      → str_eq p.status "completed" ≡ false
      → payment_of ext_id (set_status (not_completed p.id) status db)
        ≡ some (record p { status = status })
  marked ext_id status db p e c =
      first-update_where (λ q. holds q.external_id ext_id) (not_completed p.id)
        (λ q. record q { status = status }) (λ q. refl) db.payments
      ∙ ground arith

  settle_found-some :
      (ext_id status : String) (db : Db) (p : Payment)
      → payment_of ext_id db ≡ some p
      → is_sent (settle_found go clock faults status p db).0 ≡ true
      → payment_of ext_id (settle_found go clock faults status p db).1
        ≡ some (record p { status = "completed" })
  unfolding settle_found update_status_if_not_completed completed complete
  settle_found-some ext_id status db p e h = ground (
    arith,
    eq_iff status "completed",
    marked ext_id status db p e,
    complete_by-payments p p.plan_id (set_status (not_completed p.id) status db),
  )

  settled :
      (ext_id status : String) (db : Db) (p : Payment) (event : PaymentCompleted)
      → payment_of ext_id db ≡ some p
      → let out = process_external_payment_status go clock faults ext_id status db in
        out.events ≡ event ∷ []
        → payment_of ext_id out.db ≡ some (record p { status = "completed" })
  unfolding process_external_payment_status find_by_external_id
  settled ext_id status db p event e h =
      ground (arith, settle_found-some ext_id (mapped_status status) db p e)

  unknown :
      (ext_id status : String) (db : Db)
      → payment_of ext_id db ≡ none
      → (process_external_payment_status go clock faults ext_id status db).events ≡ []
  unfolding process_external_payment_status find_by_external_id
  unknown ext_id status db e = ground arith

-- A call of the webhook: what it reports, when, and which statements the driver refuses.
pub record Report : Type 0 where
  pub clock : Clock
  pub faults : Faults
  pub ext_id : String
  pub status : String

abbrev pub report : GoLib → Report → Db → Outcome (Unit {0})
report go r db = process_external_payment_status go r.clock r.faults r.ext_id r.status db

abbrev pub report_all : GoLib → List Report → Db → Db
report_all go [] db = db
report_all go (r ∷ rs) db = report_all go rs (report go r db).db

module _ (go : GoLib) (ext_id : String) (p : Payment) where
  set_status-keeps :
      (id : ℕ) (status : String) (db : Db)
      → payment_of ext_id db ≡ some p
      → p.status ≡ "completed"
      → payment_of ext_id (set_status (not_completed id) status db) ≡ some p
  set_status-keeps id status db e c =
      first-update_where (λ q. holds q.external_id ext_id) (not_completed id)
        (λ q. record q { status = status }) (λ q. refl) db.payments
      ∙ ground (arith, eq_iff p.status "completed")

  settle_found-keeps :
      (clock : Clock) (faults : Faults) (status : String) (q : Payment) (db : Db)
      → payment_of ext_id db ≡ some p
      → p.status ≡ "completed"
      → payment_of ext_id (settle_found go clock faults status q db).1 ≡ some p
  unfolding settle_found update_status_if_not_completed completed complete
  settle_found-keeps clock faults status q db e c = ground (
    arith,
    set_status-keeps q.id status db e c,
    complete_by-payments go clock faults q q.plan_id (set_status (not_completed q.id) status db),
  )

  report-keeps :
      (r : Report) (db : Db)
      → payment_of ext_id db ≡ some p
      → p.status ≡ "completed"
      → payment_of ext_id (report go r db).db ≡ some p
  unfolding process_external_payment_status find_by_external_id
  report-keeps r db e c = elim (Option-cases (payment_of r.ext_id db)) [
    | inl missing ↦ ground arith
    | inr (q, f) ↦
        ground (arith, settle_found-keeps r.clock r.faults (mapped_status r.status) q db e c)
  ]

  report_all-keeps :
      (rs : List Report) (db : Db)
      → payment_of ext_id db ≡ some p
      → p.status ≡ "completed"
      → payment_of ext_id (report_all go rs db) ≡ some p
  report_all-keeps [] db e c = e
  report_all-keeps (r ∷ rs) db e c =
      report_all-keeps rs (report go r db).db (report-keeps r db e c) c

-- Once a call of ProcessExternalPaymentStatus has dispatched the completion of a payment, a call
-- of it for the same external id changes nothing and dispatches nothing, whatever status it
-- reports, after any calls of it for any external ids, as long as nothing else has written to the
-- database; whenever each of them runs and whichever statements the driver refuses.
pub settled_once :
    (go : GoLib) (first_call again : Report) (rs : List Report) (db : Db) (event : PaymentCompleted)
    → again.ext_id ≡ first_call.ext_id
    → (report go first_call db).events ≡ event ∷ []
    → let later = report_all go rs (report go first_call db).db in
      ((report go again later).db ≡ later) × ((report go again later).events ≡ [])
settled_once go first_call again rs db event same h =
    let ext_id = first_call.ext_id in
    elim (Option-cases (payment_of ext_id db)) [
      | inl e ↦ cc (unknown go first_call.clock first_call.faults ext_id first_call.status db e, h)
      | inr (p, e) ↦
          let done : Payment = record p { status = "completed" } in
          let later = report_all go rs (report go first_call db).db in
          let kept =
            report_all-keeps go ext_id done rs (report go first_call db).db
              (settled go first_call.clock first_call.faults ext_id first_call.status db p event e
                h)
              refl in
          final go again.clock again.faults again.ext_id again.status later done (rw same kept) refl
    ]
