-- ===== src/Billing/Create/Frame.antt =====
-- CreatePayment around the body of its transaction.
use xraytool_go.Prelude.{ℕ, Bool, true, false, Option, none, some, String}
use xraytool_go.Prelude.Int.{ℤ}
use xraytool_go.GoLib.{GoLib, Clock}
use xraytool_go.Result.{Error, Result, ok, err}
use xraytool_go.Domain.{Payment, User}
use xraytool_go.Database.{Db, Faults, commit, end_transaction}
use xraytool_go.Pricing.Legacy.{CreatePaymentRequest, PricingEngine}
use xraytool_go.Billing.Create.{
  create_for, create_valid, insert_priced, insert_body, reported, payment_for,
}

module _ (engine : Option PricingEngine) (go : GoLib) (clock : Clock) (faults : Faults)
    (P : Db → Type 0)
    (insert-P : (now : ℕ) (p : Payment) (db : Db)
      → P db
      → P (insert_body go faults now p db).1) where
  ended-P :
      (refused : Bool) (db : Db) (r : Result Payment × Db)
      → P db
      → P r.1
      → P (reported (end_transaction refused db r)).1
  ended-P true db (ok p, after) h k = h
  ended-P false db (ok p, after) h k = k
  ended-P refused db (err e, after) h k = h

  priced-P :
      (req : CreatePaymentRequest) (u : String) (price : Result (ℤ × Option ℕ)) (db : Db)
      → P db
      → P (insert_priced go clock faults req u price db).1
  unfolding insert_priced
  priced-P req u (err e) db h = h
  priced-P req u (ok (amount, id)) db h =
      let p = payment_for req u amount id (clock 5) in
      ended-P (faults commit) db (insert_body go faults (clock 4) p db) h
        (insert-P (clock 4) p db h)

  for-P :
      (req : CreatePaymentRequest) (user : Result User) (db : Db)
      → P db
      → P (create_for engine go clock faults req user db).1
  unfolding create_for
  for-P req (err e) db h = h
  for-P req (ok user) db h = priced-P req user.id _ db h

  pub valid-P :
      (req : CreatePaymentRequest) (e : Option Error) (db : Db)
      → P db
      → P (create_valid engine go clock faults req e db).1
  unfolding create_valid
  valid-P req (some e) db h = h
  valid-P req none db h = for-P req _ db h
