-- ===== src/Billing/Create/Once.antt =====
-- CreatePayment and the uses of a promo code by one user.
use xraytool_go.Prelude.{
  ℕ, ◌≤◌, ◌≡◌, refl, ◌⊎◌, inl, inr, Option, none, some, List, [], ◌∷◌, ◌++◌, String, arith, length,
  keep, Bool-cases, eq_iff, length-keep-append,
}
use xraytool_go.GoLib.{GoLib, Clock}
use xraytool_go.Result.{Result, ok, err}
use xraytool_go.Domain.{Payment}
use mathlib.Core.Path.{subst}
use xraytool_go.Database.{Db, Faults, continue, ◌>>◌}
use xraytool_go.Database.Promos
use xraytool_go.Database.Promos.{increment_uses, countable, count_use}
use xraytool_go.Database.Payments.{create, count_by_user_and_promo, uses_promo, stored}
use xraytool_go.Pricing.Legacy.{CreatePaymentRequest, PricingEngine}
use xraytool_go.Billing.Create.{
  create_payment, insert_body, invalid_request, redeem, redeem_if, use_promo,
}
use xraytool_go.Billing.Create.Frame.{valid-P}

-- A user has at most one payment for a promo code that is completed or waits for the card.
abbrev pub IsOncePerUser : Db → Type 0
IsOncePerUser db = (u : String) (id : ℕ) → length (keep (uses_promo u id) db.payments) ≤ 1

module _ (go : GoLib) (faults : Faults) where
  redeem-payments :
      (now : ℕ) (u : String) (id : ℕ) (db : Db)
      → (redeem faults now u id db).1.payments ≡ db.payments
  unfolding redeem use_promo Promos.find_by_id count_by_user_and_promo increment_uses
  redeem-payments now u id db = ground arith

  redeem-unused :
      (now : ℕ) (u : String) (id : ℕ) (db : Db)
      → (redeem faults now u id db).0 ≡ ok tt
      → length (keep (uses_promo u id) db.payments) ≡ 0
  unfolding redeem use_promo Promos.find_by_id count_by_user_and_promo increment_uses
  redeem-unused now u id db h = ground arith

  -- The row that `create` stores for a payment.
  abbrev row_of : Payment → Db → Payment
  row_of p db = record p { id = db.next_payment; custom_data = stored go p.custom_data }

  create-payments :
      (p : Payment) (db : Db)
      → ((create go faults p db).1.payments ≡ db.payments)
        ⊎ ((create go faults p db).1.payments ≡ db.payments ++ row_of p db ∷ [])
  unfolding create
  create-payments p db = ground arith

  -- A row that spends a code that its user has not spent leaves everybody at one use at most.
  append-Once :
      (rows : List Payment) (p : Payment)
      → ((u : String) (id : ℕ) → length (keep (uses_promo u id) rows) ≤ 1)
      → ((id : ℕ) → p.promo_code_id ≡ some id → length (keep (uses_promo p.user_id id) rows) ≡ 0)
      → (u : String) (id : ℕ) → length (keep (uses_promo u id) (rows ++ p ∷ [])) ≤ 1
  append-Once rows p h unused u id = elim (Bool-cases (uses_promo u id p)) [
    | inl spends ↦
        let same_user : p.user_id ≡ u = ground (arith, eq_iff p.user_id u) in
        let same_code : p.promo_code_id ≡ some id = ground arith in
        let none_yet : length (keep (uses_promo u id) rows) ≡ 0 =
          subst (λ v. length (keep (uses_promo v id) rows) ≡ 0) same_user (unused id same_code) in
        rw length-keep-append (rw spends (omega arith))
    | inr other ↦ rw length-keep-append (rw other (omega (arith, h u id)))
  ]

  create-Once :
      (p : Payment) (db : Db)
      → IsOncePerUser db
      → ((id : ℕ)
          → p.promo_code_id ≡ some id
          → length (keep (uses_promo p.user_id id) db.payments) ≡ 0)
      → IsOncePerUser (create go faults p db).1
  create-Once p db h unused u id = elim (create-payments p db) [
    | inl same ↦ rw same (h u id)
    | inr more ↦ rw more (append-Once db.payments (row_of p db) h unused u id)
  ]

  same-Once : (a b : Db) → b.payments ≡ a.payments → IsOncePerUser a → IsOncePerUser b
  same-Once a b e h u id = rw e (h u id)

  after-Once :
      (p : Payment) (id : ℕ) (db : Db) (r : Result (Unit {0}) × Db)
      → p.promo_code_id ≡ some id
      → IsOncePerUser db
      → r.1.payments ≡ db.payments
      → (r.0 ≡ ok tt → length (keep (uses_promo p.user_id id) db.payments) ≡ 0)
      → IsOncePerUser (continue r (λ _. create go faults p)).1
  after-Once p id db (err x, after) e h same unused = same-Once db after same h
  after-Once p id db (ok t, after) e h same unused =
      create-Once p after (same-Once db after same h) (λ j k.
        let one_code : id ≡ j = cc in
        subst (λ i. length (keep (uses_promo p.user_id i) after.payments) ≡ 0) one_code
          (rw same (unused refl)))

  code-Once :
      (now : ℕ) (p : Payment) (code : Option ℕ) (db : Db)
      → p.promo_code_id ≡ code
      → IsOncePerUser db
      → IsOncePerUser ((redeem_if faults now p.user_id code >> create go faults p) db).1
  unfolding redeem_if
  code-Once now p none db e h = create-Once p db h (λ id k. cc)
  code-Once now p (some id) db e h =
      after-Once p id db (redeem faults now p.user_id id db) e h
        (redeem-payments now p.user_id id db) (redeem-unused now p.user_id id db)

  insert_body-Once :
      (now : ℕ) (p : Payment) (db : Db)
      → IsOncePerUser db
      → IsOncePerUser (insert_body go faults now p db).1
  unfolding insert_body
  insert_body-Once now p db h = code-Once now p p.promo_code_id db refl h

-- If each user has at most one payment for each promo code that is completed or waits for the card,
-- then the same holds after a payment has been created or refused, whatever the pricing engine
-- answers and whichever statements the driver refuses.
pub create_payment-IsOncePerUser :
    (engine : Option PricingEngine) (go : GoLib) (clock : Clock) (faults : Faults)
    (req : CreatePaymentRequest) (db : Db)
    → IsOncePerUser db
    → IsOncePerUser (create_payment engine go clock faults req db).1
unfolding create_payment
create_payment-IsOncePerUser engine go clock faults req db =
    valid-P engine go clock faults IsOncePerUser (insert_body-Once go faults) req
      (invalid_request req) db
