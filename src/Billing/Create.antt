-- ===== src/Billing/Create.antt =====
-- internal/plugins/billing/service.go: CreatePayment.
pub mod Frame
pub mod Limits
pub mod Once
use xraytool_go.Prelude.{
  ℕ, ◌<◌, Bool, true, false, ◌&&◌, ◌||◌, not, Option, none, some, List, [], ◌∷◌, String, ltb, ◌==◌,
  str_eq, if◌then◌else◌,
}
use xraytool_go.Prelude.Int.{ℤ, pos, ltb_ℤ, leb_ℤ, eqb_ℤ}
use xraytool_go.GoLib.{GoLib, Clock}
use xraytool_go.Result.{
  Error, Result, ok, err, message, user_not_found, promo_limit_reached, promo_already_used,
}
use xraytool_go.Domain.{User, Payment, PromoCode, Metadata, Value, int_value, text_value, set_value}
use xraytool_go.Database.{Db, Faults, commit, transaction, ◌>>=◌, ◌>>◌, pure, lift}
use xraytool_go.Database.Users.{find_by_telegram_id, find_by_web_id}
use xraytool_go.Database.Promos
use xraytool_go.Database.Promos.{increment_uses}
use xraytool_go.Database.Payments.{create, count_by_user_and_promo}
use xraytool_go.Pricing.Legacy.{CreatePaymentRequest, PricingEngine, calculate_payment_price}

-- The checks of the request, in their order.
unfoldable pub invalid_request : CreatePaymentRequest → Option Error
invalid_request req =
    if eqb_ℤ req.telegram_id (pos 0) && str_eq req.email ""
    then some (message "telegram_id or email is required")
    else (if elim req.plan_id [ none ↦ leb_ℤ req.amount (pos 0) | some _ ↦ false ]
        then some (message "amount must be positive if plan_id is missing")
        else (if str_eq req.payment_type ""
            then some (message "payment_type is required")
            else none))

find_payer : GoLib → Faults → CreatePaymentRequest → Db → Result User × Db
find_payer go faults req db =
    if not (eqb_ℤ req.telegram_id (pos 0))
    then find_by_telegram_id go faults req.telegram_id (go.format_int req.telegram_id) db
    else find_by_web_id faults req.email db

abbrev merged : Metadata → Metadata → Metadata
merged known [] = known
merged known ((k, v) ∷ more) = merged (set_value k v known) more

-- The custom data of the payment; the keys of the request come last and win.
unfoldable pub custom_data_of : CreatePaymentRequest → Metadata
custom_data_of req =
    let base : Metadata = ("telegram_id", int_value req.telegram_id) ∷ [] in
    let named =
      if str_eq req.platform ""
      then base
      else set_value "platform" (text_value req.platform) base in
    let limited =
      if ltb_ℤ (pos 0) req.max_devices
      then set_value "max_devices" (int_value req.max_devices) named
      else named in
    merged limited req.custom_data

abbrev external_id_of : CreatePaymentRequest → Option String
external_id_of req = if str_eq req.external_id "" then none else some req.external_id

unfoldable pub payment_for : CreatePaymentRequest → String → ℤ → Option ℕ → ℕ → Payment
payment_for req user_id amount promo_id now = record {
  id = 0;
  user_id = user_id;
  amount = amount;
  status = "pending_card";
  payment_type = req.payment_type;
  method = req.method;
  external_id = external_id_of req;
  custom_data = custom_data_of req;
  plan_id = req.plan_id;
  promo_code_id = promo_id;
  created_at = now;
}

abbrev is_expired : ℕ → PromoCode → Bool
is_expired now promo = elim promo.expires_at [ none ↦ false | some t ↦ not (ltb now t) ]

abbrev or_not_found : Result PromoCode → Result PromoCode
or_not_found (ok promo) = ok promo
or_not_found (err _) = err (message "promo not found")

abbrev usable : ℕ → PromoCode → Result (Unit {0})
usable now promo =
    if not promo.is_active
    then err (message "promo inactive")
    else if is_expired now promo
    then err (message "promo expired")
    else ok tt

-- Without a limit the error of the increment is dropped.
unfoldable pub use_promo : Faults → ℕ → PromoCode → Db → Result (Unit {0}) × Db
use_promo faults promo_id promo db =
    if ltb_ℤ (pos 0) promo.max_uses
    then (increment_uses faults promo_id promo.max_uses >>= λ counted.
          if counted then pure tt else lift (err (message "promo limit")))
        db
    else (ok tt, (increment_uses faults promo_id (pos 0) db).1)

unfoldable pub redeem : Faults → ℕ → String → ℕ → Db → Result (Unit {0}) × Db
redeem faults now user_id promo_id = do
  promo ← λ db. (or_not_found (Promos.find_by_id faults promo_id db).0, db)
  lift (usable now promo)
  use_promo faults promo_id promo
  count ← count_by_user_and_promo faults user_id promo_id
  if ltb 0 count then lift (err (message "promo used by user")) else pure tt

unfoldable pub redeem_if : Faults → ℕ → String → Option ℕ → Db → Result (Unit {0}) × Db
redeem_if faults now user_id none = pure tt
redeem_if faults now user_id (some promo_id) = redeem faults now user_id promo_id

unfoldable pub insert_body : GoLib → Faults → ℕ → Payment → Db → Result Payment × Db
insert_body go faults now payment =
    redeem_if faults now payment.user_id payment.promo_code_id >> create go faults payment

-- The errors of the transaction, as the caller reads them off their texts.
abbrev is_stale : String → Bool
is_stale m = str_eq m "promo inactive" || str_eq m "promo expired" || str_eq m "promo not found"

unfoldable pub reported_error : Error → Error
reported_error (message m) =
    if str_eq m "promo limit"
    then promo_limit_reached
    else if str_eq m "promo used by user"
    then promo_already_used
    else if is_stale m
    then message "promo code is no longer valid"
    else message "failed to create payment"
reported_error _ = message "failed to create payment"

abbrev pub reported : Result Payment × Db → Result Payment × Db
reported (ok p, db) = (ok p, db)
reported (err e, db) = (err (reported_error e), db)

unfoldable pub insert_priced :
    GoLib
    → Clock
    → Faults
    → CreatePaymentRequest
    → String
    → Result (ℤ × Option ℕ)
    → Db
    → Result Payment × Db
insert_priced go clock faults req user_id (err e) db = (err e, db)
insert_priced go clock faults req user_id (ok (amount, promo_id)) db = reported (
    transaction (faults commit)
      (insert_body go faults (clock 4) (payment_for req user_id amount promo_id (clock 5))) db)

unfoldable pub create_for :
    Option PricingEngine
    → GoLib
    → Clock
    → Faults
    → CreatePaymentRequest
    → Result User
    → Db
    → Result Payment × Db
create_for engine go clock faults req (err _) db = (err user_not_found, db)
create_for engine go clock faults req (ok user) db =
    insert_priced go clock faults req user.id
      (calculate_payment_price engine go clock faults db user.id req) db

unfoldable pub create_valid :
    Option PricingEngine
    → GoLib
    → Clock
    → Faults
    → CreatePaymentRequest
    → Option Error
    → Db
    → Result Payment × Db
unfolding find_payer
create_valid engine go clock faults req (some e) db = (err e, db)
create_valid engine go clock faults req none db =
    create_for engine go clock faults req (find_payer go faults req db).0 db

unfoldable pub create_payment :
    Option PricingEngine → GoLib → Clock → Faults → CreatePaymentRequest → Db → Result Payment × Db
unfolding create_valid create_for insert_priced
create_payment engine go clock faults req =
    create_valid engine go clock faults req (invalid_request req)
