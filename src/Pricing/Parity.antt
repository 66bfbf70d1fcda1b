-- ===== src/Pricing/Parity.antt =====
-- The pricing plugin, internal/plugins/pricing_default, against the billing service's own calculation.
use xraytool_go.Prelude.{
  ℕ, zero, suc, ◌<◌, ◌&&◌, ◌≡◌, refl, ap, ◌∙◌, inl, inr, Option, none, some, String, arith,
  Bool-cases, ◌==◌, str_eq, if◌then◌else◌,
}
use xraytool_go.Prelude.Int.{ℤ, pos, negsuc, ltb_ℤ, eqb_ℤ, add64, sub64, wrap64, ◌-ℤ◌}
use xraytool_go.GoLib.{GoLib}
use xraytool_go.Result.{Result, ok, err}
use xraytool_go.Domain.{Plan, Subscription, PromoCode}
use xraytool_go.PluginApi.{plan_snapshot}
use xraytool_go.Database.{Db, Faults}
use xraytool_go.Database.Promos.{find_plan_by_id}
use xraytool_go.Database.Subscriptions.{find_latest_by_user_id}
use xraytool_go.Pricing.Default.{
  calculate_price, base_amount, eligible_promo, plan_result, global_price, promo_price,
  promo_result,
}
use xraytool_go.Pricing.Legacy.{
  CreatePaymentRequest, calculate_price_legacy, calculate_price_with_engine, request_of,
  devices_cost, extra_devices, legacy_plan_price, cheaper, promo_offer, applies, recorded_promo,
  find_promo, named_promo, price_and_promo, engine_request, engine_with_plan, engine_price,
  legacy_with_plan, legacy_price, found,
}

-- The older field is read only where the device limit is 0, and then it is 0 too.
requested_lem :
    (n : ℤ)
    → (if eqb_ℤ n (pos 0) && ltb_ℤ (pos 0) (extra_devices n)
        then add64 (pos 3) (extra_devices n)
        else n)
      ≡ n
requested_lem (pos zero) = unfold sub64 wrap64 ◌-ℤ◌ in refl
requested_lem (pos (suc n)) = ground arith
requested_lem (negsuc n) = ground arith

module _ (go : GoLib) (now : ℕ) (user_id : String) (req : CreatePaymentRequest) (plan : Plan)
    (promo : Option PromoCode) (plan_id : Option ℕ) where
  base-eq :
      (sub : Option Subscription)
      → base_amount go
          (request_of now user_id req plan_id (some plan) sub promo)
          (plan_snapshot plan)
          now
        ≡ add64 plan.base_price (devices_cost go (λ _. now) req plan sub)
  unfolding base_amount
  base-eq none = rw (requested_lem req.max_devices) refl
  base-eq (some sub) = rw (requested_lem req.max_devices) refl

module _ (go : GoLib) (now : ℕ) (user_id : String) (req : CreatePaymentRequest) (plan : Plan)
    (sub : Option Subscription) (base : ℤ) (plan_id : Option ℕ) where
  offer-eq :
      (promo : Option PromoCode)
      → let r =
          plan_result base
            (plan_snapshot plan)
            (eligible_promo go (request_of now user_id req plan_id (some plan) sub promo) now) in
        (r.final_price, r.applied_promo_id)
        ≡ cheaper
            (global_price base (plan_snapshot plan))
            (if str_eq req.promo_code "" then (base, none) else promo_offer go now req base promo)
  unfolding eligible_promo global_price promo_price
  offer-eq none = elim (Bool-cases (str_eq req.promo_code "")) [
    | inl e ↦ rw e (ground arith)
    | inr e ↦ rw e (ground arith)
  ]
  offer-eq (some promo) = elim (Bool-cases (str_eq req.promo_code "")) [
    | inl e ↦ rw e (ground arith)
    | inr e ↦ rw e (elim (Bool-cases (applies go now req promo)) [
      | inl h ↦ rw h (ground arith)
      | inr h ↦ rw h (ground arith)
    ])
  ]

-- A payment that names no plan: the amount is kept and an eligible promo is recorded.
module _ (go : GoLib) (now : ℕ) (req : CreatePaymentRequest) where
  recorded-eq :
      (user_id : String) (promo : Option PromoCode)
      → (promo_result req.amount (pos 0) (
          eligible_promo go (request_of now user_id req none none none promo) now)).applied_promo_id
        ≡ (if str_eq req.promo_code "" then none else recorded_promo go now req promo)
  unfolding eligible_promo
  recorded-eq user_id none = elim (Bool-cases (str_eq req.promo_code "")) [
    | inl e ↦ rw e
    | inr e ↦ rw e
  ]
  recorded-eq user_id (some promo) = elim (Bool-cases (str_eq req.promo_code "")) [
    | inl e ↦ rw e
    | inr e ↦ rw e (elim (Bool-cases (applies go now req promo)) [ inl h ↦ rw h | inr h ↦ rw h ])
  ]

  price-eq_none :
      (user_id : String) (promo : Option PromoCode)
      → (promo_result req.amount
          (pos 0)
          (eligible_promo go (request_of now user_id req none none none promo) now)).final_price
        ≡ req.amount
  unfolding eligible_promo
  price-eq_none user_id promo = ground arith

module _ (go : GoLib) (faults : Faults) (db : Db) (user_id : String) (req : CreatePaymentRequest)
    (now system_now : ℕ) (h : 0 < now) where
  now_lem : (if now == 0 then system_now else now) ≡ now
  now_lem = ground arith

  snapshot-eq :
      (plan_id : Option ℕ) (plan : Plan) (sub : Option Subscription) (promo : Option PromoCode)
      → let r = request_of now user_id req plan_id (some plan) sub promo in
        calculate_price go system_now r
        ≡ ok (
            plan_result
              (base_amount go r (plan_snapshot plan) now)
              (plan_snapshot plan)
              (eligible_promo go r now))
  unfolding calculate_price
  snapshot-eq plan_id plan sub promo = rw now_lem

  no_plan-eq :
      (promo : Option PromoCode)
      → let r = request_of now user_id req none none none promo in
        calculate_price go system_now r
        ≡ ok (promo_result req.amount (pos 0) (eligible_promo go r now))
  unfolding calculate_price
  no_plan-eq promo = rw now_lem

  plan-eq :
      (plan_id : ℕ) (plan : Plan)
      → price_and_promo (
          calculate_price go system_now
            (engine_request go now faults db user_id req (some plan_id) (some plan)))
        ≡ ok (legacy_plan_price go (λ _. now) faults db user_id req plan)
  unfolding engine_request legacy_plan_price global_price
  plan-eq plan_id plan = rw snapshot-eq (
      ap ok (
        offer-eq go now user_id req plan (found (find_latest_by_user_id faults user_id db).0) _
          (some plan_id) (named_promo go faults db req)
        ∙ rw base-eq
            (elim (Bool-cases (str_eq req.promo_code "")) [ inl e ↦ rw e | inr e ↦ rw e ])))

  amount-eq :
      price_and_promo
        (calculate_price go system_now (engine_request go now faults db user_id req none none))
      ≡ ok (
        req.amount,
        if str_eq req.promo_code ""
            then none
            else recorded_promo go now req (find_promo go faults db req),
      )
  unfolding engine_request
  amount-eq = rw no_plan-eq (
      ap ok (
        (λ i. (price-eq_none go now req user_id promo i, recorded-eq go now req user_id promo i))
        ∙ elim (Bool-cases (str_eq req.promo_code "")) [ inl e ↦ rw e | inr e ↦ rw e ]))
    where
      promo : Option PromoCode
      promo = named_promo go faults db req

  by_row :
      (plan_id : ℕ) (row : Result Plan)
      → engine_with_plan (calculate_price go system_now) go now faults db user_id req plan_id row
        ≡ legacy_with_plan go (λ _. now) faults db user_id req row
  by_row plan_id (ok plan) = plan-eq plan_id plan
  by_row plan_id (err e) = refl

  by_plan :
      (plan_id : Option ℕ)
      → engine_price (calculate_price go system_now) go now faults db user_id req plan_id
        ≡ legacy_price go (λ _. now) faults db user_id req plan_id
  by_plan none = amount-eq
  by_plan (some plan_id) = by_row plan_id (find_plan_by_id faults plan_id db).0

  -- With a pricing plugin installed the billing service charges the price, uses up the promo code
  -- and reports the error that it does with its own older calculation, for every request and
  -- database, if each reading of the clock in the call gives the same instant, which is not the
  -- zero instant.
  pub with_engine-eq-legacy :
      calculate_price_with_engine (calculate_price go system_now) go now faults db user_id req
      ≡ calculate_price_legacy go (λ _. now) faults db user_id req
  unfolding calculate_price_with_engine calculate_price_legacy
  with_engine-eq-legacy = by_plan req.plan_id
