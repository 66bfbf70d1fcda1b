-- ===== src/Pricing/Legacy.antt =====
-- internal/plugins/billing/service.go: calculatePriceLegacy and calculatePriceWithEngine.
use xraytool_go.Prelude.{
  ℕ, Bool, true, false, ◌&&◌, ◌||◌, Option, none, some, String, ltb, str_eq, if◌then◌else◌,
}
use xraytool_go.Prelude.Int.{ℤ, pos, ltb_ℤ, add64, sub64, mul64, quot}
use xraytool_go.GoLib.{GoLib, Clock, time_sub}
use xraytool_go.Result.{Result, ok, err, invalid_plan_id}
use xraytool_go.Domain.{Plan, PromoCode, Subscription, Metadata}
use xraytool_go.Database.{Db, Faults}
use xraytool_go.Database.Promos.{find_plan_by_id, find_by_code}
use xraytool_go.Database.Subscriptions.{find_latest_by_user_id}
use xraytool_go.PluginApi.{
  PricingRequest, PricingResult, plan_from_domain, promo_from_domain, subscription_from_domain,
}

pub record CreatePaymentRequest : Type 0 where
  pub telegram_id : ℤ
  pub email : String
  pub amount : ℤ
  pub payment_type : String
  pub method : String
  pub external_id : String
  pub plan_id : Option ℕ
  pub max_devices : ℤ
  pub promo_code : String
  pub platform : String
  pub custom_data : Metadata

-- The answer to a lookup whose error the caller drops.
abbrev pub found {ℓ} : {A : Type ℓ} → Result A → Option A
found (ok a) = some a
found (err _) = none

abbrev pub find_promo : GoLib → Faults → Db → CreatePaymentRequest → Option PromoCode
find_promo go faults db req =
    found (find_by_code faults (go.to_upper (go.trim_space req.promo_code)) db).0

-- The months that are charged for a device upgrade, by the clock of the two calls in the branch.
abbrev upgrade_cost : GoLib → Clock → ℤ → Subscription → ℕ → ℤ → ℤ
upgrade_cost go clock cost sub ends requested =
    let days = go.div_float (go.hours (time_sub ends (clock 1))) (go.float_of_int (pos 24)) in
    if go.lt_float (go.float_of_int (pos 7)) days
    then (let months = go.int_of_float (go.ceil (go.div_float days (go.float_of_int (pos 30)))) in
        let current = if ltb_ℤ sub.max_devices (pos 3) then pos 3 else sub.max_devices in
        let slots = sub64 requested current in
        if ltb_ℤ (pos 0) slots then add64 cost (mul64 (mul64 slots (pos 40)) months) else cost)
    else cost

abbrev pub devices_cost : GoLib → Clock → CreatePaymentRequest → Plan → Option Subscription → ℤ
devices_cost go clock req plan sub =
    let extra =
      if ltb_ℤ (pos 3) req.max_devices
      then mul64 (mul64 (sub64 req.max_devices (pos 3)) (pos 40)) plan.months
      else pos 0 in
    elim sub [
      | none ↦ extra
      | some s ↦ elim s.ends_at [
        | none ↦ extra
        | some ends ↦
            if ltb (clock 0) ends && ltb_ℤ s.max_devices req.max_devices
            then upgrade_cost go clock extra s ends req.max_devices
            else extra
      ]
    ]

-- The promo branch: active, not expired, and for every platform or this one.
abbrev pub applies : GoLib → ℕ → CreatePaymentRequest → PromoCode → Bool
applies go now req promo =
    promo.is_active
    && elim promo.expires_at [ none ↦ true | some t ↦ ltb now t ]
    && (str_eq promo.target_platform "all"
        || str_eq promo.target_platform (go.to_lower (go.trim_space req.platform)))

abbrev with_promo : Bool → ℤ → PromoCode → ℤ × Option ℕ
with_promo true base promo =
    (sub64 base (quot (mul64 base promo.discount_percent) 100), some promo.id)
with_promo false base promo = (base, none)

abbrev pub promo_offer : GoLib → ℕ → CreatePaymentRequest → ℤ → Option PromoCode → ℤ × Option ℕ
promo_offer go now req base none = (base, none)
promo_offer go now req base (some promo) = with_promo (applies go now req promo) base promo

abbrev id_if : Bool → PromoCode → Option ℕ
id_if true promo = some promo.id
id_if false _ = none

abbrev pub recorded_promo : GoLib → ℕ → CreatePaymentRequest → Option PromoCode → Option ℕ
recorded_promo go now req none = none
recorded_promo go now req (some promo) = id_if (applies go now req promo) promo

abbrev pub cheaper : ℤ → ℤ × Option ℕ → ℤ × Option ℕ
cheaper global (price, promo_id) = if ltb_ℤ global price then (global, none) else (price, promo_id)

unfoldable pub legacy_plan_price :
    GoLib → Clock → Faults → Db → String → CreatePaymentRequest → Plan → ℤ × Option ℕ
legacy_plan_price go clock faults db user_id req plan =
    let sub = found (find_latest_by_user_id faults user_id db).0 in
    let base = add64 plan.base_price (devices_cost go clock req plan sub) in
    let global =
      if ltb_ℤ (pos 0) plan.global_discount_percent
      then sub64 base (quot (mul64 base plan.global_discount_percent) 100)
      else base in
    let offer =
      if str_eq req.promo_code ""
      then (base, none)
      else promo_offer go (clock 2) req base (find_promo go faults db req) in
    cheaper global offer

abbrev pub legacy_with_plan :
    GoLib
    → Clock
    → Faults
    → Db
    → String
    → CreatePaymentRequest
    → Result Plan
    → Result (ℤ × Option ℕ)
legacy_with_plan go clock faults db user_id req (err _) = err invalid_plan_id
legacy_with_plan go clock faults db user_id req (ok plan) =
    ok (legacy_plan_price go clock faults db user_id req plan)

abbrev pub legacy_price :
    GoLib → Clock → Faults → Db → String → CreatePaymentRequest → Option ℕ → Result (ℤ × Option ℕ)
legacy_price go clock faults db user_id req none = ok (
  req.amount,
  if str_eq req.promo_code ""
      then none
      else recorded_promo go (clock 3) req (find_promo go faults db req),
)
legacy_price go clock faults db user_id req (some plan_id) =
    legacy_with_plan go clock faults db user_id req (find_plan_by_id faults plan_id db).0

-- The price, and the promo code that it uses up. `clock` is read at three places with a plan, and
-- at the fourth without one.
unfoldable pub calculate_price_legacy :
    GoLib → Clock → Faults → Db → String → CreatePaymentRequest → Result (ℤ × Option ℕ)
calculate_price_legacy go clock faults db user_id req =
    legacy_price go clock faults db user_id req req.plan_id

-- The pricing engine, another plugin.
abbrev pub PricingEngine : Type 0
PricingEngine = PricingRequest → Result PricingResult

abbrev pub is_upgrade : ℕ → ℤ → Option Subscription → Bool
is_upgrade now requested none = false
is_upgrade now requested (some s) = elim s.ends_at [
  | none ↦ false
  | some ends ↦ ltb now ends && ltb_ℤ s.max_devices requested
]

-- max(req.MaxDevices-3, 0)
abbrev pub extra_devices : ℤ → ℤ
extra_devices n = let d = sub64 n (pos 3) in if ltb_ℤ d (pos 0) then pos 0 else d

abbrev pub id_or_zero : Option ℕ → ℕ
id_or_zero none = 0
id_or_zero (some id) = id

-- Without a plan the subscription is not looked up.
abbrev current_sub : Faults → Db → String → Option Plan → Option Subscription
current_sub faults db user_id none = none
current_sub faults db user_id (some _) = found (find_latest_by_user_id faults user_id db).0

-- The request that carries the snapshots.
abbrev pub request_of :
    ℕ
    → String
    → CreatePaymentRequest
    → Option ℕ
    → Option Plan
    → Option Subscription
    → Option PromoCode
    → PricingRequest
request_of now user_id req plan_id plan sub promo = record {
  user_id = user_id;
  plan_id = id_or_zero plan_id;
  promo_code = req.promo_code;
  extra_devices = extra_devices req.max_devices;
  is_upgrade = is_upgrade now req.max_devices sub;
  amount = req.amount;
  plan = plan_from_domain plan;
  current_subscription = subscription_from_domain sub;
  max_devices = req.max_devices;
  platform = req.platform;
  promo = promo_from_domain promo;
  now = now;
}

-- A promo code is looked up only where the request names one.
abbrev pub named_promo : GoLib → Faults → Db → CreatePaymentRequest → Option PromoCode
named_promo go faults db req =
    if str_eq req.promo_code "" then none else find_promo go faults db req

unfoldable pub engine_request :
    GoLib
    → ℕ
    → Faults
    → Db
    → String
    → CreatePaymentRequest
    → Option ℕ
    → Option Plan
    → PricingRequest
engine_request go now faults db user_id req plan_id plan =
    request_of now user_id req plan_id plan (current_sub faults db user_id plan)
      (named_promo go faults db req)

abbrev pub price_and_promo : Result PricingResult → Result (ℤ × Option ℕ)
price_and_promo (ok r) = ok (r.final_price, r.applied_promo_id)
price_and_promo (err e) = err e

module _ (engine : PricingEngine) (go : GoLib) (now : ℕ) (faults : Faults) (db : Db) where
  abbrev pub engine_with_plan :
      String → CreatePaymentRequest → ℕ → Result Plan → Result (ℤ × Option ℕ)
  engine_with_plan user_id req plan_id (err _) = err invalid_plan_id
  engine_with_plan user_id req plan_id (ok plan) =
      price_and_promo
        (engine (engine_request go now faults db user_id req (some plan_id) (some plan)))

  abbrev pub engine_price : String → CreatePaymentRequest → Option ℕ → Result (ℤ × Option ℕ)
  engine_price user_id req none =
      price_and_promo (engine (engine_request go now faults db user_id req none none))
  engine_price user_id req (some plan_id) =
      engine_with_plan user_id req plan_id (find_plan_by_id faults plan_id db).0

  unfoldable pub calculate_price_with_engine : String → CreatePaymentRequest → Result (ℤ × Option ℕ)
  calculate_price_with_engine user_id req = engine_price user_id req req.plan_id

-- calculatePaymentPrice: the engine if one is installed.
unfoldable pub calculate_payment_price :
    Option PricingEngine
    → GoLib
    → Clock
    → Faults
    → Db
    → String
    → CreatePaymentRequest
    → Result (ℤ × Option ℕ)
calculate_payment_price none go clock faults db user_id req =
    calculate_price_legacy go clock faults db user_id req
calculate_payment_price (some engine) go clock faults db user_id req =
    calculate_price_with_engine engine go (clock 0) faults db user_id req
