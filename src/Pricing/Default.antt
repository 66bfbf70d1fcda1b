-- ===== src/Pricing/Default.antt =====
-- internal/plugins/pricing_default/plugin.go: CalculatePrice and eligiblePromo.
use xraytool_go.Prelude.{
  ℕ, Bool, true, false, ◌&&◌, ◌||◌, not, Option, none, some, String, ltb, ◌==◌, str_eq,
  if◌then◌else◌,
}
use xraytool_go.Prelude.Int.{ℤ, pos, ltb_ℤ, eqb_ℤ, add64, sub64, mul64, quot}
use xraytool_go.GoLib.{GoLib, time_sub}
use xraytool_go.Result.{Result, ok, err, plan_snapshot_required}
use xraytool_go.PluginApi.{Plan, PromoCode, Subscription, PricingRequest, PricingResult}

-- `!promo.IsActive || (promo.ExpiresAt != nil && !now.Before(*promo.ExpiresAt))`, negated.
abbrev is_current : PromoCode → ℕ → Bool
is_current promo now = promo.is_active && elim promo.expires_at [ none ↦ true | some t ↦ ltb now t ]

abbrev is_for : GoLib → String → PromoCode → Bool
is_for go platform promo =
    str_eq promo.target_platform "all"
    || str_eq promo.target_platform (go.to_lower (go.trim_space platform))

abbrev allowed : GoLib → PricingRequest → ℕ → PromoCode → Bool
allowed go req now promo = is_current promo now && is_for go req.platform promo

abbrev filtered : Bool → PromoCode → Option PromoCode
filtered true promo = some promo
filtered false _ = none

unfoldable pub eligible_promo : GoLib → PricingRequest → ℕ → Option PromoCode
eligible_promo go req now =
    if str_eq req.promo_code ""
    then none
    else elim req.promo [ none ↦ none | some promo ↦ filtered (allowed go req now promo) promo ]

-- `baseAmount - (baseAmount * percent / 100)`
abbrev pub discounted : ℤ → ℤ → ℤ
discounted base percent = sub64 base (quot (mul64 base percent) 100)

abbrev pub promo_result : ℤ → ℤ → Option PromoCode → PricingResult
promo_result price discount none = record {
  final_price = price;
  discount_percent = discount;
  applied_promo = "";
  applied_promo_id = none;
}
promo_result price discount (some promo) = record {
  final_price = price;
  discount_percent = discount;
  applied_promo = promo.code;
  applied_promo_id = some promo.id;
}

abbrev pub requested_max_devices : PricingRequest → ℤ
requested_max_devices req =
    if eqb_ℤ req.max_devices (pos 0) && ltb_ℤ (pos 0) req.extra_devices
    then add64 (pos 3) req.extra_devices
    else req.max_devices

abbrev at_least_three : ℤ → ℤ
at_least_three n = if ltb_ℤ n (pos 3) then pos 3 else n

-- `remainingDays`, a float64.
abbrev remaining_days : GoLib → ℕ → ℕ → ℕ
remaining_days go ends now = go.div_float (go.hours (time_sub ends now)) (go.float_of_int (pos 24))

-- The charge for new device slots over the months that are left, added to the cost so far.
abbrev with_upgrade : GoLib → ℤ → ℤ → ℤ → ℕ → ℕ → ℤ
with_upgrade go cost requested current ends now =
    if go.lt_float (go.float_of_int (pos 7)) (remaining_days go ends now)
    then (let months =
          go.int_of_float
            (go.ceil (go.div_float (remaining_days go ends now) (go.float_of_int (pos 30)))) in
        let slots = sub64 requested (at_least_three current) in
        if ltb_ℤ (pos 0) slots then add64 cost (mul64 (mul64 slots (pos 40)) months) else cost)
    else cost

abbrev upgraded : GoLib → ℤ → ℤ → Option Subscription → ℕ → ℤ
upgraded go cost requested none now = cost
upgraded go cost requested (some sub) now = elim sub.ends_at [
  | none ↦ cost
  | some ends ↦
      if ltb now ends && ltb_ℤ sub.max_devices requested
      then with_upgrade go cost requested sub.max_devices ends now
      else cost
]

unfoldable pub base_amount : GoLib → PricingRequest → Plan → ℕ → ℤ
base_amount go req plan now =
    let requested = requested_max_devices req in
    let extra =
      if ltb_ℤ (pos 3) requested
      then mul64 (mul64 (sub64 requested (pos 3)) (pos 40)) plan.months
      else pos 0 in
    add64 plan.base_price (upgraded go extra requested req.current_subscription now)

unfoldable pub global_price : ℤ → Plan → ℤ
global_price base plan =
    if ltb_ℤ (pos 0) plan.global_discount_percent
    then discounted base plan.global_discount_percent
    else base

unfoldable pub promo_price : ℤ → Option PromoCode → ℤ
promo_price base none = base
promo_price base (some promo) = discounted base promo.discount_percent

abbrev promo_discount : Option PromoCode → ℤ
promo_discount none = pos 0
promo_discount (some promo) = promo.discount_percent

-- The cheaper of the two discounts; the promo wins a tie.
abbrev pub plan_result : ℤ → Plan → Option PromoCode → PricingResult
plan_result base plan promo =
    if ltb_ℤ (global_price base plan) (promo_price base promo)
    then promo_result (global_price base plan) plan.global_discount_percent none
    else promo_result (promo_price base promo) (promo_discount promo) promo

abbrev pub current_time : ℕ → PricingRequest → ℕ
current_time system_now req = if req.now == 0 then system_now else req.now

abbrev pub priced : GoLib → PricingRequest → ℕ → Option Plan → Result PricingResult
priced go req now none =
    if not (req.plan_id == 0)
    then err plan_snapshot_required
    else ok (promo_result req.amount (pos 0) (eligible_promo go req now))
priced go req now (some plan) =
    ok (plan_result (base_amount go req plan now) plan (eligible_promo go req now))

unfoldable pub calculate_price : GoLib → ℕ → PricingRequest → Result PricingResult
calculate_price go system_now req = priced go req (current_time system_now req) req.plan
