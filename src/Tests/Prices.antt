-- ===== src/Tests/Prices.antt =====
-- Prices of the small database's plan.
use xraytool_go.Prelude.{◌≡◌, refl, some, none, false, arith}
use xraytool_go.Prelude.Int.{pos, ◌≤ℤ◌, add64, mul64, sub64, wrap64, ◌+ℤ◌, ◌-ℤ◌, ◌*ℤ◌}
use xraytool_go.Result.{ok}
use xraytool_go.PluginApi.{PricingRequest, PricingResult, plan_snapshot, promo_snapshot}
use xraytool_go.Database.Subscriptions.Renew.{no_faults}
use xraytool_go.Pricing.Default.{
  calculate_price, base_amount, eligible_promo, global_price, promo_price,
}
use xraytool_go.Pricing.Bounds.{calculate_price_bounds, PromoInRange, IsAmount}
use xraytool_go.Pricing.Legacy.{calculate_price_with_engine, calculate_price_legacy}
use xraytool_go.Pricing.Parity.{with_engine-eq-legacy}
use xraytool_go.Tests.Data.{go, db, monthly, spring, plan_request}

with_engine-eq-legacy_example :
    calculate_price_with_engine (calculate_price go 1000) go 1000 no_faults db "anna" plan_request
    ≡ calculate_price_legacy go (λ _. 1000) no_faults db "anna" plan_request
with_engine-eq-legacy_example =
    with_engine-eq-legacy go no_faults db "anna" plan_request 1000 1000 (omega arith)

-- The same plan with the promo code, as the plugin is asked for it.
abbrev snapshot_request : PricingRequest
snapshot_request = record {
  user_id = "anna";
  plan_id = 5;
  promo_code = "SPRING";
  extra_devices = pos 1;
  is_upgrade = false;
  amount = pos 0;
  plan = some (plan_snapshot monthly);
  current_subscription = none;
  max_devices = pos 4;
  platform = "web";
  promo = some (promo_snapshot spring);
  now = 1000;
}

snapshot_base : base_amount go snapshot_request (plan_snapshot monthly) 1000 ≡ pos 240
unfolding base_amount add64 wrap64 ◌+ℤ◌ mul64 ◌*ℤ◌ sub64 ◌-ℤ◌
snapshot_base = refl

snapshot-IsAmount : IsAmount (base_amount go snapshot_request (plan_snapshot monthly) 1000)
snapshot-IsAmount = rw snapshot_base (omega arith, omega arith)

spring-PromoInRange : PromoInRange (eligible_promo go snapshot_request 1000)
unfolding eligible_promo
spring-PromoInRange = (omega arith, omega arith)

calculate_price_bounds_example :
    let plan = plan_snapshot monthly in
    let base = base_amount go snapshot_request plan 1000 in
    let promo = eligible_promo go snapshot_request 1000 in
    (r : PricingResult) × (calculate_price go 1000 snapshot_request ≡ ok r)
    × (pos 0 ≤ℤ r.final_price)
    × (r.final_price ≤ℤ base)
    × (r.final_price ≤ℤ global_price base plan)
    × (r.final_price ≤ℤ promo_price base promo)
calculate_price_bounds_example =
    calculate_price_bounds go 1000 snapshot_request (plan_snapshot monthly) refl snapshot-IsAmount
      (omega arith, omega arith) spring-PromoInRange
