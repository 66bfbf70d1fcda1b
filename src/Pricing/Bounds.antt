-- ===== src/Pricing/Bounds.antt =====
-- The price that the pricing plugin returns, against the two discounted prices and the base.
use xraytool_go.Prelude.{ℕ, ◌-◌, ◌*◌, ◌/◌, ◌≤◌, ◌≡◌, ap, Option, none, some, arith}
use xraytool_go.Prelude.Int.{ℤ, pos, negsuc, ◌≤ℤ◌, quot, mul64-pos, sub64-pos}
use xraytool_go.GoLib.{GoLib}
use xraytool_go.Result.{ok}
use xraytool_go.PluginApi.{Plan, PromoCode, PricingRequest, PricingResult}
use xraytool_go.Pricing.Default.{
  calculate_price, base_amount, eligible_promo, plan_result, global_price, promo_price, discounted,
  current_time, priced,
}

-- A percentage of the kind that the administration accepts.
abbrev pub IsPercent : ℤ → Type 0
IsPercent p = (pos 0 ≤ℤ p) × (p ≤ℤ pos 100)

-- An amount whose hundredfold is still an int64.
abbrev pub IsAmount : ℤ → Type 0
IsAmount a = (pos 0 ≤ℤ a) × (a ≤ℤ pos 92233720368547758)

abbrev pub PromoInRange : Option PromoCode → Type 0
PromoInRange none = Unit
PromoInRange (some promo) = IsPercent promo.discount_percent

share-le : (b p : ℕ) → p ≤ 100 → b * p / 100 ≤ b
share-le b p h = let bound : b * p ≤ b * 100 = grind arith in omega arith

discounted-pos :
    (b p : ℕ) → b ≤ 92233720368547758 → p ≤ 100 → discounted (pos b) (pos p) ≡ pos (b - b * p / 100)
unfolding quot
discounted-pos b p hb hp =
    let bound : b * p ≤ b * 100 = grind arith in
    rw (mul64-pos b p (omega arith)) (sub64-pos b (b * p / 100) (share-le b p hp) (omega arith))

discounted_bounds :
    (a p : ℤ) → IsAmount a → IsPercent p → (pos 0 ≤ℤ discounted a p) × (discounted a p ≤ℤ a)
discounted_bounds (pos b) (pos p) ha hp =
    rw (discounted-pos b p (omega (arith, ha.1)) (omega (arith, hp.1))) (omega arith, omega arith)
discounted_bounds (pos b) (negsuc p) ha hp = absurd (omega (arith, hp.0))
discounted_bounds (negsuc b) p ha hp = absurd (omega (arith, ha.0))

module _ (base : ℤ) (plan : Plan) (a : IsAmount base) where
  global_bounds :
      IsPercent plan.global_discount_percent
      → (pos 0 ≤ℤ global_price base plan) × (global_price base plan ≤ℤ base)
  unfolding global_price
  global_bounds p = ground (arith, discounted_bounds base plan.global_discount_percent a p)

  promo_bounds :
      (promo : Option PromoCode)
      → PromoInRange promo
      → (pos 0 ≤ℤ promo_price base promo) × (promo_price base promo ≤ℤ base)
  unfolding promo_price
  promo_bounds none p = (a.0, omega arith)
  promo_bounds (some promo) p = discounted_bounds base promo.discount_percent a p

  result_bounds :
      (promo : Option PromoCode)
      → IsPercent plan.global_discount_percent
      → PromoInRange promo
      → let r = plan_result base plan promo in
        (pos 0 ≤ℤ r.final_price)
        × (r.final_price ≤ℤ base)
        × (r.final_price ≤ℤ global_price base plan)
        × (r.final_price ≤ℤ promo_price base promo)
  result_bounds promo g p = ground (arith, global_bounds g, promo_bounds promo p)

-- For a plan whose base amount is at least 0 and has a hundredfold within an int64, and with
-- percentages between 0 and 100, the plugin returns a price: at least 0, at most the base amount,
-- and at most each of the two discounted prices.
pub calculate_price_bounds :
    (go : GoLib) (system_now : ℕ) (req : PricingRequest) (plan : Plan)
    → req.plan ≡ some plan
    → IsAmount (base_amount go req plan (current_time system_now req))
    → IsPercent plan.global_discount_percent
    → PromoInRange (eligible_promo go req (current_time system_now req))
    → let base = base_amount go req plan (current_time system_now req) in
      let promo = eligible_promo go req (current_time system_now req) in
      (r : PricingResult) × (calculate_price go system_now req ≡ ok r)
      × (pos 0 ≤ℤ r.final_price)
      × (r.final_price ≤ℤ base)
      × (r.final_price ≤ℤ global_price base plan)
      × (r.final_price ≤ℤ promo_price base promo)
unfolding calculate_price
calculate_price_bounds go system_now req plan e a g p =
    let now = current_time system_now req in
    let base = base_amount go req plan now in
    let promo = eligible_promo go req now in
    let bounds = result_bounds base plan a promo g p in
    (plan_result base plan promo, ap (priced go req now) e, bounds.0, bounds.1, bounds.2, bounds.3)
