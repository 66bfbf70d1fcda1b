-- ===== src/PluginApi.antt =====
-- internal/pluginapi/pluginapi.go: the snapshots that a pricing engine is given, and its answer.
use xraytool_go.Prelude.{ℕ, Bool, Option, none, some, String}
use xraytool_go.Prelude.Int.{ℤ}
use xraytool_go.Domain
use xraytool_go.Domain.{Metadata}

pub record Plan : Type 0 where
  pub id : ℕ
  pub months : ℤ
  pub base_price : ℤ
  pub global_discount_percent : ℤ
  pub is_active : Bool

pub record PromoCode : Type 0 where
  pub id : ℕ
  pub code : String
  pub discount_percent : ℤ
  pub max_uses : ℤ
  pub uses_count : ℤ
  pub target_platform : String
  pub expires_at : Option ℕ
  pub is_active : Bool

pub record Subscription : Type 0 where
  pub id : String
  pub user_id : String
  pub email : String
  pub uuid : String
  pub status : String
  pub max_devices : ℤ
  pub ends_at : Option ℕ
  pub auto_renew : Bool
  pub metadata : Metadata
  pub created_at : ℕ
  pub updated_at : ℕ

pub record PricingRequest : Type 0 where
  pub user_id : String
  -- 0 where the request names no plan
  pub plan_id : ℕ
  pub promo_code : String
  pub extra_devices : ℤ
  pub is_upgrade : Bool
  pub amount : ℤ
  pub plan : Option Plan
  pub current_subscription : Option Subscription
  pub max_devices : ℤ
  pub platform : String
  pub promo : Option PromoCode
  -- 0 is the zero instant
  pub now : ℕ

pub record PricingResult : Type 0 where
  pub final_price : ℤ
  pub discount_percent : ℤ
  pub applied_promo : String
  pub applied_promo_id : Option ℕ

-- pricingPlanFromDomain, pricingPromoFromDomain and pricingSubscriptionFromDomain.
abbrev pub plan_snapshot : Domain.Plan → Plan
plan_snapshot p = record {
  id = p.id;
  months = p.months;
  base_price = p.base_price;
  global_discount_percent = p.global_discount_percent;
  is_active = p.is_active;
}

abbrev pub plan_from_domain : Option Domain.Plan → Option Plan
plan_from_domain none = none
plan_from_domain (some p) = some (plan_snapshot p)

abbrev pub promo_snapshot : Domain.PromoCode → PromoCode
promo_snapshot p = record {
  id = p.id;
  code = p.code;
  discount_percent = p.discount_percent;
  max_uses = p.max_uses;
  uses_count = p.uses_count;
  target_platform = p.target_platform;
  expires_at = p.expires_at;
  is_active = p.is_active;
}

abbrev pub promo_from_domain : Option Domain.PromoCode → Option PromoCode
promo_from_domain none = none
promo_from_domain (some p) = some (promo_snapshot p)

abbrev pub subscription_snapshot : Domain.Subscription → Subscription
subscription_snapshot s = record {
  id = s.id;
  user_id = s.user_id;
  email = s.email;
  uuid = s.uuid;
  status = s.status;
  max_devices = s.max_devices;
  ends_at = s.ends_at;
  auto_renew = s.auto_renew;
  metadata = s.metadata;
  created_at = s.created_at;
  updated_at = s.updated_at;
}

abbrev pub subscription_from_domain : Option Domain.Subscription → Option Subscription
subscription_from_domain none = none
subscription_from_domain (some s) = some (subscription_snapshot s)
