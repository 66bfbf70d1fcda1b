-- ===== src/Tests/Data.antt =====
-- A database with two users, and simple functions in the place of Go's library.
use xraytool_go.Prelude.{ℕ, ◌+◌, ◌*◌, ◌/◌, true, false, Option, none, some, [], ◌∷◌, String, ltb}
use xraytool_go.Prelude.Int.{ℤ, pos, negsuc}
use xraytool_go.GoLib.{GoLib, Clock}
use xraytool_go.Domain.{User, Subscription, Payment, Plan, PromoCode}
use xraytool_go.Database.{Db}
use xraytool_go.Pricing.Legacy.{CreatePaymentRequest}

abbrev magnitude : ℤ → ℕ
magnitude (pos n) = n
magnitude (negsuc n) = 0

-- A `float64` that is a whole number, written as the number.
abbrev pub go : GoLib
go = record {
  trim_space = λ s. s;
  to_upper = λ s. s;
  to_lower = λ s. s;
  format_int = λ n. "7";
  parse_duration = λ s. none;
  add_months = λ t n. t + magnitude n * 2592000000000000;
  hours = λ d. magnitude d / 3600000000000;
  div_float = λ a b. a / b;
  lt_float = ltb;
  ceil = λ a. a;
  int_of_float = pos;
  float_of_int = magnitude;
}

abbrev pub clock : Clock
clock = λ n. 1000 + n

abbrev pub user_of : String → ℤ → User
user_of id balance = record {
  id = id;
  username = id;
  balance = balance;
  is_admin = false;
  ref_code = id;
  referred_by = none;
  metadata = [];
  is_blocked = false;
}

abbrev pub anna : User
anna = record (user_of "anna" (pos 50)) { referred_by = some "boris" }

abbrev pub boris : User
boris = user_of "boris" (pos 10)

abbrev pub payment_with : ℕ → String → Option ℕ → Payment
payment_with id ext_id plan_id = record {
  id = id;
  user_id = "anna";
  amount = pos 300;
  status = "pending_card";
  payment_type = "topup";
  method = "card";
  external_id = some ext_id;
  custom_data = [];
  plan_id = plan_id;
  promo_code_id = none;
  created_at = 500;
}

abbrev pub topup : Payment
topup = payment_with 1 "ext-1" none

abbrev pub purchase : Payment
purchase = payment_with 2 "ext-2" (some 5)

abbrev pub monthly : Plan
monthly = record {
  id = 5;
  months = pos 1;
  base_price = pos 200;
  global_discount_percent = pos 10;
  engine_ids = "xray" ∷ [];
  is_active = true;
}

abbrev pub spring : PromoCode
spring = record {
  id = 3;
  code = "SPRING";
  discount_percent = pos 20;
  max_uses = pos 2;
  uses_count = pos 1;
  target_platform = "all";
  expires_at = none;
  is_active = true;
}

abbrev pub sub : Subscription
sub = record {
  id = "s1";
  user_id = "anna";
  email = "anna@example.org";
  uuid = "u1";
  status = "active";
  max_devices = pos 3;
  ends_at = some 5000;
  auto_renew = false;
  metadata = [];
  created_at = 100;
  updated_at = 100;
}

abbrev pub db : Db
db = record {
  users = anna ∷ boris ∷ [];
  subscriptions = sub ∷ [];
  payments = topup ∷ purchase ∷ [];
  plans = monthly ∷ [];
  promos = spring ∷ [];
  devices = [];
  rewards = [];
  notifications = [];
  next_payment = 3;
  next_device = 1;
  next_reward = 1;
}

-- A request for the monthly plan with the promo code.
abbrev pub plan_request : CreatePaymentRequest
plan_request = record {
  telegram_id = pos 0;
  email = "anna";
  amount = pos 0;
  payment_type = "plan";
  method = "card";
  external_id = "";
  plan_id = some 5;
  max_devices = pos 4;
  promo_code = "SPRING";
  platform = "web";
  custom_data = [];
}
