-- ===== src/Domain.antt =====
-- internal/domain/models.go: the records that the plugins and the database share.
-- Instants are numbers of nanoseconds, row keys are naturals, Go's `int` is an integer.
use xraytool_go.Prelude.{ℕ, Bool, Option, none, some, List, [], ◌∷◌, String, str_eq, if◌then◌else◌}
use xraytool_go.Prelude.Int.{ℤ}

-- A dynamic value of a JSON map. A number that was read back from JSON is a `float64`.
pub data Value : Type 0 where
  int_value : ℤ → Value
  float_value : ℕ → Value
  text_value : String → Value
  texts_value : List String → Value
  other_value : Value

abbrev pub Metadata : Type 0
Metadata = List (String × Value)

abbrev pub get_value : String → Metadata → Option Value
get_value k [] = none
get_value k ((j, v) ∷ m) = if str_eq j k then some v else get_value k m

-- `m[k] = v`
abbrev pub set_value : String → Value → Metadata → Metadata
set_value k v [] = (k, v) ∷ []
set_value k v ((j, w) ∷ m) = if str_eq j k then (k, v) ∷ m else (j, w) ∷ set_value k v m

-- `delete(m, k)`
abbrev pub delete_value : String → Metadata → Metadata
delete_value k [] = []
delete_value k ((j, w) ∷ m) =
    let rest = delete_value k m in if str_eq j k then rest else (j, w) ∷ rest

pub record User : Type 0 where
  pub id : String
  pub username : String
  pub balance : ℤ
  pub is_admin : Bool
  pub ref_code : String
  pub referred_by : Option String
  pub metadata : Metadata
  pub is_blocked : Bool

pub record Subscription : Type 0 where
  pub id : String
  pub user_id : String
  pub email : String
  pub uuid : String
  pub status : String
  pub max_devices : ℤ
  pub ends_at : Option ℕ
  pub auto_renew : Bool
  pub metadata : Metadata
  pub created_at : ℕ
  pub updated_at : ℕ

pub record Device : Type 0 where
  pub id : ℕ
  pub subscription_id : String
  pub hw_id : String
  pub device_model : String
  pub device_os : String
  pub user_agent : String

pub record Payment : Type 0 where
  pub id : ℕ
  pub user_id : String
  pub amount : ℤ
  pub status : String
  pub payment_type : String
  pub method : String
  pub external_id : Option String
  pub custom_data : Metadata
  pub plan_id : Option ℕ
  pub promo_code_id : Option ℕ
  pub created_at : ℕ

pub record Plan : Type 0 where
  pub id : ℕ
  pub months : ℤ
  pub base_price : ℤ
  pub global_discount_percent : ℤ
  pub engine_ids : List String
  pub is_active : Bool

pub record PromoCode : Type 0 where
  pub id : ℕ
  pub code : String
  pub discount_percent : ℤ
  pub max_uses : ℤ
  pub uses_count : ℤ
  pub target_platform : String
  pub expires_at : Option ℕ
  pub is_active : Bool

pub record ReferralReward : Type 0 where
  pub id : ℕ
  pub referrer_id : String
  pub referred_id : String
  pub payment_id : ℕ
  pub amount : ℤ

pub record SubscriptionNotification : Type 0 where
  pub subscription_id : String
  pub warning_level : String
  pub sent_at : ℕ
