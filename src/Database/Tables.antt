-- ===== src/Database/Tables.antt =====
-- The database as a record of tables, and `WithTx` of internal/database/repo_gorm.go.
use xraytool_go.Prelude.{ℕ, Bool, List}
pub use xraytool_go.Transaction.{
  statement, end_transaction, transaction, continue, ◌>>=◌, ◌>>◌, pure, lift,
}
use xraytool_go.Domain.{
  User, Subscription, Device, Payment, Plan, PromoCode, ReferralReward, SubscriptionNotification,
}

pub record Db : Type 0 where
  pub users : List User
  pub subscriptions : List Subscription
  pub payments : List Payment
  pub plans : List Plan
  pub promos : List PromoCode
  pub devices : List Device
  pub rewards : List ReferralReward
  pub notifications : List SubscriptionNotification
  -- the next values of the automatic keys
  pub next_payment : ℕ
  pub next_device : ℕ
  pub next_reward : ℕ

-- The statements that a driver may refuse.
pub data Stmt : Type 0 where
  find_user find_payment find_plan find_promo find_subscription find_device : Stmt
  count_payments count_rewards count_devices : Stmt
  create_payment create_reward create_device create_notification : Stmt
  update_payment update_status update_device update_subscription update_metadata : Stmt
  adjust_balance debit_balance credit_referrer increment_uses : Stmt
  delete_notifications : Stmt
  -- the end of a transaction, and of one that is nested in another
  commit release : Stmt

abbrev pub Faults : Type 0
Faults = Stmt → Bool
