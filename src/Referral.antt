-- ===== src/Referral.antt =====
-- internal/plugins/referral/plugin.go: Handle, the reward for the user who referred the payer.
pub mod Reward
use xraytool_go.Prelude.{ℕ, Bool, Option, none, some, String, str_eq, if◌then◌else◌}
use xraytool_go.Prelude.Int.{ℤ, pos, negsuc, ltb_ℤ, quot}
use xraytool_go.GoLib.{GoLib}
use xraytool_go.Result.{Result, ok, err, not_found}
use xraytool_go.Domain.{Payment, User, Metadata, Value, int_value, float_value, get_value}
use xraytool_go.Database.{Db, Faults}
use xraytool_go.Database.Users
use xraytool_go.Database.Users.{add_referral_reward}
use xraytool_go.Database.Payments

-- The payment id of an event: a number of either kind.
abbrev payment_id_of : GoLib → Option Value → Option ℤ
payment_id_of go (some (float_value x)) = some (go.int_of_float x)
payment_id_of go (some (int_value n)) = some n
payment_id_of go _ = none

-- A negative key finds no row.
abbrev find_payment : Faults → ℤ → Db → Result Payment
find_payment faults (pos n) db = (Payments.find_by_id faults n db).0
find_payment faults (negsuc n) db = err not_found

-- A quarter of the amount, rounded towards zero, where that is positive.
unfoldable pub reward_user : Faults → Payment → User → Option String → Db → Result (Unit {0}) × Db
reward_user faults payment user none db = (ok tt, db)
reward_user faults payment user (some referrer) db =
    let reward = quot payment.amount 4 in
    if ltb_ℤ (pos 0) reward
    then add_referral_reward faults referrer user.id payment.id reward db
    else (ok tt, db)

abbrev pub reward_found : Faults → Payment → Result User → Db → Result (Unit {0}) × Db
reward_found faults payment (err _) db = (ok tt, db)
reward_found faults payment (ok user) db = reward_user faults payment user user.referred_by db

abbrev pub reward_payment : Faults → Result Payment → Db → Result (Unit {0}) × Db
reward_payment faults (err e) db = (err e, db)
reward_payment faults (ok payment) db =
    reward_found faults payment (Users.find_by_id faults payment.user_id db).0 db

abbrev pub handle_id : Faults → Option ℤ → Db → Result (Unit {0}) × Db
handle_id faults none db = (ok tt, db)
handle_id faults (some id) db = reward_payment faults (find_payment faults id db) db

unfoldable pub handle : GoLib → Faults → String → Metadata → Db → Result (Unit {0}) × Db
handle go faults type data_of_event db =
    if str_eq type "payment.completed"
    then handle_id faults (payment_id_of go (get_value "payment_id" data_of_event)) db
    else (ok tt, db)
