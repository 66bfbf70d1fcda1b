-- ===== src/Tests/Payments.antt =====
-- Payments that are settled, created and rewarded in the small database.
use xraytool_go.Prelude.{
  String, ◌≡◌, ◌≤◌, refl, true, none, some, [], ◌∷◌, arith, str_eq, first, inr,
}
use xraytool_go.Prelude.Int.{pos, ◌+ℤ◌}
use xraytool_go.Result.{ok}
use xraytool_go.Domain.{Subscription}
use xraytool_go.Database.{Faults}
use xraytool_go.Database.Payments
use xraytool_go.Database.Payments.{set_status, not_completed}
use xraytool_go.Database.Users.{adjust_balance, balance_of, changed_balance, add_referral_reward}
use xraytool_go.Database.Subscriptions.Renew.{no_faults, by_id}
use xraytool_go.Database.Subscriptions.Effect.{AllSolvent}
use xraytool_go.Database.Devices.{track_device, device_count, sqlite}
use xraytool_go.Database.Devices.Limit.{track_device-limit}
use xraytool_go.Billing.Settle.{
  process_external_payment_status, update_payment_status, event_of, mapped_status, complete,
}
use xraytool_go.Billing.Once.{Report, report, report_all, settled_once}
use xraytool_go.Billing.Credit.{paid_balance, topup_credits}
use xraytool_go.Billing.Extend.{IsExtended, plan_payment_extends}
use xraytool_go.Billing.Solvency.{process_external-Solvent, update_payment_status-Solvent}
use xraytool_go.Billing.Create.{create_payment}
use xraytool_go.Billing.Create.Limits.{IsFair, create_payment-IsFair}
use xraytool_go.Billing.Create.Once.{IsOncePerUser, create_payment-IsOncePerUser}
use xraytool_go.Referral.Reward.{reward_once}
use xraytool_go.Tests.Data.{go, clock, db, topup, purchase, sub, monthly, plan_request}

-- A driver that refuses every statement.
abbrev all_faults : Faults
all_faults s = true

topup_paid :
    (process_external_payment_status go clock no_faults "ext-1" "SUCCESS" db).events
    ≡ event_of topup ∷ []
unfolding process_external_payment_status Payments.find_by_external_id mapped_status
    Payments.update_status_if_not_completed complete adjust_balance
topup_paid = refl

abbrev webhook : Faults → String → String → Report
webhook faults ext_id status = record {
  clock = clock;
  faults = faults;
  ext_id = ext_id;
  status = status;
}

settled_once_example :
    let later =
      report_all go
        (webhook no_faults "ext-2" "SUCCESS" ∷ [])
        (report go (webhook no_faults "ext-1" "SUCCESS") db).db in
    ((report go (webhook all_faults "ext-1" "failed") later).db ≡ later)
    × ((report go (webhook all_faults "ext-1" "failed") later).events ≡ [])
settled_once_example =
    settled_once go (webhook no_faults "ext-1" "SUCCESS") (webhook all_faults "ext-1" "failed")
      (webhook no_faults "ext-2" "SUCCESS" ∷ []) db (event_of topup) refl topup_paid

topup_ok : (process_external_payment_status go clock no_faults "ext-1" "SUCCESS" db).result ≡ ok tt
unfolding process_external_payment_status Payments.find_by_external_id mapped_status
    Payments.update_status_if_not_completed complete adjust_balance
topup_ok = refl

success_is_settled : mapped_status "SUCCESS" ≡ "completed"
unfolding mapped_status
success_is_settled = refl

topup_credits_example :
    let out = process_external_payment_status go clock no_faults "ext-1" "SUCCESS" db in
    (out.events ≡ event_of topup ∷ [])
    × (balance_of "anna" out.db.users ≡ paid_balance true (pos 300) (balance_of "anna" db.users))
topup_credits_example =
    topup_credits go clock no_faults "ext-1" "SUCCESS" db topup "anna" refl refl refl refl
      success_is_settled topup_ok

plan_payment_extends_example :
    let out = process_external_payment_status go clock no_faults "ext-2" "SUCCESS" db in
    (out.result ≡ ok tt)
    × (out.events ≡ event_of purchase ∷ [])
    × (t : Subscription) × (first (by_id "s1") out.db.subscriptions ≡ some t)
    × IsExtended go (clock 0) purchase monthly sub t
plan_payment_extends_example =
    plan_payment_extends go clock purchase 5 sub monthly "ext-2" "SUCCESS" db refl refl refl
      success_is_settled refl refl

db-AllSolvent : AllSolvent db
db-AllSolvent = (omega arith, (omega arith, tt))

process_external-Solvent_example :
    AllSolvent (process_external_payment_status go clock no_faults "ext-1" "SUCCESS" db).db
process_external-Solvent_example =
    process_external-Solvent go clock no_faults "ext-1" "SUCCESS" db db-AllSolvent

update_payment_status-Solvent_example :
    AllSolvent (update_payment_status go clock no_faults 1 "completed" [] db).db
update_payment_status-Solvent_example =
    update_payment_status-Solvent go clock no_faults 1 "completed" [] db db-AllSolvent

db-IsFair : IsFair db
db-IsFair = record { unique = (tt, tt); within = (inr (omega arith), tt) }

create_payment-IsFair_example : IsFair (create_payment none go clock no_faults plan_request db).1
create_payment-IsFair_example =
    create_payment-IsFair none go clock no_faults plan_request db db-IsFair

db-IsOncePerUser : IsOncePerUser db
db-IsOncePerUser u id = ground arith

create_payment-IsOncePerUser_example :
    IsOncePerUser (create_payment none go clock no_faults plan_request db).1
create_payment-IsOncePerUser_example =
    create_payment-IsOncePerUser none go clock no_faults plan_request db db-IsOncePerUser

reward_paid : (add_referral_reward no_faults "boris" "anna" 1 (pos 75) db).0 ≡ ok tt
unfolding add_referral_reward
reward_paid = refl

reward_once_example :
    let r = add_referral_reward no_faults "boris" "anna" 1 (pos 75) db in
    (balance_of "boris" r.1.users
      ≡ changed_balance (str_eq "boris" "boris") (λ b. b +ℤ pos 75) (balance_of "boris" db.users))
    × ((add_referral_reward all_faults "anna" "boris" 1 (pos 9) r.1).1 ≡ r.1)
reward_once_example =
    reward_once no_faults all_faults "boris" "anna" "anna" "boris" "boris" 1 (pos 75) (pos 9) db
      refl reward_paid

track_device-limit_example :
    device_count "s1"
      (track_device sqlite 1000 no_faults "s1" "hw" "phone" "os" "agent" (pos 3) db).1
    ≤ 3
track_device-limit_example =
    track_device-limit no_faults 1000 "s1" "hw" "phone" "os" "agent" 3 sqlite db refl (omega arith)
