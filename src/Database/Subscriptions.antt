-- ===== src/Database/Subscriptions.antt =====
-- gormSubscriptionRepo of internal/database/repo_gorm.go: AutoRenewSubscription and what it calls.
pub mod Effect
pub mod Renew
use xraytool_go.Prelude.{
  ℕ, Bool, true, false, ◌&&◌, not, Option, none, some, List, [], ◌∷◌, ◌++◌, String, first, exists,
  keep, update_where, ltb, ◌==◌, str_eq, if◌then◌else◌,
}
use xraytool_go.Prelude.Int.{ℤ, pos, ◌-ℤ◌, ltb_ℤ, leb_ℤ}
use xraytool_go.GoLib.{GoLib, Clock, time_sub}
use xraytool_go.Result.{Result, ok, err, not_found, message}
use xraytool_go.Domain.{
  User, Subscription, Plan, SubscriptionNotification, Metadata, texts_value, set_value,
  delete_value,
}
use xraytool_go.Database.Tables.{
  Db, Faults, find_subscription, find_plan, debit_balance, update_subscription, update_metadata,
  delete_notifications, create_notification, release, statement, transaction, ◌>>=◌, ◌>>◌, pure,
  lift,
}

-- `Order("created_at desc").First`: the newest row, and of equally new ones the first.
abbrev newer : Subscription → Option Subscription → Option Subscription
newer s none = some s
newer s (some t) = if ltb s.created_at t.created_at then some t else some s

abbrev pub latest : String → List Subscription → Option Subscription
latest user_id [] = none
latest user_id (s ∷ ss) =
    let rest = latest user_id ss in if str_eq s.user_id user_id then newer s rest else rest

abbrev found : Option Subscription → Result Subscription
found none = err not_found
found (some s) = ok s

unfoldable pub find_latest_by_user_id : Faults → String → Db → Result Subscription × Db
find_latest_by_user_id faults user_id db =
    statement (faults find_subscription) (found (latest user_id db.subscriptions), db) db

-- The levels of resetNotificationsForEndsAtTx: those still ahead are cleared, and those passed are
-- marked as sent. A level that is no duration is skipped.
abbrev pub default_levels : List String
default_levels = "72h" ∷ "24h" ∷ "3h" ∷ "1h" ∷ []

abbrev is_ahead : ℤ → Option ℤ → Bool
is_ahead left none = false
is_ahead left (some level) = ltb_ℤ level left

abbrev is_passed : ℤ → Option ℤ → Bool
is_passed left none = false
is_passed left (some level) = not (ltb_ℤ level left)

abbrev pub to_delete : GoLib → ℤ → List String → List String
to_delete go left levels = keep (λ l. is_ahead left (go.parse_duration l)) levels

abbrev pub to_mark : GoLib → ℤ → List String → List String
to_mark go left levels = keep (λ l. is_passed left (go.parse_duration l)) levels

abbrev pub is_notification : String → String → SubscriptionNotification → Bool
is_notification sub_id level n = str_eq n.subscription_id sub_id && str_eq n.warning_level level

-- `OnConflict{DoNothing: true}`
abbrev mark_sent :
    String → ℕ → List SubscriptionNotification → String → List SubscriptionNotification
mark_sent sub_id now rows level =
    if exists (is_notification sub_id level) rows
    then rows
    else rows ++ record { subscription_id = sub_id; warning_level = level; sent_at = now } ∷ []

abbrev mark_all :
    String → ℕ → List SubscriptionNotification → List String → List SubscriptionNotification
mark_all sub_id now rows [] = rows
mark_all sub_id now rows (l ∷ ls) = mark_all sub_id now (mark_sent sub_id now rows l) ls

abbrev is_nil : List String → Bool
is_nil [] = true
is_nil (_ ∷ _) = false

clear_levels : Faults → String → List String → Db → Result (Unit {0}) × Db
clear_levels faults sub_id levels db =
    if is_nil levels
    then (ok tt, db)
    else statement (faults delete_notifications)
        (
          ok tt,
          record db {
            notifications =
                keep
                  (λ n.
                    not (str_eq n.subscription_id sub_id && exists (str_eq n.warning_level) levels))
                  db.notifications;
          },
        )
        db

mark_levels : Faults → String → ℕ → List String → Db → Result (Unit {0}) × Db
mark_levels faults sub_id now levels db =
    if is_nil levels
    then (ok tt, db)
    else statement (faults create_notification)
        (ok tt, record db { notifications = mark_all sub_id now db.notifications levels }) db

unfoldable pub reset_notifications :
    GoLib → Faults → ℕ → String → Option ℕ → List String → Db → Result (Unit {0}) × Db
unfolding clear_levels mark_levels
reset_notifications go faults now sub_id none levels db =
    statement (faults delete_notifications)
      (
        ok tt,
        record db {
          notifications = keep (λ n. not (str_eq n.subscription_id sub_id)) db.notifications;
        },
      )
      db
reset_notifications go faults now sub_id (some ends_at) levels db =
    let levels' = if is_nil levels then default_levels else levels in
    let left = time_sub ends_at now in
    if leb_ℤ left (pos 0)
    then (ok tt, db)
    else (clear_levels faults sub_id (to_delete go left levels')
          >> mark_levels faults sub_id now (to_mark go left levels'))
        db

-- The routing snapshot that travels with the subscription.
abbrev pub routed : Plan → Metadata → Metadata
routed plan metadata =
    if is_nil plan.engine_ids
    then delete_value "plan_engine_ids" metadata
    else set_value "plan_engine_ids" (texts_value plan.engine_ids) metadata

abbrev extends : Option ℕ → ℕ → Bool
extends none now = false
extends (some ends_at) now = ltb now ends_at

abbrev ends_or : Option ℕ → ℕ → ℕ
ends_or none now = now
ends_or (some ends_at) now = ends_at

-- A running subscription is extended from its end, any other from now.
abbrev pub base_time : Subscription → ℕ → ℕ
base_time sub now = if extends sub.ends_at now then ends_or sub.ends_at now else now

abbrev named {ℓ} : {A : Type ℓ} → String → Result A → Result A
named m (ok a) = ok a
named m (err e) = err (message m)

find_subscription_row : Faults → String → Db → Result Subscription × Db
find_subscription_row faults user_id db =
    statement (faults find_subscription)
      (named "subscription not found" (found (latest user_id db.subscriptions)), db) db

abbrev plan_row : Option Plan → Result Plan
plan_row none = err (message "plan not found")
plan_row (some p) = ok p

abbrev end_and_metadata : GoLib → Clock → Subscription → Plan → ℕ × Metadata
end_and_metadata go clock sub plan =
    (go.add_months (base_time sub (clock 0)) plan.months, routed plan sub.metadata)

-- The new end of the subscription and its metadata, by plan or as the caller states.
next_end :
    GoLib → Clock → Faults → Subscription → Option ℕ → Option ℕ → Db → Result (ℕ × Metadata) × Db
next_end go clock faults sub (some plan_id) _ db =
    statement (faults find_plan)
      (
        elim (first (λ p. p.id == plan_id) db.plans) [
          | none ↦ err (message "plan not found")
          | some p ↦ ok (end_and_metadata go clock sub p)
        ],
        db,
      )
      db
next_end go clock faults sub none none db =
    (err (message "newEndsAt is required if planID is nil"), db)
next_end go clock faults sub none (some ends_at) db = (ok (ends_at, sub.metadata), db)

abbrev pub can_pay : String → ℤ → User → Bool
can_pay user_id price u = str_eq u.id user_id && leb_ℤ price u.balance

abbrev pub pay : ℤ → User → User
pay price u = record u { balance = u.balance -ℤ price }

debit : Faults → String → ℤ → Db → Result (Unit {0}) × Db
debit faults user_id price db =
    if ltb_ℤ (pos 0) price
    then statement (faults debit_balance)
        (if exists (can_pay user_id price) db.users
          then (
            ok tt,
            record db { users = update_where (can_pay user_id price) (pay price) db.users },
          )
          else (err (message "insufficient balance"), db))
        db
    else (ok tt, db)

abbrev pub renewed : ℕ → ℤ → ℕ → Subscription → Subscription
renewed ends_at max_devices now s = record s {
  status = "active";
  ends_at = some ends_at;
  max_devices = max_devices;
  updated_at = now;
}

write_subscription : Faults → String → ℕ → ℤ → ℕ → Db → Result (Unit {0}) × Db
write_subscription faults sub_id ends_at max_devices now db =
    statement (faults update_subscription)
      (
        ok tt,
        record db {
          subscriptions =
              update_where (λ s. str_eq s.id sub_id) (renewed ends_at max_devices now)
                db.subscriptions;
        },
      )
      db

write_metadata : Faults → Option ℕ → String → Metadata → Db → Result (Unit {0}) × Db
write_metadata faults none sub_id metadata db = (ok tt, db)
write_metadata faults (some _) sub_id metadata db =
    statement (faults update_metadata)
      (
        ok tt,
        record db {
          subscriptions =
              update_where (λ s. str_eq s.id sub_id) (λ s. record s { metadata = metadata })
                db.subscriptions;
        },
      )
      db

auto_renew_body :
    GoLib → Clock → Faults → String → Option ℕ → ℤ → Option ℕ → ℤ → Db → Result (Unit {0}) × Db
unfolding find_subscription_row next_end debit write_subscription write_metadata reset_notifications
auto_renew_body go clock faults user_id plan_id price new_ends_at max_devices = do
  sub ← find_subscription_row faults user_id
  next ← next_end go clock faults sub plan_id new_ends_at
  debit faults user_id price
  write_subscription faults sub.id next.0 max_devices (clock 1)
  reset_notifications go faults (clock 2) sub.id (some next.0) []
  write_metadata faults plan_id sub.id next.1

-- The last argument but one says whether the end of this transaction is refused: it is one of its
-- own, or nested in the caller's.
unfoldable pub auto_renew_subscription :
    GoLib
    → Clock
    → Faults
    → Bool
    → String
    → Option ℕ
    → ℤ
    → Option ℕ
    → ℤ
    → Db
    → Result (Unit {0}) × Db
unfolding auto_renew_body
auto_renew_subscription go clock faults refused user_id plan_id price new_ends_at max_devices =
    transaction refused
      (auto_renew_body go clock faults user_id plan_id price new_ends_at max_devices)
