-- ===== src/Database/Expiry.antt =====
-- internal/database/repo_gorm.go: UpdateStatusIfActive and CreateIfNotExists, which the expiry
-- worker runs.
use xraytool_go.Prelude.{
  ℕ, Bool, true, false, ◌&&◌, [], ◌∷◌, ◌++◌, String, exists, update_where, str_eq, if◌then◌else◌,
}
use xraytool_go.Result.{Result, ok}
use xraytool_go.Domain.{Subscription, SubscriptionNotification}
use xraytool_go.Database.Tables.{Db, Faults, update_subscription, create_notification, statement}
use xraytool_go.Database.Subscriptions.{is_notification}

abbrev pub is_active_row : String → Subscription → Bool
is_active_row id s = str_eq s.id id && str_eq s.status "active"

abbrev pub with_status : String → ℕ → Subscription → Subscription
with_status new_status now s = record s { status = new_status; updated_at = now }

unfoldable pub update_status_if_active : Faults → ℕ → String → String → Db → Result Bool × Db
update_status_if_active faults now id new_status db =
    let rows = is_active_row id in
    statement (faults update_subscription)
      (
        ok (exists rows db.subscriptions),
        record db {
          subscriptions = update_where rows (with_status new_status now) db.subscriptions;
        },
      )
      db

abbrev pub notification_of : String → String → ℕ → SubscriptionNotification
notification_of sub_id level now = record {
  subscription_id = sub_id;
  warning_level = level;
  sent_at = now;
}

-- `OnConflict{DoNothing: true}` on the key of the subscription and the level.
unfoldable pub create_if_not_exists : Faults → String → String → ℕ → Db → Result Bool × Db
create_if_not_exists faults sub_id level now db =
    statement (faults create_notification)
      (if exists (is_notification sub_id level) db.notifications then (ok false, db) else (
        ok true,
        record db { notifications = db.notifications ++ notification_of sub_id level now ∷ [] },
      ))
      db
