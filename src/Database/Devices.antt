-- ===== src/Database/Devices.antt =====
-- gormDeviceRepo of internal/database/repo_gorm.go: TrackDevice.
pub mod Limit
use xraytool_go.Prelude.{
  ℕ, suc, Bool, true, false, ◌&&◌, List, [], ◌∷◌, ◌++◌, String, first, exists, keep, length,
  update_where, ltb, ◌==◌, str_eq, if◌then◌else◌, Option, none, some,
}
use xraytool_go.Prelude.Int.{ℤ, pos, leb_ℤ}
use xraytool_go.Result.{Result, ok, err}
use xraytool_go.Domain.{Device}
use xraytool_go.Database.Tables.{
  Db, Faults, find_device, count_devices, create_device, update_device, update_subscription, commit,
  statement, transaction, ◌>>=◌,
}

abbrev pub of_subscription : String → Device → Bool
of_subscription sub_id d = str_eq d.subscription_id sub_id

-- The number of devices that a subscription has.
abbrev pub device_count : String → Db → ℕ
device_count sub_id db = length (keep (of_subscription sub_id) db.devices)

abbrev pub is_device : String → String → Device → Bool
is_device sub_id hw_id d = str_eq d.subscription_id sub_id && str_eq d.hw_id hw_id

find_row : Faults → String → String → Db → Result (Option Device) × Db
find_row faults sub_id hw_id db =
    statement (faults find_device) (ok (first (is_device sub_id hw_id) db.devices), db) db

-- The error of the count is not read, and the variable keeps its zero.
abbrev counted : Faults → String → Db → ℕ
counted faults sub_id db = if faults count_devices then 0 else device_count sub_id db

abbrev pub new_row : String → String → String → String → String → ℕ → Device
new_row sub_id hw_id model os agent id = record {
  id = id;
  subscription_id = sub_id;
  hw_id = hw_id;
  device_model = model;
  device_os = os;
  user_agent = agent;
}

unfoldable pub add_row : Faults → String → String → String → String → String → Db → Result Bool × Db
add_row faults sub_id hw_id model os agent db =
    statement (faults create_device)
      (
        ok false,
        record db {
          devices = db.devices ++ new_row sub_id hw_id model os agent db.next_device ∷ [];
          next_device = suc db.next_device;
        },
      )
      db

refresh_row : Faults → Device → String → String → String → Db → Result Bool × Db
refresh_row faults device model os agent db =
    statement (faults update_device)
      (
        ok false,
        record db {
          devices =
              update_where (λ d. d.id == device.id)
                (λ d. record d { device_model = model; device_os = os; user_agent = agent })
                db.devices;
        },
      )
      db

-- The database engines that the code tells apart.
pub data Dialect : Type 0 where
  sqlite postgres other_dialect : Dialect

-- The row lock: SQLite takes it by an UPDATE, whose error is not read.
abbrev lock_row : Dialect → ℕ → Faults → String → Db → Db
lock_row sqlite now faults sub_id db = if faults update_subscription then db else record db {
  subscriptions =
      update_where (λ s. str_eq s.id sub_id) (λ s. record s { updated_at = now }) db.subscriptions;
}
lock_row _ now faults sub_id db = db

admit_device :
    Dialect → ℕ → Faults → String → String → String → String → String → ℤ → Db → Result Bool × Db
unfolding add_row
admit_device dialect now faults sub_id hw_id model os agent limit db =
    let locked = lock_row dialect now faults sub_id db in
    if leb_ℤ limit (pos (counted faults sub_id locked))
    then (ok true, locked)
    else add_row faults sub_id hw_id model os agent locked

track_body :
    Dialect → ℕ → Faults → String → String → String → String → String → ℤ → Db → Result Bool × Db
unfolding find_row admit_device refresh_row
track_body dialect now faults sub_id hw_id model os agent limit = do
  known ← find_row faults sub_id hw_id
  λ db. elim known [
    | some device ↦ refresh_row faults device model os agent db
    | none ↦ admit_device dialect now faults sub_id hw_id model os agent limit db
  ]

-- The result says whether the limit kept the device out.
unfoldable pub track_device :
    Dialect → ℕ → Faults → String → String → String → String → String → ℤ → Db → Result Bool × Db
unfolding track_body
track_device dialect now faults sub_id hw_id model os agent limit =
    transaction (faults commit) (track_body dialect now faults sub_id hw_id model os agent limit)
