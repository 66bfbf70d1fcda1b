-- ===== src/Database/Devices/Limit.antt =====
-- TrackDevice and the device limit of a subscription.
use xraytool_go.Prelude.{
  ℕ, ◌≤◌, ◌+◌, false, ◌≡◌, String, arith, length-keep-append, length-keep-update_where, ◌==◌, first,
  Bool-cases, Option-cases, inl, inr, refl,
}
use xraytool_go.Prelude.Int.{pos}
use xraytool_go.Domain.{Device}
use xraytool_go.Database.Tables.{Db, Faults, count_devices, find_device}
use xraytool_go.Database.Devices.{
  Dialect, track_device, track_body, device_count, of_subscription, admit_device, add_row,
  refresh_row, is_device, new_row, lock_row, sqlite, postgres, other_dialect, find_row,
}

module _ (faults : Faults) (sub_id hw_id model os agent : String) where
  added-count :
      (db : Db)
      → device_count sub_id (add_row faults sub_id hw_id model os agent db).1
        ≤ device_count sub_id db + 1
  unfolding add_row
  added-count db = ground (
    arith,
    length-keep-append (of_subscription sub_id) db.devices
        (new_row sub_id hw_id model os agent db.next_device),
  )

  refreshed-count :
      (d : Device) (db : Db)
      → device_count sub_id (refresh_row faults d model os agent db).1 ≡ device_count sub_id db
  unfolding refresh_row
  refreshed-count d db = ground (
    arith,
    length-keep-update_where (of_subscription sub_id) (λ x. x.id == d.id)
        (λ x. record x { device_model = model; device_os = os; user_agent = agent }) (λ x. refl)
        db.devices,
  )

locked-count :
    (dialect : Dialect) (now : ℕ) (faults : Faults) (sub_id : String) (db : Db)
    → device_count sub_id (lock_row dialect now faults sub_id db) ≡ device_count sub_id db
locked-count sqlite now faults sub_id db = ground arith
locked-count postgres now faults sub_id db = refl
locked-count other_dialect now faults sub_id db = refl

module _ (faults : Faults) (now : ℕ) (sub_id hw_id model os agent : String) (n : ℕ) where
  admitted-count :
      (dialect : Dialect) (db : Db)
      → faults count_devices ≡ false
      → device_count sub_id db ≤ n
      → device_count sub_id
          (admit_device dialect now faults sub_id hw_id model os agent (pos n) db).1
        ≤ n
  unfolding admit_device
  admitted-count dialect db c h =
      let locked = lock_row dialect now faults sub_id db in
      ground (
        arith,
        added-count faults sub_id hw_id model os agent locked,
        locked-count dialect now faults sub_id db,
      )

module _ (faults : Faults) (now : ℕ) (sub_id hw_id model os agent : String) (n : ℕ) where
  body-count :
      (dialect : Dialect) (db : Db)
      → faults count_devices ≡ false
      → device_count sub_id db ≤ n
      → device_count sub_id (track_body dialect now faults sub_id hw_id model os agent (pos n) db).1
        ≤ n
  unfolding track_body find_row
  body-count dialect db c h = elim (Bool-cases (faults find_device)) [
    | inl refused ↦ ground arith
    | inr done ↦ elim (Option-cases (first (is_device sub_id hw_id) db.devices)) [
      | inl unknown ↦
          ground (arith, admitted-count faults now sub_id hw_id model os agent n dialect db)
      | inr (d, known) ↦ ground (arith, refreshed-count faults sub_id hw_id model os agent d db)
    ]
  ]

  -- When the devices are counted without an error, tracking a device keeps a subscription that
  -- has at most `n` devices at no more than the limit `n`, in every dialect.
  pub track_device-limit :
      (dialect : Dialect) (db : Db)
      → faults count_devices ≡ false
      → device_count sub_id db ≤ n
      → device_count sub_id
          (track_device dialect now faults sub_id hw_id model os agent (pos n) db).1
        ≤ n
  unfolding track_device
  track_device-limit dialect db c h = ground (arith, body-count dialect db c h)
