-- ===== src/Lifecycle.antt =====
-- internal/plugins/subscription_lifecycle/worker/expiry.go: handleExpiredBulk with the subscriptions that
-- ProcessOnce gives it, and handleWarnings.
pub mod Once
pub mod Expired
use xraytool_go.Prelude.{
  ℕ, suc, leb, ◌++◌, Bool, true, false, not, List, [], ◌∷◌, Option, none, some, String,
  if◌then◌else◌,
}
use xraytool_go.Prelude.Int.{ℤ, ltb_ℤ, leb_ℤ}
use xraytool_go.GoLib.{GoLib}
use xraytool_go.Result.{Result, ok, err}
use xraytool_go.Domain.{User, Subscription, Metadata}
use xraytool_go.Database.{Db, Faults}
use xraytool_go.Database.Users.{find_by_id}
use xraytool_go.Database.Expiry.{create_if_not_exists, update_status_if_active}

-- What the worker hands to the dispatcher and to the other nodes.
pub data Event : Type 0 where
  -- user, subscription, email and end, with the metadata of the user
  expired : String → String → String → ℕ → Metadata → Event
  -- the same, with the warning level and the time that is left
  expiring : String → String → String → String → ℤ → Option ℕ → Metadata → Event
  -- the command "rmuser" to the slave nodes
  rm_user : String → Event

-- A nil map is the empty one.
abbrev found_metadata : Result User → Metadata
found_metadata (ok u) = u.metadata
found_metadata (err _) = []

abbrev pub metadata_of : Faults → String → Db → Metadata
metadata_of faults user_id db = found_metadata (find_by_id faults user_id db).0

-- The subscriptions that have an end, and it has come.
abbrev pub expired_subs : ℕ → List Subscription → List (Subscription × ℕ)
expired_subs now [] = []
expired_subs now (sub ∷ subs) =
    let rest = expired_subs now subs in
    elim sub.ends_at [
      | none ↦ rest
      | some ends_at ↦ if leb ends_at now then (sub, ends_at) ∷ rest else rest
    ]

abbrev pub expired_events : Faults → Bool → Subscription → ℕ → Db → List Event
expired_events faults is_master sub ends_at db =
    expired sub.user_id sub.id sub.email ends_at (metadata_of faults sub.user_id db)
    ∷ (if is_master then rm_user sub.email ∷ [] else [])

-- An error of the update and a subscription that is not active any more are passed over.
abbrev pub announced : Faults → Bool → Subscription → ℕ → Result Bool × Db → List Event × Db
announced faults is_master sub ends_at (err _, db) = ([], db)
announced faults is_master sub ends_at (ok updated, db) =
    (if updated then expired_events faults is_master sub ends_at db else [], db)

-- One turn of the loop.
unfoldable pub expire : Faults → Bool → ℕ → Subscription → ℕ → Db → List Event × Db
expire faults is_master now sub ends_at db =
    announced faults is_master sub ends_at (update_status_if_active faults now sub.id "expired" db)

-- The driver and the clock at each turn of the loop, from turn `n` on.
abbrev pub expire_all :
    (ℕ → Faults) → (ℕ → ℕ) → Bool → ℕ → List (Subscription × ℕ) → Db → List Event × Db
expire_all faults clock is_master n [] db = ([], db)
expire_all faults clock is_master n ((sub, ends_at) ∷ subs) db =
    let (events, after) = expire (faults n) is_master (clock n) sub ends_at db in
    let (more, last) = expire_all faults clock is_master (suc n) subs after in
    (events ++ more, last)

-- `engine_refuses` says that the VPN engine could not remove the users.
unfoldable pub handle_expired_bulk :
    (ℕ → Faults) → (ℕ → ℕ) → Bool → Bool → List (Subscription × ℕ) → Db → List Event × Db
handle_expired_bulk faults clock engine_refuses is_master subs db =
    if engine_refuses then ([], db) else expire_all faults clock is_master 0 subs db

-- The level that is triggered so far, with its duration.
abbrev pub closer : String → ℤ → Option (String × ℤ) → Option (String × ℤ)
closer level d none = some (level, d)
closer level d (some (l, e)) = if ltb_ℤ d e then some (level, d) else some (l, e)

abbrev pub noted : String → ℤ → Option (String × ℤ) → Result Bool × Db → Option (String × ℤ) × Db
noted level d acc (err _, db) = (acc, db)
noted level d acc (ok inserted, db) = (if inserted then closer level d acc else acc, db)

abbrev pub warn_level :
    Faults
    → ℕ
    → String
    → ℤ
    → String
    → Option ℤ
    → Option (String × ℤ)
    → Db
    → Option (String × ℤ) × Db
warn_level faults now sub_id left level none acc db = (acc, db)
warn_level faults now sub_id left level (some d) acc db =
    if leb_ℤ left d
    then noted level d acc (create_if_not_exists faults sub_id level now db)
    else (acc, db)

-- The loop over the levels of the configuration; a level that is no duration is skipped.
abbrev pub warn_levels :
    GoLib
    → Faults
    → ℕ
    → String
    → ℤ
    → List String
    → Option (String × ℤ) × Db
    → Option (String × ℤ) × Db
warn_levels go faults now sub_id left [] (acc, db) = (acc, db)
warn_levels go faults now sub_id left (l ∷ ls) (acc, db) =
    warn_levels go faults now sub_id left ls
      (warn_level faults now sub_id left l (go.parse_duration l) acc db)

abbrev pub warned : Faults → Subscription → ℤ → Option (String × ℤ) × Db → List Event × Db
warned faults sub left (none, db) = ([], db)
warned faults sub left (some (level, _), db) = (
  expiring sub.user_id sub.id sub.email level left sub.ends_at (metadata_of faults sub.user_id db)
      ∷ [],
  db,
)

unfoldable pub handle_warnings :
    GoLib → Faults → ℕ → List String → Subscription → ℤ → Db → List Event × Db
handle_warnings go faults now levels sub left db =
    warned faults sub left (warn_levels go faults now sub.id left levels (none, db))
