-- ===== src/Tests/Expiry.antt =====
-- The expiry worker in the small database.
use xraytool_go.Prelude.{
  ℕ, ◌+◌, ◌≤◌, Bool, exists, ◌≡◌, refl, true, false, none, some, List, [], ◌∷◌, String, str_eq,
  if◌then◌else◌, Option,
}
use xraytool_go.Prelude.Int.{ℤ, pos}
use xraytool_go.GoLib.{GoLib}
use xraytool_go.Database.Expiry.{update_status_if_active, is_active_row}
use xraytool_go.Database.Users.{find_by_id}
use xraytool_go.Database.Subscriptions.Renew.{no_faults}
use xraytool_go.Lifecycle.{expired, rm_user, expire, handle_expired_bulk, handle_warnings}
use xraytool_go.Lifecycle.Expired.{Tick, tick_all, announcements, expired_once}
use xraytool_go.Lifecycle.Once.{warned_once}
use xraytool_go.Tests.Data.{db, go, sub}

abbrev hours_of : String → Option ℤ
hours_of level = if str_eq level "3h" then some (pos 10800000000000) else none

-- Go's library with one duration that it reads.
abbrev timed : GoLib
timed = record go { parse_duration = hours_of }

abbrev levels : List String
levels = "3h" ∷ "soon" ∷ []

abbrev worker : ℕ → Bool → Tick
worker now refuses = record {
  subs = sub ∷ sub ∷ [];
  now = now;
  engine_refuses = refuses;
  is_master = true;
  faults = λ n. no_faults;
  clock = λ n. now + n;
}

expired_once_example :
    announcements "s1"
      (tick_all (worker 6000 true ∷ worker 6000 false ∷ worker 7000 false ∷ []) db).0
    ≤ (if exists (is_active_row "s1") db.subscriptions then 1 else 0)
expired_once_example =
    expired_once "s1" (worker 6000 true ∷ worker 6000 false ∷ worker 7000 false ∷ []) db

-- The subscription stands twice in the list, and its end is announced by the second tick.
expired_lem :
    (tick_all (worker 6000 true ∷ worker 6000 false ∷ worker 7000 false ∷ []) db).0
    ≡ expired "anna" "s1" "anna@example.org" 5000 [] ∷ rm_user "anna@example.org" ∷ []
unfolding handle_expired_bulk expire update_status_if_active find_by_id
expired_lem = refl

warned_once_example :
    let r = handle_warnings timed no_faults 4000 levels sub (pos 1000) db in
    handle_warnings timed no_faults 4500 levels sub (pos 500) r.1 ≡ ([], r.1)
warned_once_example =
    warned_once timed no_faults no_faults 4000 4500 levels sub (pos 1000) (pos 500) db refl
      (refl, (refl, tt))
