-- ===== src/Tests/Fraud.antt =====
-- Addresses of two users, and a ban from its decision to a restart.
use xraytool_go.Prelude.{
  not, ◌&&◌, ◌≡◌, refl, ◌⊎◌, true, false, ◌&&◌, none, some, List, [], ◌∷◌, ◌++◌, String, arith,
  length, ltb, str_eq, if◌then◌else◌,
}
use xraytool_go.Prelude.Int.{pos, mul64, ◌*ℤ◌, wrap64}
use xraytool_go.Result.{ok}
use xraytool_go.Domain.{Subscription}
use xraytool_go.BanCache
use xraytool_go.BanCache.{Bans}
use xraytool_go.Antifraud.{add_hashed_event, fresh}
use xraytool_go.Prelude.Dict.{lookup}
use xraytool_go.Antifraud.Window.{Op, saw, cleaned, run, recorded}
use xraytool_go.Antifraud.Counts.{add_hashed_event-count}
use xraytool_go.Antifraud.BanStore.{BanStore, is_banned, set_sink, set_ban}
use xraytool_go.Antifraud.BanStore.Mirror.{ban, unban, IsTrimmed, decide_all, decide_all-is_banned}
use xraytool_go.Antifraud.Enforcer.{
  Faults, Guard, Config, Event, handle_event, try_unban, recover_bans_from_db, enforce, upsert,
}
use xraytool_go.Antifraud.Enforcer.Restart.{here, next, handles, started, recover-is_banned}
use xraytool_go.Antifraud.Enforcer.Unban.{IsEligible, try_unban-IsEligible}
use xraytool_go.Antifraud.Enforcer.Verdict.{is_banning, ban_end, handle_event-is_banned}
use xraytool_go.Tests.Data.{go, clock, anna}

abbrev seen_before : List Op
seen_before = saw "anna" "h1" 5 ∷ saw "anna" "h2" 90 ∷ cleaned 100 ∷ saw "boris" "h1" 110 ∷ []

-- The first address has left the window of 50.
add_hashed_event-count_example :
    (add_hashed_event "anna" "h3" 50 120 (run 50 seen_before (record { users = [] }))).0
    ≡ length (fresh 50 120 (recorded "anna" (seen_before ++ saw "anna" "h3" 120 ∷ []) []))
add_hashed_event-count_example =
    add_hashed_event-count 50 120 seen_before "anna" "h3" (omega arith) refl

count_lem : length (fresh 50 120 (recorded "anna" (seen_before ++ saw "anna" "h3" 120 ∷ []) [])) ≡ 2
count_lem = refl

abbrev same : String → String
same s = s

abbrev old_bans : BanStore
old_bans = record { bans = ("anna", 500) ∷ []; sink = none }

anna-IsTrimmed : IsTrimmed same "anna"
anna-IsTrimmed = record { trimmed = refl; given = refl }

boris-IsTrimmed : IsTrimmed same "boris"
boris-IsTrimmed = record { trimmed = refl; given = refl }

decide_all-is_banned_example :
    (cache : Bans) × ((decide_all same
        (ban 60 "boris" 300 ∷ unban 70 "anna" ∷ [])
        (set_sink same 50 (some []) old_bans)).sink
      ≡ some cache)
    × ((BanCache.is_banned same 200 201 (λ c. c) "boris" cache).0
        ≡ is_banned 200 "boris" (
            decide_all same
              (ban 60 "boris" 300 ∷ unban 70 "anna" ∷ [])
              (set_sink same 50 (some []) old_bans)))
decide_all-is_banned_example =
    decide_all-is_banned same 200 201 50 (λ c. c) (ban 60 "boris" 300 ∷ unban 70 "anna" ∷ [])
      old_bans "boris" (omega arith) (omega arith) (boris-IsTrimmed, (anna-IsTrimmed, tt))
      (λ k. ground arith) (anna-IsTrimmed, tt) boris-IsTrimmed

abbrev cfg : Config
cfg = record {
  dry_run = false;
  is_master = true;
  has_propagator = true;
  ban_duration = "10m";
  max_ips = pos 1;
  ip_ttl = 180;
  reporter = none;
  hash_ip = same;
  fraud_reason = λ email n t d. "addresses";
}

abbrev fine : Faults
fine = λ s. false

abbrev event : String → Event
event ip = record { email = "anna"; ip = ip; is_hashed = true; occurred_at = 1000 }

abbrev once : Guard
once = (handle_event go cfg fine clock (event "h1") (started [])).1

abbrev twice : Guard
twice = (handle_event go cfg fine clock (event "h2") once).1

past_once : once.state ≡ run 180 (saw "anna" "h1" 1000 ∷ []) (record { users = [] })
unfolding handle_event is_banned mul64 wrap64 ◌*ℤ◌ add_hashed_event enforce upsert set_ban
past_once = refl

handle_event-is_banned_example : is_banned 2000 "anna" twice.store ≡ (
    if not (is_banned 1000 "anna" once.store)
      && (is_banning cfg 1001 (saw "anna" "h1" 1000 ∷ []) (event "h2") (lookup "anna" once.limits)
          && str_eq "anna" "anna")
    then ltb 2000 (ban_end 1002 (go.parse_duration "10m"))
    else is_banned 2000 "anna" once.store)
handle_event-is_banned_example =
    handle_event-is_banned go cfg fine clock (saw "anna" "h1" 1000 ∷ []) (event "h2") once "anna"
      2000 refl refl refl refl past_once (omega arith, tt)

-- The second address is one too many.
twice_lem : is_banned 2000 "anna" twice.store ≡ true
unfolding handle_event is_banned mul64 wrap64 ◌*ℤ◌ add_hashed_event enforce upsert set_ban
twice_lem = refl

recover-is_banned_example :
    is_banned 2000 "anna" (recover_bans_from_db go fine 1500 1500 (started twice.rows)).store ≡ true
recover-is_banned_example =
    recover-is_banned 2000 1500 1500 go fine [] "anna" (λ k. omega arith)
      (next (next here (handles go cfg fine clock (event "h1") (started []) (omega arith)))
        (handles go cfg fine clock (event "h2") once (omega arith)))
      (omega arith) refl twice_lem

abbrev annas : Subscription
annas = record {
  id = "s1";
  user_id = "anna";
  email = "anna";
  uuid = "u";
  status = "active";
  max_devices = pos 1;
  ends_at = some 5000;
  auto_renew = false;
  metadata = [];
  created_at = 1;
  updated_at = 1;
}

try_unban-IsEligible_example :
    ((try_unban go cfg fine (λ e. false) 3000 (ok annas) (λ id. ok anna) "anna" twice).calls
      ≡ twice.calls)
    ⊎ IsEligible 3000 (ok annas) (λ id. ok anna)
try_unban-IsEligible_example =
    try_unban-IsEligible go cfg fine (λ e. false) 3000 (ok annas) (λ id. ok anna) "anna" twice
