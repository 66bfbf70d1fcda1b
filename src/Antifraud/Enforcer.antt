-- ===== src/Antifraud/Enforcer.antt =====
-- internal/plugins/antifraud/analyzer.go and module.go: bans that are enforced, ended and recovered.
pub mod Durable
pub mod Restart
pub mod Unban
pub mod Verdict
use xraytool_go.Prelude.{
  ℕ, suc, ◌+◌, ◌-◌, ◌==◌, Bool, true, false, ◌&&◌, ◌||◌, not, Option, none, some, List, [], ◌∷◌,
  ◌++◌, String, keep, ltb, str_eq, if◌then◌else◌,
}
use xraytool_go.Prelude.Int.{ℤ, pos, negsuc, ltb_ℤ, leb_ℤ, mul64}
use xraytool_go.Prelude.Dict.{Dict, lookup, erase, insert}
use xraytool_go.GoLib.{GoLib, Clock}
use xraytool_go.Result.{Result, ok, err, message, not_found, db_error}
use xraytool_go.Domain.{User, Subscription}
use xraytool_go.Antifraud.{State, add_hashed_event}
use xraytool_go.Antifraud.BanStore.{BanStore, is_banned, set_ban, clear_ban}

-- A row of the table of bans; its e-mail address is the key under which it stands.
pub record AntifraudBan : Type 0 where
  pub banned_at : ℕ
  pub expires_at : ℕ
  pub reason : String

-- A call of the engine, a command to the other nodes, or an observation that is handed on.
pub data Call : Type 0 where
  ban_user : String → Call
  unban_user : String → Call
  propagated : String → String → Call
  reported : String → String → ℕ → Call

pub data Stmt : Type 0 where
  upsert_ban read_ban delete_ban find_active find_expired : Stmt

abbrev pub Faults : Type 0
Faults = Stmt → Bool

-- What the module holds: the table of bans, the bans in memory, the addresses, the cached limits of
-- devices, and the calls so far, the latest first.
pub record Guard : Type 0 where
  pub rows : Dict AntifraudBan
  pub store : BanStore
  pub state : State
  pub limits : Dict ℤ
  pub calls : List Call

-- The configuration, and the parts of the program that the module is given: whether there is a
-- propagator and what the reporter answers, if there is one; the HMAC of an address; the reason.
pub record Config : Type 0 where
  pub dry_run : Bool
  pub is_master : Bool
  pub has_propagator : Bool
  pub ban_duration : String
  pub max_ips : ℤ
  pub ip_ttl : ℕ
  pub reporter : Option (String → String → ℕ → Bool)
  pub hash_ip : String → String
  pub fraud_reason : String → ℕ → ℤ → ℤ → String

abbrev pub add_duration : ℕ → ℤ → ℕ
add_duration now (pos n) = now + n
add_duration now (negsuc n) = now - suc n

-- 10 minutes where the configured text is no duration.
abbrev pub duration_or : Option ℤ → ℤ
duration_or none = pos 600000000000
duration_or (some d) = d

-- The row is there although the error of the second statement is returned.
unfoldable pub upsert :
    Faults → String → AntifraudBan → Dict AntifraudBan → Result (Unit {0}) × Dict AntifraudBan
upsert faults email ban rows =
    if faults upsert_ban
    then (err db_error, rows)
    else (if faults read_ban
        then (err db_error, insert email ban rows)
        else (ok tt, insert email ban rows))

unfoldable pub delete_by_email :
    Faults → String → Dict AntifraudBan → Result (Unit {0}) × Dict AntifraudBan
delete_by_email faults email rows =
    if faults delete_ban then (err db_error, rows) else (ok tt, erase email rows)

abbrev pub call : Call → Guard → Guard
call c g = record g { calls = c ∷ g.calls }

abbrev pub propagate : Config → String → String → Guard → Guard
propagate cfg command email g =
    if cfg.is_master && cfg.has_propagator then call (propagated command email) g else g

-- `cache_now` is the time at which the cache behind the sink reads its clock.
abbrev pub enforced :
    GoLib → Config → ℕ → String → ℕ → Guard → Result (Unit {0}) × Dict AntifraudBan → Guard
enforced lib cfg cache_now email expires_at g (err e, rows) = record g { rows = rows }
enforced lib cfg cache_now email expires_at g (ok _, rows) = propagate cfg "rmuser" email (
    call (ban_user email)
      (record g { rows = rows; store = set_ban lib.trim_space cache_now email expires_at g.store }))

unfoldable pub enforce : GoLib → Config → Faults → ℕ → ℕ → String → String → Guard → Guard
enforce lib cfg faults now cache_now email reason g =
    let expires_at = add_duration now (duration_or (lib.parse_duration cfg.ban_duration)) in
    enforced lib cfg cache_now email expires_at g (
      upsert faults email (record { banned_at = now; expires_at = expires_at; reason = reason })
        g.rows)

pub record Event : Type 0 where
  pub email : String
  pub ip : String
  pub is_hashed : Bool
  -- 0 is the zero time.
  pub occurred_at : ℕ

abbrev pub limit_or_one : Option ℤ → ℤ
limit_or_one none = pos 1
limit_or_one (some limit) = if leb_ℤ limit (pos 0) then pos 1 else limit

-- A miss is answered by 1, which is remembered until the limit has been read.
abbrev pub remember : String → Option ℤ → Dict ℤ → Dict ℤ
remember email none limits = insert email (pos 1) limits
remember email (some _) limits = limits

abbrev pub observed_at : ℕ → ℕ → ℕ
observed_at now occurred_at =
    if occurred_at == 0 then now else (if ltb now occurred_at then now else occurred_at)

abbrev pub decide_count :
    GoLib → Config → Faults → Clock → String → ℕ → ℤ → Guard → Result (Unit {0}) × Guard
decide_count lib cfg faults clock email count devices g =
    if ltb_ℤ (mul64 cfg.max_ips devices) (pos count)
    then (if cfg.dry_run then (ok tt, g) else (
      ok tt,
      enforce lib cfg faults (clock 2) (clock 3) email
          (cfg.fraud_reason email count (mul64 cfg.max_ips devices) devices) g,
    ))
    else (ok tt, g)

abbrev pub report_or_decide :
    GoLib
    → Config
    → Faults
    → Clock
    → Option (String → String → ℕ → Bool)
    → String
    → String
    → ℕ
    → ℕ
    → ℤ
    → Guard
    → Result (Unit {0}) × Guard
report_or_decide lib cfg faults clock (some accepts) email hash at count devices g =
    if accepts email hash at
    then (ok tt, call (reported email hash at) g)
    else (err (message "queue anti-fraud event for master"), call (reported email hash at) g)
report_or_decide lib cfg faults clock none email hash at count devices g =
    decide_count lib cfg faults clock email count devices g

abbrev pub count_event :
    GoLib → Config → Faults → Clock → String → String → ℕ → Guard → Result (Unit {0}) × Guard
count_event lib cfg faults clock email hash at g =
    let added = add_hashed_event email hash cfg.ip_ttl at g.state in
    report_or_decide lib cfg faults clock cfg.reporter email hash at added.0
      (limit_or_one (lookup email g.limits))
      (record g { state = added.1; limits = remember email (lookup email g.limits) g.limits })

abbrev pub hashed_event :
    GoLib → Config → Faults → Clock → Event → ℕ → Guard → Result (Unit {0}) × Guard
hashed_event lib cfg faults clock e at g =
    if e.is_hashed
    then count_event lib cfg faults clock e.email e.ip at g
    else (if str_eq (cfg.hash_ip e.ip) ""
        then (ok tt, g)
        else count_event lib cfg faults clock e.email (cfg.hash_ip e.ip) at g)

unfoldable pub handle_event :
    GoLib → Config → Faults → Clock → Event → Guard → Result (Unit {0}) × Guard
handle_event lib cfg faults clock e g =
    if is_banned (clock 0) e.email g.store
    then (ok tt, g)
    else (if ltb (observed_at (clock 1) e.occurred_at + cfg.ip_ttl) (clock 1)
        then (ok tt, g)
        else hashed_event lib cfg faults clock e (observed_at (clock 1) e.occurred_at) g)

abbrev pub cleared :
    GoLib
    → Config
    → String
    → (Guard → Guard)
    → Guard
    → Result (Unit {0}) × Dict AntifraudBan
    → Guard
cleared lib cfg email after g (err e, rows) = record g { rows = rows }
cleared lib cfg email after g (ok _, rows) =
    after (record g { rows = rows; store = clear_ban lib.trim_space email g.store })

unfoldable pub discard_expired_ban : GoLib → Config → Faults → String → Guard → Guard
discard_expired_ban lib cfg faults email g =
    cleared lib cfg email (λ after. after) g (delete_by_email faults email g.rows)

abbrev pub is_over : ℕ → Option ℕ → Bool
is_over now none = false
is_over now (some ends_at) = not (ltb now ends_at)

abbrev pub is_ineligible : ℕ → Subscription → User → Bool
is_ineligible now sub user =
    user.is_blocked || not (str_eq sub.status "active") || is_over now sub.ends_at

-- The user comes back to the engine, and only then the ban goes.
abbrev pub restore : GoLib → Config → Faults → (String → Bool) → String → Guard → Guard
restore lib cfg faults unban_fails email g =
    if unban_fails email
    then call (unban_user email) g
    else cleared lib cfg email (propagate cfg "newuser" email) (call (unban_user email) g)
        (delete_by_email faults email g.rows)

abbrev pub unban_user_of :
    GoLib
    → Config
    → Faults
    → (String → Bool)
    → ℕ
    → String
    → Subscription
    → Result User
    → Guard
    → Guard
unban_user_of lib cfg faults unban_fails now email sub (err not_found) g =
    discard_expired_ban lib cfg faults email g
unban_user_of lib cfg faults unban_fails now email sub (err _) g = g
unban_user_of lib cfg faults unban_fails now email sub (ok user) g =
    if is_ineligible now sub user
    then discard_expired_ban lib cfg faults email g
    else restore lib cfg faults unban_fails email g

-- `find_by_email` and `find_by_id` are the answers of the repositories of subscriptions and users.
unfoldable pub try_unban :
    GoLib
    → Config
    → Faults
    → (String → Bool)
    → ℕ
    → Result Subscription
    → (String → Result User)
    → String
    → Guard
    → Guard
try_unban lib cfg faults unban_fails now (err not_found) find_by_id email g =
    discard_expired_ban lib cfg faults email g
try_unban lib cfg faults unban_fails now (err _) find_by_id email g = g
try_unban lib cfg faults unban_fails now (ok sub) find_by_id email g =
    unban_user_of lib cfg faults unban_fails now email sub (find_by_id sub.user_id) g

-- The error of the deletion is dropped.
unfoldable pub force_unban : GoLib → Faults → String → Guard → Guard
force_unban lib faults email g = record g {
  store = clear_ban lib.trim_space email g.store;
  rows = (delete_by_email faults email g.rows).1;
}

abbrev pub recover_rows : GoLib → ℕ → Dict AntifraudBan → Guard → Guard
recover_rows lib cache_now [] g = g
recover_rows lib cache_now ((email, ban) ∷ rows) g = recover_rows lib cache_now rows (
    call (ban_user email)
      (record g { store = set_ban lib.trim_space cache_now email ban.expires_at g.store }))

unfoldable pub recover_bans_from_db : GoLib → Faults → ℕ → ℕ → Guard → Guard
recover_bans_from_db lib faults now cache_now g =
    if faults find_active
    then g
    else recover_rows lib cache_now (keep (λ r. ltb now r.1.expires_at) g.rows) g
