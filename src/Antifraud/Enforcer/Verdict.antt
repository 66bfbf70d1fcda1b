-- ===== src/Antifraud/Enforcer/Verdict.antt =====
-- analyzer.go: whom an observation bans.
use xraytool_go.Prelude.{
  ℕ, zero, suc, ◌+◌, ◌-◌, ◌≤◌, Bool, true, false, ◌&&◌, not, ◌≡◌, refl, ◌∙◌, ap, Option, none, some,
  List, [], ◌∷◌, ◌++◌, String, arith, ltb, leb, length, str_eq, eq_iff, if◌then◌else◌, Bool-cases,
  inl, inr, All,
}
use xraytool_go.Prelude.Int.{ℤ, pos, negsuc, ltb_ℤ, mul64}
use xraytool_go.Prelude.Dict.{lookup, lookup-erase}
use xraytool_go.GoLib.{GoLib, Clock}
use xraytool_go.Antifraud.{add_hashed_event, fresh}
use xraytool_go.Antifraud.Window.{Op, saw, time_of, run, recorded}
use xraytool_go.Antifraud.Counts.{add_hashed_event-count}
use xraytool_go.Antifraud.BanStore.{is_banned, set_ban}
use xraytool_go.Antifraud.Enforcer.{
  Faults, upsert_ban, read_ban, Guard, Config, Event, handle_event, enforce, upsert, add_duration,
  duration_or, limit_or_one, observed_at,
}

-- The time of an observation: now if it has none, and never after now.
abbrev pub moment : ℕ → ℕ → ℕ
moment now zero = now
moment now (suc t) = now - (now - suc t)

-- The devices that a user may have: 1 if the limit is unknown or below 1.
abbrev pub allowed_devices : Option ℤ → ℤ
allowed_devices none = pos 1
allowed_devices (some (pos n)) = pos (1 + (n - 1))
allowed_devices (some (negsuc n)) = pos 1

-- The end of a ban that starts at a time: 10 minutes later if the duration cannot be read.
abbrev pub ban_end : ℕ → Option ℤ → ℕ
ban_end now none = now + 600000000000
ban_end now (some (pos d)) = now + d
ban_end now (some (negsuc d)) = now - suc d

abbrev pub hash_of : Config → Event → String
hash_of cfg e = if e.is_hashed then e.ip else cfg.hash_ip e.ip

-- How many addresses of the user a record of all observations, never pruned, has within the window.
abbrev pub addresses : Config → ℕ → List Op → Event → ℕ
addresses cfg at os e =
    length (fresh cfg.ip_ttl at (recorded e.email (os ++ saw e.email (hash_of cfg e) at ∷ []) []))

-- The observation bans its user.
abbrev pub is_banning : Config → ℕ → List Op → Event → Option ℤ → Bool
is_banning cfg now os e limit =
    leb now (moment now e.occurred_at + cfg.ip_ttl)
    && (not cfg.dry_run
        && ltb_ℤ (mul64 cfg.max_ips (allowed_devices limit))
            (pos (addresses cfg (moment now e.occurred_at) os e)))

moment_lem : (now t : ℕ) → observed_at now t ≡ moment now t
moment_lem now zero = ground arith
moment_lem now (suc t) = ground arith

allowed_lem : (limit : Option ℤ) → limit_or_one limit ≡ allowed_devices limit
allowed_lem none = refl
allowed_lem (some (pos n)) = ground arith
allowed_lem (some (negsuc n)) = ground arith

ban_end_lem : (now : ℕ) (d : Option ℤ) → add_duration now (duration_or d) ≡ ban_end now d
ban_end_lem now none = refl
ban_end_lem now (some (pos d)) = refl
ban_end_lem now (some (negsuc d)) = refl

-- The decision with the count that the analyzer has.
decided :
    (lib : GoLib) (cfg : Config) (faults : Faults) (clock : Clock) (e : Event) (g : Guard)
    (email : String) (at : ℕ)
    → faults upsert_ban ≡ false
    → faults read_ban ≡ false
    → cfg.reporter ≡ none
    → str_eq (hash_of cfg e) "" ≡ false
    → is_banned at email (handle_event lib cfg faults clock e g).1.store ≡ (
        if not (is_banned (clock 0) e.email g.store)
          && (leb (clock 1) (observed_at (clock 1) e.occurred_at + cfg.ip_ttl)
              && (not cfg.dry_run
                  && (ltb_ℤ (mul64 cfg.max_ips (limit_or_one (lookup e.email g.limits))) (
                        pos
                          (add_hashed_event e.email
                            (hash_of cfg e)
                            cfg.ip_ttl
                            (observed_at (clock 1) e.occurred_at)
                            g.state).0)
                      && str_eq e.email email)))
        then ltb at (add_duration (clock 2) (duration_or (lib.parse_duration cfg.ban_duration)))
        else is_banned at email g.store)
unfolding handle_event enforce upsert set_ban is_banned
decided lib cfg faults clock e g email at u r rep hashed = elim (Bool-cases e.is_hashed) [
  | inl given ↦ ground (arith, eq_iff e.email email, lookup-erase e.email email g.store.bans)
  | inr plain ↦ ground (arith, eq_iff e.email email, lookup-erase e.email email g.store.bans)
]

and_assoc : (a b c d : Bool) → (a && (b && (c && d))) ≡ ((a && (b && c)) && d)
and_assoc true true true d = refl
and_assoc true true false d = refl
and_assoc true false c d = refl
and_assoc false b c d = refl

-- When the statements on the table succeed and there is no master to report to, an observation of
-- an address that is not empty once hashed, after any observations and runs of the cleaner that
-- are not later than it: it bans its user if the user is not banned, it lies within the window,
-- the module is not in dry-run mode, and the addresses of the user that an unpruned record has
-- within the window are more than the configured number for each device that the user's limit
-- allows, 1 if the limit is unknown or below 1. The user is then banned at any time exactly until
-- the configured duration (10 minutes if it cannot be read) from the decision has passed; every
-- other user, and without a ban every user, is banned as before.
pub handle_event-is_banned :
    (lib : GoLib) (cfg : Config) (faults : Faults) (clock : Clock) (os : List Op) (e : Event)
    (g : Guard) (email : String) (at : ℕ)
    → faults upsert_ban ≡ false
    → faults read_ban ≡ false
    → cfg.reporter ≡ none
    → str_eq (hash_of cfg e) "" ≡ false
    → g.state ≡ run cfg.ip_ttl os (record { users = [] })
    → All (λ o. time_of o ≤ moment (clock 1) e.occurred_at) os
    → is_banned at email (handle_event lib cfg faults clock e g).1.store ≡ (
        if not (is_banned (clock 0) e.email g.store)
          && (is_banning cfg (clock 1) os e (lookup e.email g.limits) && str_eq e.email email)
        then ltb at (ban_end (clock 2) (lib.parse_duration cfg.ban_duration))
        else is_banned at email g.store)
handle_event-is_banned lib cfg faults clock os e g email at u r rep hashed past order =
    let now = clock 1 in
    let moment_eq = moment_lem now e.occurred_at in
    let limit_eq = allowed_lem (lookup e.email g.limits) in
    let count_eq : (add_hashed_event e.email (hash_of cfg e) cfg.ip_ttl (moment now e.occurred_at)
          g.state).0
        ≡ addresses cfg (moment now e.occurred_at) os e =
      ap (λ s. (add_hashed_event e.email (hash_of cfg e) cfg.ip_ttl (moment now e.occurred_at) s).0)
        past
      ∙ add_hashed_event-count cfg.ip_ttl (moment now e.occurred_at) os e.email (hash_of cfg e)
          order hashed in
    let end_eq = ban_end_lem (clock 2) (lib.parse_duration cfg.ban_duration) in
    decided lib cfg faults clock e g email at u r rep hashed
    ∙ rw moment_eq (
        rw limit_eq (
          rw count_eq (
            rw end_eq (
              ap
                (λ b.
                  if not (is_banned (clock 0) e.email g.store) && b
                  then ltb at (ban_end (clock 2) (lib.parse_duration cfg.ban_duration))
                  else is_banned at email g.store)
                (and_assoc (leb now (moment now e.occurred_at + cfg.ip_ttl)) (not cfg.dry_run)
                  (ltb_ℤ (mul64 cfg.max_ips (allowed_devices (lookup e.email g.limits)))
                    (pos (addresses cfg (moment now e.occurred_at) os e)))
                  (str_eq e.email email))))))
