-- ===== src/Antifraud.antt =====
-- internal/plugins/antifraud/state.go: the addresses that each user has been seen at.
pub mod Window
pub mod Counts
pub mod BanStore
pub mod Enforcer
use xraytool_go.Prelude.{
  ℕ, ◌+◌, Bool, true, false, not, Option, none, some, List, [], ◌∷◌, String, keep, length, ltb,
  str_eq, if◌then◌else◌,
}
use xraytool_go.Prelude.Dict.{Dict, lookup, erase, insert}

-- When each address was seen last; the addresses are hashed.
abbrev pub Ips : Type 0
Ips = Dict ℕ

pub record State : Type 0 where
  pub users : Dict Ips

abbrev pub ips_or_empty : Option Ips → Ips
ips_or_empty none = []
ips_or_empty (some ips) = ips

abbrev pub ips_of : String → State → Ips
ips_of email s = ips_or_empty (lookup email s.users)

-- Whether an observation replaces what is known.
abbrev pub is_newer : ℕ → Option ℕ → Bool
is_newer now none = true
is_newer now (some last_seen) = ltb last_seen now

abbrev pub see : String → ℕ → Ips → Ips
see ip now ips = if is_newer now (lookup ip ips) then insert ip now ips else ips

-- The end of the window has passed.
abbrev pub is_stale : ℕ → ℕ → ℕ → Bool
is_stale ttl now last_seen = ltb (last_seen + ttl) now

abbrev pub fresh : ℕ → ℕ → Ips → Ips
fresh ttl now ips = keep (λ e. not (is_stale ttl now e.1)) ips

abbrev pub set_ips : String → Ips → State → State
set_ips email ips s = record { users = insert email ips s.users }

abbrev pub add_hashed_event_locked : String → String → ℕ → ℕ → State → ℕ × State
add_hashed_event_locked email ip ttl now s =
    let seen = fresh ttl now (see ip now (ips_of email s)) in (length seen, set_ips email seen s)

unfoldable pub active_ip_count : String → State → ℕ
active_ip_count email s = length (ips_of email s)

unfoldable pub add_hashed_event : String → String → ℕ → ℕ → State → ℕ × State
add_hashed_event email ip ttl now s =
    if str_eq ip ""
    then (active_ip_count email s, s)
    else add_hashed_event_locked email ip ttl now s

-- `hash_ip` is the HMAC of a canonical address, or empty.
unfoldable pub add_event : (String → String) → String → String → ℕ → ℕ → State → ℕ × State
add_event hash_ip email ip ttl now s =
    if str_eq (hash_ip ip) ""
    then (active_ip_count email s, s)
    else add_hashed_event email (hash_ip ip) ttl now s

abbrev pub clean_users : ℕ → ℕ → Dict Ips → Dict Ips
clean_users ttl now [] = []
clean_users ttl now ((email, ips) ∷ users) =
    let rest = clean_users ttl now users in
    elim (fresh ttl now ips) [ [] ↦ rest | e ∷ es ↦ (email, e ∷ es) ∷ rest ]

unfoldable pub clean : ℕ → ℕ → State → State
clean ttl now s = record { users = clean_users ttl now s.users }
