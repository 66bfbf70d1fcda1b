-- ===== src/BanCache.antt =====
-- internal/pluginhost/bancache.go: LocalBanCache, the bans that an antifraud provider pushes.
pub mod Laws
use xraytool_go.Prelude.{
  ℕ, Bool, true, false, ◌&&◌, not, Option, none, some, List, [], ◌∷◌, String, ltb, ◌==◌, str_eq,
  if◌then◌else◌,
}

-- The map from e-mail addresses to the ends of their bans.
abbrev pub Bans : Type 0
Bans = List (String × ℕ)

abbrev pub lookup : String → Bans → Option ℕ
lookup email [] = none
lookup email ((e, t) ∷ bans) = if str_eq e email then some t else lookup email bans

abbrev pub without : String → Bans → Bans
without email [] = []
without email ((e, t) ∷ bans) =
    let rest = without email bans in if str_eq e email then rest else (e, t) ∷ rest

abbrev pub insert : String → ℕ → Bans → Bans
insert email t bans = (email, t) ∷ without email bans

-- `trim` is strings.TrimSpace.
unfoldable pub push_unban : (String → String) → String → Bans → Bans
push_unban trim email bans = if str_eq (trim email) "" then bans else without (trim email) bans

-- The call trims the address again.
unfoldable pub push_ban_update : (String → String) → ℕ → String → ℕ → Bans → Bans
push_ban_update trim now email banned_until bans =
    if str_eq (trim email) ""
    then bans
    else (if not (ltb now banned_until)
        then push_unban trim (trim email) bans
        else insert (trim email) banned_until bans)

-- The lazy eviction: an expired entry goes, unless it has been replaced since it was read.
abbrev pub is_stale : ℕ → ℕ → Option ℕ → Bool
is_stale now expires_at none = false
is_stale now expires_at (some current) = current == expires_at && not (ltb now current)

abbrev pub evict : ℕ → String → ℕ → Bans → Bans
evict now email expires_at bans =
    if is_stale now expires_at (lookup email bans) then without email bans else bans

-- The answer, and the cache after it. The first reading of the clock compares, the second one is
-- taken by the eviction. `between` is what other calls do between the two locks.
abbrev pub answer : ℕ → ℕ → (Bans → Bans) → String → Option ℕ → Bans → Bool × Bans
answer now later between email none bans = (false, bans)
answer now later between email (some expires_at) bans =
    if ltb now expires_at
    then (true, bans)
    else (false, evict later email expires_at (between bans))

unfoldable pub is_banned : (String → String) → ℕ → ℕ → (Bans → Bans) → String → Bans → Bool × Bans
is_banned trim now later between email bans =
    if str_eq (trim email) ""
    then (false, bans)
    else answer now later between (trim email) (lookup (trim email) bans) bans
