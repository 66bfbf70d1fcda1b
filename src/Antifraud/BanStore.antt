-- ===== src/Antifraud/BanStore.antt =====
-- internal/plugins/antifraud/module.go: banStore, the active bans, and the cache that it pushes to.
pub mod Mirror
use xraytool_go.Prelude.{
  ℕ, Bool, true, false, Option, none, some, List, [], ◌∷◌, String, ltb, if◌then◌else◌,
}
use xraytool_go.Prelude.Dict.{Dict, lookup, erase, insert}
use xraytool_go.BanCache.{Bans, push_ban_update, push_unban}

-- The ends of the bans, and the contents of the cache that the sink writes, if there is one.
pub record BanStore : Type 0 where
  pub bans : Dict ℕ
  pub sink : Option Bans

abbrev pub is_in_force : ℕ → Option ℕ → Bool
is_in_force now none = false
is_in_force now (some expires_at) = ltb now expires_at

unfoldable pub is_banned : ℕ → String → BanStore → Bool
is_banned now email b = is_in_force now (lookup email b.bans)

abbrev pub pushed : (Bans → Bans) → Option Bans → Option Bans
pushed f none = none
pushed f (some cache) = some (f cache)

-- `trim` is strings.TrimSpace, and `now` the time at which the cache reads its clock.
unfoldable pub set_ban : (String → String) → ℕ → String → ℕ → BanStore → BanStore
set_ban trim now email expires_at b = record {
  bans = insert email expires_at b.bans;
  sink = pushed (push_ban_update trim now email expires_at) b.sink;
}

unfoldable pub clear_ban : (String → String) → String → BanStore → BanStore
clear_ban trim email b = record {
  bans = erase email b.bans;
  sink = pushed (push_unban trim email) b.sink;
}

abbrev pub replay : (String → String) → ℕ → Dict ℕ → Bans → Bans
replay trim now [] cache = cache
replay trim now ((email, expires_at) ∷ bans) cache =
    replay trim now bans (push_ban_update trim now email expires_at cache)

unfoldable pub set_sink : (String → String) → ℕ → Option Bans → BanStore → BanStore
set_sink trim now sink b = record b { sink = pushed (replay trim now b.bans) sink }
