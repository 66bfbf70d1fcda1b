-- ===== src/Antifraud/BanStore/Mirror.antt =====
-- module.go and internal/pluginhost/bancache.go: the cache against the store that pushes to it.
use xraytool_go.Prelude.{
  ℕ, ◌≤◌, false, ◌&&◌, not, ◌≡◌, refl, ap, ◌∙◌, Option, none, some, List, [], ◌∷◌, String, arith,
  ltb, str_eq, eq_iff, if◌then◌else◌, Bool-cases, inl, inr, All,
}
use xraytool_go.Prelude.Dict.{Dict, lookup, IsDict, lookup-erase, lookup-none, tail-IsDict}
use xraytool_go.BanCache
use xraytool_go.BanCache.{Bans, push_ban_update, push_unban}
use xraytool_go.BanCache.Laws.{in_force, is_banned-lookup, lookup-without}
use xraytool_go.Antifraud.BanStore.{
  BanStore, is_in_force, is_banned, pushed, set_ban, clear_ban, replay, set_sink,
}

-- A decision of the provider, at the time at which the cache reads its clock.
pub data Decision : Type 0 where
  ban : ℕ → String → ℕ → Decision
  unban : ℕ → String → Decision

abbrev pub decided_at : Decision → ℕ
decided_at (ban now email expires_at) = now
decided_at (unban now email) = now

abbrev pub address : Decision → String
address (ban now email expires_at) = email
address (unban now email) = email

abbrev pub decide : (String → String) → Decision → BanStore → BanStore
decide trim (ban now email expires_at) b = set_ban trim now email expires_at b
decide trim (unban now email) b = clear_ban trim email b

abbrev pub decide_all : (String → String) → List Decision → BanStore → BanStore
decide_all trim [] b = b
decide_all trim (d ∷ ds) b = decide_all trim ds (decide trim d b)

-- An address that is not empty and has no spaces around it.
pub record IsTrimmed (trim : String → String) (email : String) : Type 0 where
  pub trimmed : trim email ≡ email
  pub given : str_eq email "" ≡ false

module _ (trim : String → String) (n : ℕ) where
  push-lookup :
      (now : ℕ) (email f : String) (until : ℕ) (cache : Bans)
      → now ≤ n
      → IsTrimmed trim email
      → is_in_force n (BanCache.lookup f (push_ban_update trim now email until cache))
        ≡ (if str_eq email f then ltb n until else is_in_force n (BanCache.lookup f cache))
  unfolding push_ban_update push_unban
  push-lookup now email f until cache l t =
      rw (t.trimmed, t.trimmed, t.given)
        (ground (arith, eq_iff email f, lookup-without email f cache))

  unban-lookup :
      (email f : String) (cache : Bans)
      → IsTrimmed trim email
      → is_in_force n (BanCache.lookup f (push_unban trim email cache))
        ≡ (if str_eq email f then false else is_in_force n (BanCache.lookup f cache))
  unfolding push_unban
  unban-lookup email f cache t = ground (arith, t.trimmed, t.given, lookup-without email f cache)

  abbrev or_else : Option ℕ → Option ℕ → Option ℕ
  or_else none o = o
  or_else (some t) o = some t

  replay-lookup :
      (now : ℕ) (f : String) (bans : Dict ℕ) (cache : Bans)
      → now ≤ n
      → IsDict bans
      → All (λ (e : String × ℕ). IsTrimmed trim e.0) bans
      → is_in_force n (BanCache.lookup f (replay trim now bans cache))
        ≡ is_in_force n (or_else (lookup f bans) (BanCache.lookup f cache))
  replay-lookup now f [] cache l d t = refl
  replay-lookup now f ((e, until) ∷ bans) cache l d t =
      let rest =
        replay-lookup now f bans (push_ban_update trim now e until cache) l
          (tail-IsDict e until bans d) t.1 in
      let first = push-lookup now e f until cache l t.0 in
      elim (Bool-cases (str_eq e f)) [
        | inl same ↦
            let gone : lookup f bans ≡ none = lookup-none f bans (ground (arith, d f)) in
            ground arith
        | inr other ↦ by_rest (lookup f bans) rest first other
      ]
    where
      by_rest :
          (o : Option ℕ)
          → is_in_force n
              (BanCache.lookup f (replay trim now bans (push_ban_update trim now e until cache)))
            ≡ is_in_force n (or_else o (BanCache.lookup f (push_ban_update trim now e until cache)))
          → is_in_force n (BanCache.lookup f (push_ban_update trim now e until cache))
            ≡ (if str_eq e f then ltb n until else is_in_force n (BanCache.lookup f cache))
          → str_eq e f ≡ false
          → is_in_force n
              (BanCache.lookup f (replay trim now bans (push_ban_update trim now e until cache)))
            ≡ is_in_force n
                (or_else (if str_eq e f then some until else o) (BanCache.lookup f cache))
      by_rest none r h k = ground arith
      by_rest (some x) r h k = ground arith

  -- A store whose sink has a cache that bans, at the time `n`, whom the store bans.
  record Mirrors (b : BanStore) : Type 0 where
    cache : Bans
    attached : b.sink ≡ some cache
    agrees :
        (f : String) → is_in_force n (BanCache.lookup f cache) ≡ is_in_force n (lookup f b.bans)

  set_sink-Mirrors :
      (now : ℕ) (b : BanStore)
      → now ≤ n
      → IsDict b.bans
      → All (λ (e : String × ℕ). IsTrimmed trim e.0) b.bans
      → Mirrors (set_sink trim now (some []) b)
  unfolding set_sink
  set_sink-Mirrors now b l d t = record {
    cache = replay trim now b.bans [];
    attached = refl;
    agrees = λ f. replay-lookup now f b.bans [] l d t ∙ or_none (lookup f b.bans);
  }
    where
      or_none : (o : Option ℕ) → is_in_force n (or_else o none) ≡ is_in_force n o
      or_none none = refl
      or_none (some t) = refl

  decide-Mirrors :
      (d : Decision) (b : BanStore)
      → decided_at d ≤ n
      → IsTrimmed trim (address d)
      → Mirrors b
      → Mirrors (decide trim d b)
  unfolding set_ban clear_ban
  decide-Mirrors (ban now email until) b l t m = record {
    cache = push_ban_update trim now email until m.cache;
    attached = ap (pushed (push_ban_update trim now email until)) m.attached;
    agrees = λ f.
        push-lookup now email f until m.cache l t
        ∙ ground (arith, m.agrees f, lookup-erase email f b.bans);
  }
  decide-Mirrors (unban now email) b l t m = record {
    cache = push_unban trim email m.cache;
    attached = ap (pushed (push_unban trim email)) m.attached;
    agrees = λ f.
        unban-lookup email f m.cache t ∙ ground (arith, m.agrees f, lookup-erase email f b.bans);
  }

  decide_all-Mirrors :
      (ds : List Decision) (b : BanStore)
      → All (λ d. decided_at d ≤ n) ds
      → All (λ d. IsTrimmed trim (address d)) ds
      → Mirrors b
      → Mirrors (decide_all trim ds b)
  decide_all-Mirrors [] b l t m = m
  decide_all-Mirrors (d ∷ ds) b l t m =
      decide_all-Mirrors ds (decide trim d b) l.1 t.1 (decide-Mirrors d b l.0 t.0 m)

  same_force : (o : Option ℕ) → in_force n o ≡ is_in_force n o
  same_force none = refl
  same_force (some t) = refl

-- The cache implements the store: when an empty cache is set as the sink of a store of bans without
-- repeated addresses, and decisions follow, at no time later than `now`, all about addresses that
-- trimming leaves alone and that are not empty, then the sink has a cache that at `now` answers for
-- every such address what the store answers, whatever other calls do between the cache's locks.
pub decide_all-is_banned :
    (trim : String → String) (now later set_at : ℕ) (between : Bans → Bans) (ds : List Decision)
    (b : BanStore) (email : String)
    → set_at ≤ now
    → All (λ d. decided_at d ≤ now) ds
    → All (λ d. IsTrimmed trim (address d)) ds
    → IsDict b.bans
    → All (λ (e : String × ℕ). IsTrimmed trim e.0) b.bans
    → IsTrimmed trim email
    → (cache : Bans) × ((decide_all trim ds (set_sink trim set_at (some []) b)).sink ≡ some cache)
      × ((BanCache.is_banned trim now later between email cache).0
          ≡ is_banned now email (decide_all trim ds (set_sink trim set_at (some []) b)))
unfolding is_banned
decide_all-is_banned trim now later set_at between ds b email s l t d u e =
    let after = decide_all trim ds (set_sink trim set_at (some []) b) in
    let m =
      decide_all-Mirrors trim now ds (set_sink trim set_at (some []) b) l t
        (set_sink-Mirrors trim now set_at b s d u) in
    let asked : (not (str_eq (trim email) "")
          && in_force now (BanCache.lookup (trim email) m.cache))
        ≡ is_in_force now (BanCache.lookup email m.cache) =
      rw (e.trimmed, e.given) (same_force trim now (BanCache.lookup email m.cache)) in
    (
      m.cache,
      m.attached,
      is_banned-lookup trim now later between email m.cache ∙ asked ∙ m.agrees email,
    )
