-- ===== src/BanCache/Laws.antt =====
-- What the cache of bans answers after a decision, and what its lazy eviction may remove.
use xraytool_go.Prelude.{
  ℕ, ◌≤◌, Bool, false, ◌&&◌, not, ◌≡◌, Option, none, some, [], ◌∷◌, String, arith, ltb, str_eq,
  eq_iff, if◌then◌else◌,
}
use xraytool_go.BanCache.{Bans, lookup, without, push_unban, push_ban_update, evict, is_banned}

pub lookup-without :
    (e f : String) (bans : Bans)
    → lookup f (without e bans) ≡ (if str_eq e f then none else lookup f bans)
lookup-without e f [] = ground arith
lookup-without e f ((g, t) ∷ bans) =
    ground (arith, lookup-without e f bans, eq_iff e f, eq_iff g e, eq_iff g f)

-- Whether a ban is in force.
abbrev pub in_force : ℕ → Option ℕ → Bool
in_force now none = false
in_force now (some t) = ltb now t

pub is_banned-lookup :
    (trim : String → String) (now later : ℕ) (between : Bans → Bans) (email : String) (bans : Bans)
    → (is_banned trim now later between email bans).0
      ≡ (not (str_eq (trim email) "") && in_force now (lookup (trim email) bans))
unfolding is_banned
is_banned-lookup trim now later between email bans = ground arith

-- After a decision an address is banned exactly when it is the decision's, up to the spaces around
-- it, and the decision has not run out, or when it is another one that was banned before; trimming
-- a trimmed address is taken to change nothing.
pub push-is_banned :
    (trim : String → String)
    → ((s : String) → trim (trim s) ≡ trim s)
    → (now now' later : ℕ) (between : Bans → Bans) (email other : String) (banned_until : ℕ)
      (bans : Bans)
    → now ≤ now'
    → (is_banned trim now' later between other (push_ban_update trim now email banned_until bans)).0
      ≡ (if str_eq (trim email) (trim other)
          then not (str_eq (trim email) "") && ltb now' banned_until
          else (is_banned trim now' later between other bans).0)
unfolding push_ban_update push_unban
push-is_banned trim idem now now' later between email other banned_until bans h =
    let pushed = push_ban_update trim now email banned_until bans in
    ground (
      arith,
      is_banned-lookup trim now' later between other pushed,
      is_banned-lookup trim now' later between other bans,
      lookup-without (trim email) (trim other) bans,
      idem email,
      eq_iff (trim email) (trim other),
      eq_iff (trim email) "",
      eq_iff (trim other) "",
    )

lookup-evict :
    (now later expires_at : ℕ) (email f : String) (bans : Bans)
    → later ≤ now
    → in_force now (lookup f (evict later email expires_at bans)) ≡ in_force now (lookup f bans)
lookup-evict now later expires_at email f bans h =
    ground (arith, lookup-without email f bans, eq_iff email f)

-- The lazy eviction changes no later answer: in whatever state other calls have left the cache since
-- the entry was read, every address is banned after the eviction exactly when it was before, from
-- the eviction's reading of the clock on.
pub evict-is_banned :
    (trim : String → String) (now later later' expires_at : ℕ) (between : Bans → Bans)
    (email other : String) (bans : Bans)
    → later' ≤ now
    → (is_banned trim now later between other (evict later' email expires_at bans)).0
      ≡ (is_banned trim now later between other bans).0
evict-is_banned trim now later later' expires_at between email other bans h = cc (
  is_banned-lookup trim now later between other (evict later' email expires_at bans),
  is_banned-lookup trim now later between other bans,
  lookup-evict now later' expires_at email (trim other) bans h,
)
