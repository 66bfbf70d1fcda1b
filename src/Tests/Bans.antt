-- ===== src/Tests/Bans.antt =====
-- Bans of two addresses.
use xraytool_go.Prelude.{◌≡◌, refl, not, ◌&&◌, String, [], ◌∷◌, ltb, str_eq, arith, if◌then◌else◌}
use xraytool_go.BanCache.{Bans, evict, is_banned, push_ban_update}
use xraytool_go.BanCache.Laws.{evict-is_banned, push-is_banned}

abbrev trim : String → String
trim s = s

abbrev undisturbed : Bans → Bans
undisturbed bans = bans

abbrev bans : Bans
bans = ("a@x.org", 50) ∷ ("b@x.org", 90) ∷ []

push-is_banned_example :
    (is_banned trim 60 61 undisturbed "b@x.org" (push_ban_update trim 40 "a@x.org" 70 bans)).0 ≡ (
      if str_eq "a@x.org" "b@x.org"
      then not (str_eq "a@x.org" "") && ltb 60 70
      else (is_banned trim 60 61 undisturbed "b@x.org" bans).0)
push-is_banned_example =
    push-is_banned trim (λ s. refl) 40 60 61 undisturbed "a@x.org" "b@x.org" 70 bans (omega arith)

evict-is_banned_example :
    (is_banned trim 70 71 undisturbed "b@x.org" (evict 60 "a@x.org" 50 bans)).0
    ≡ (is_banned trim 70 71 undisturbed "b@x.org" bans).0
evict-is_banned_example =
    evict-is_banned trim 70 71 60 50 undisturbed "a@x.org" "b@x.org" bans (omega arith)
