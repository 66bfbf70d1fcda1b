-- ===== src/Otp/Lost.antt =====
-- auth_cache.go: entries that have left the cache, under any interleaving.
use xraytool_go.Prelude.{
  ℕ, ◌<◌, ◌==◌, Bool, false, ◌≡◌, refl, some, List, [], ◌∷◌, String, arith, exists, first, str_eq,
  Option-cases, inl, inr,
}
use xraytool_go.Otp.{
  OtpElement, OtpLruCache, OtpState, find, removed, touch, get, get_or_create, evict, last, delete,
  hold, issue, look_up, check, drop, sweep_expired, Step, holds, issues, looks_up, checks, drops,
  sweeps, Reach, here, next,
}
use xraytool_go.Otp.Lists.{none-drop_last}
use xraytool_go.Otp.Sweep.{sweep-none}

-- No element of the list has the property.
module _ (p : OtpElement → Bool) where
  pub none-removed :
      (i : String) (es : List OtpElement) → exists p es ≡ false → exists p (removed i es) ≡ false
  none-removed i [] h = refl
  none-removed i (e ∷ es) h = ground (arith, none-removed i es)

  none-first :
      (q : OtpElement → Bool) (es : List OtpElement) (e : OtpElement)
      → exists p es ≡ false
      → first q es ≡ some e
      → p e ≡ false
  none-first q [] e h f = cc
  none-first q (x ∷ es) e h f = ground (arith, none-first q es e)

  pub none-find :
      (i : String) (c : OtpLruCache) (e : OtpElement)
      → exists p c.order ≡ false
      → find i c ≡ some e
      → p e ≡ false
  none-find i c e h f = ground (arith, none-first (λ x. str_eq x.identifier i) c.order e h)

  none-touch :
      (i : String) (c : OtpLruCache) (e : OtpElement)
      → exists p c.order ≡ false
      → find i c ≡ some e
      → exists p (touch e c).order ≡ false
  none-touch i c e h f = ground (arith, none-find i c e h f, none-removed e.identifier c.order h)

  pub none-get :
      (i : String) (c : OtpLruCache) → exists p c.order ≡ false → exists p (get i c).1.order ≡ false
  unfolding get
  none-get i c h = elim (Option-cases (find i c)) [
    | inl missing ↦ rw missing h
    | inr (e, f) ↦ rw f (none-touch i c e h f)
  ]

  none-evict : (c : OtpLruCache) → exists p c.order ≡ false → exists p (evict c).order ≡ false
  unfolding evict
  none-evict c h = elim (Option-cases (last c.order)) [
    | inl empty ↦ ground arith
    | inr (e, f) ↦ ground (arith, none-drop_last p c.order h)
  ]

  pub none-get_or_create :
      (i : String) (ref : ℕ) (c : OtpLruCache)
      → exists p c.order ≡ false
      → p (record { identifier = i; ref = ref }) ≡ false
      → exists p (get_or_create i ref c).1.order ≡ false
  unfolding get_or_create
  none-get_or_create i ref c h n = elim (Option-cases (find i c)) [
    | inl missing ↦ rw missing (ground (arith, none-evict c h))
    | inr (e, f) ↦ rw f (none-touch i c e h f)
  ]

  pub none-delete :
      (i : String) (c : OtpLruCache)
      → exists p c.order ≡ false
      → exists p (delete i c).order ≡ false
  unfolding delete
  none-delete i c h = ground (arith, none-removed i c.order h)

-- The entry behind a pointer has been made, and is not in the cache.
abbrev pub points_to : ℕ → OtpElement → Bool
points_to ref e = e.ref == ref

abbrev pub IsLost : ℕ → OtpState → Type 0
IsLost ref s = (ref < s.next) × (exists (points_to ref) s.cache.order ≡ false)

module _ (mac : String → String) where
  step-IsLost : (ref : ℕ) {s t : OtpState} → Step mac s t → IsLost ref s → IsLost ref t
  unfolding hold issue look_up check drop sweep_expired
  step-IsLost ref (holds i s) (l, h) =
      (ground arith, none-get_or_create (points_to ref) i s.next s.cache h (ground arith))
  step-IsLost ref (issues now ttl code payload r s) (l, h) = (ground arith, ground arith)
  step-IsLost ref (looks_up i s) (l, h) = (l, none-get (points_to ref) i s.cache h)
  step-IsLost ref (checks now code r s) (l, h) = (ground arith, ground arith)
  step-IsLost ref (drops i s) (l, h) = (l, none-delete (points_to ref) i s.cache h)
  step-IsLost ref (sweeps now s) (l, h) =
      (l, sweep-none s.entries now (points_to ref) s.cache.order s.cache.items h)

  pub run-IsLost : (ref : ℕ) {s t : OtpState} → Reach mac s t → IsLost ref s → IsLost ref t
  run-IsLost ref here l = l
  run-IsLost ref (next step run) l = run-IsLost ref run (step-IsLost ref step l)
