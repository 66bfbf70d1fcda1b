-- ===== src/Otp/Sweep.antt =====
-- auth_cache.go: sweepExpired, and the map against the list.
use xraytool_go.Prelude.{
  ℕ, ◌≤◌, Bool, true, false, ◌≡◌, refl, List, [], ◌∷◌, String, arith, exists, length, eq_iff,
  Bool-cases, inl, inr, if◌then◌else◌, ltb,
}
use xraytool_go.Otp.{OtpElement, OtpEntry, OtpState, is_for, has_key, sweep, sweep_expired}
use xraytool_go.Otp.Lists.{IsDistinct, has_key-without_key}
use xraytool_go.Otp.Invariant.{IsValid}

-- The rows that a sweep keeps are rows of the list.
pub sweep-none :
    (entries : ℕ → OtpEntry) (now : ℕ) (p : OtpElement → Bool) (es : List OtpElement)
    (ks : List String)
    → exists p es ≡ false
    → exists p (sweep entries now es ks).0 ≡ false
sweep-none entries now p [] ks h = refl
sweep-none entries now p (e ∷ es) ks h = ground (arith, sweep-none entries now p es ks)

length-sweep :
    (entries : ℕ → OtpEntry) (now : ℕ) (es : List OtpElement) (ks : List String)
    → length (sweep entries now es ks).0 ≤ length es
length-sweep entries now [] ks = omega arith
length-sweep entries now (e ∷ es) ks = ground (arith, length-sweep entries now es ks)

IsDistinct-sweep :
    (entries : ℕ → OtpEntry) (now : ℕ) (es : List OtpElement) (ks : List String)
    → IsDistinct es
    → IsDistinct (sweep entries now es ks).0
IsDistinct-sweep entries now [] ks d = tt
IsDistinct-sweep entries now (e ∷ es) ks d =
    elim (Bool-cases (ltb (entries e.ref).expires_at now)) [
      | inl old ↦ rw old (IsDistinct-sweep entries now es ks d.1)
      | inr fresh ↦ rw fresh (
        sweep-none entries now (is_for e.identifier) es ks d.0,
        IsDistinct-sweep entries now es ks d.1,
      )
    ]

sweep-synced :
    (entries : ℕ → OtpEntry) (now : ℕ) (j : String) (es : List OtpElement) (ks : List String)
    → IsDistinct es
    → (exists (is_for j) es ≡ true → has_key j ks ≡ true)
    → has_key j (sweep entries now es ks).1 ≡ (
        if exists (is_for j) es
        then exists (is_for j) (sweep entries now es ks).0
        else has_key j ks)
sweep-synced entries now j [] ks d h = refl
sweep-synced entries now j (e ∷ es) ks d h = ground (
  arith,
  sweep-synced entries now j es ks d.1,
  has_key-without_key e.identifier j (sweep entries now es ks).1,
  eq_iff e.identifier j,
  sweep-none entries now (is_for j) es ks,
  d.0,
)

pub sweep_expired-IsValid :
    (now : ℕ) (s : OtpState) → IsValid s.cache → IsValid (sweep_expired now s).cache
unfolding sweep_expired
sweep_expired-IsValid now s v =
    let c = s.cache in
    record {
      sized = v.sized;
      bounded = omega (arith, length-sweep s.entries now c.order c.items, v.bounded);
      synced = λ j. ground (
        arith,
        sweep-synced s.entries now j c.order c.items v.distinct,
        v.synced j,
        sweep-none s.entries now (is_for j) c.order c.items,
      );
      distinct = IsDistinct-sweep s.entries now c.order c.items v.distinct;
    }
