-- ===== src/Otp/Limits.antt =====
-- auth_cache.go: the requests for one-time codes and the guesses at them, each call without another
-- one between its critical sections.
use xraytool_go.Prelude.{
  ℕ, ◌≤◌, true, ◌≡◌, refl, ◌∙◌, none, some, String, arith, eq_iff, str_eq_refl, Bool-cases,
  Option-cases, inl, inr, leb,
}
use mathlib.Core.Path.{subst}
use xraytool_go.Prelude.Int.{ℤ}
use xraytool_go.Otp.{
  OtpElement, OtpEntry, OtpLruCache, OtpState, find, touch, push, evict, get, get_or_create, hold,
  issue, look_up, check, finish, written, delete, refreshed, issued, later, request_otp, verify_otp,
  hmac_equal,
}
use xraytool_go.Otp.Lists.{has_key-without_key}
use xraytool_go.Otp.Invariant.{find-is_for}

pub find-delete : (i : String) (c : OtpLruCache) → find i (delete i c) ≡ none
unfolding delete
find-delete i c = ground (arith, has_key-without_key i i c.items, eq_iff i i)

pub find-touch :
    (i : String) (c : OtpLruCache) (e : OtpElement)
    → find i c ≡ some e
    → find i (touch e c) ≡ some e
find-touch i c e h =
    let same : e.identifier ≡ i = (find-is_for i c h).0 in ground (arith, eq_iff e.identifier i)

find-push : (e : OtpElement) (c : OtpLruCache) → find e.identifier (push e c) ≡ some e
find-push e c = ground (arith, eq_iff e.identifier e.identifier)

-- What a request holds is the entry that the cache then has.
hold-find :
    (i : String) (s : OtpState)
    → (e : OtpElement) × (find i (hold i s).1.cache ≡ some e) × (e.ref ≡ (hold i s).0)
unfolding hold get_or_create
hold-find i s = elim (Option-cases (find i s.cache)) [
  | inl missing ↦
      let made : OtpElement = record { identifier = i; ref = s.next } in
      (made, rw missing (find-push made (evict s.cache)), ground arith)
  | inr (e, h) ↦ (e, rw h (find-touch i s.cache e h), ground arith)
]

pub written-same : (ref : ℕ) (e : OtpEntry) (m : ℕ → OtpEntry) → written ref e m ref ≡ e
written-same ref e m = ground arith

module _ (mac : String → String) where
  issue-granted :
      (now : ℕ) (ttl : ℤ) (code payload : String) (ref : ℕ) (s : OtpState)
      → (issue mac now ttl code payload ref s).0 ≡ none
      → ((issue mac now ttl code payload ref s).1.entries ref
          ≡ issued mac now ttl code payload (refreshed now (s.entries ref)))
        × ((issue mac now ttl code payload ref s).1.cache ≡ s.cache)
  unfolding issue
  issue-granted now ttl code payload ref s h =
      let e = refreshed now (s.entries ref) in
      elim (Bool-cases (leb 2 e.request_count)) [
        | inl limited ↦ absurd (ground arith)
        | inr allowed ↦
            rw allowed (written-same ref (issued mac now ttl code payload e) s.entries, refl)
      ]

  known-verify :
      (now : ℕ) (i code : String) (s : OtpState) (e : OtpElement)
      → find i s.cache ≡ some e
      → now ≤ (s.entries e.ref).expires_at
      → hmac_equal (s.entries e.ref).code_hmac (mac code) ≡ true
      → let v = verify_otp mac now i code s in
        (v.accepted ≡ true) × (v.payload ≡ (s.entries e.ref).payload)
  unfolding verify_otp look_up get check finish
  known-verify now i code s e h t m = rw h (ground arith)

  issue-verify :
      (now now' : ℕ) (ttl : ℤ) (code i payload : String) (s : OtpState) (e : OtpElement)
      → find i s.cache ≡ some e
      → (issue mac now ttl code payload e.ref s).0 ≡ none
      → now' ≤ later now ttl
      → let v = verify_otp mac now' i code (issue mac now ttl code payload e.ref s).1 in
        (v.accepted ≡ true) × (v.payload ≡ payload)
  issue-verify now now' ttl code i payload s e f h t =
      let (at, same) = issue-granted now ttl code payload e.ref s h in
      let after = (issue mac now ttl code payload e.ref s).1 in
      let v =
        known-verify now' i code after e (rw same f) (rw at t) (rw at (str_eq_refl (mac code))) in
      (v.0, v.1 ∙ rw at refl)

  -- When a request is granted, the next call accepts its code, with the payload of the request, if
  -- that call is a verification for the identifier at a time within the code's.
  pub request-verify :
      (now now' : ℕ) (ttl : ℤ) (code identifier payload : String) (s : OtpState)
      → let r = request_otp mac now ttl code identifier payload s in
        r.0 ≡ none
        → now' ≤ later now ttl
        → let v = verify_otp mac now' identifier code r.1 in
          (v.accepted ≡ true) × (v.payload ≡ payload)
  unfolding request_otp
  request-verify now now' ttl code identifier payload s h t =
      let (e, found, same) = hold-find identifier s in
      subst
        (λ ref.
          (issue mac now ttl code payload ref (hold identifier s).1).0 ≡ none
          → let v =
              verify_otp mac now' identifier code
                (issue mac now ttl code payload ref (hold identifier s).1).1 in
            (v.accepted ≡ true) × (v.payload ≡ payload))
        same
        (λ granted.
          issue-verify now now' ttl code identifier payload (hold identifier s).1 e found granted t)
        h
