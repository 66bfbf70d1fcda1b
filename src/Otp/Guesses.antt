-- ===== src/Otp/Guesses.antt =====
-- auth_cache.go: wrong guesses at a one-time code, one call after the other.
use xraytool_go.Prelude.{
  ℕ, suc, ◌≤◌, ◌+◌, false, ◌≡◌, refl, none, some, List, [], ◌∷◌, String, arith, length, Bool-cases,
  inl, inr, ◌⊎◌, ltb, leb, All,
}
use xraytool_go.Prelude.Int.{ℤ}
use xraytool_go.Otp.{
  OtpElement, OtpEntry, OtpState, find, touch, get, get_or_create, hold, issue, look_up, check,
  finish, drop, request_otp, verify_otp, hmac_equal,
}
use xraytool_go.Otp.Limits.{find-delete, find-touch, written-same}

module _ (mac : String → String) where
  -- Guesses for one identifier, each at its time, with no other call during or between them.
  abbrev pub verify_all : String → List (ℕ × String) → OtpState → OtpState
  verify_all identifier [] s = s
  verify_all identifier ((now, code) ∷ gs) s =
      verify_all identifier gs (verify_otp mac now identifier code s).state

  abbrev pub IsWrong : OtpEntry → ℕ × String → Type 0
  IsWrong e g = hmac_equal e.code_hmac (mac g.1) ≡ false

  abbrev one_more : OtpEntry → OtpEntry
  one_more e = record e { attempts = suc e.attempts }

  wrong-verify :
      (now : ℕ) (identifier code : String) (s : OtpState) (el : OtpElement) (e : OtpEntry)
      → find identifier s.cache ≡ some el
      → s.entries el.ref ≡ e
      → IsWrong e (now, code)
      → let v = verify_otp mac now identifier code s in
        (find identifier v.state.cache ≡ none)
        ⊎ ((find identifier v.state.cache ≡ some el)
            × (v.state.entries el.ref ≡ one_more e)
            × (suc e.attempts ≤ 2))
  unfolding verify_otp look_up get check finish drop
  wrong-verify now identifier code s el e f q w = elim (Bool-cases (ltb e.expires_at now)) [
    | inl old ↦ inl (rw f (rw q (rw old (find-delete identifier (touch el s.cache)))))
    | inr fresh ↦ elim (Bool-cases (leb 3 (suc e.attempts))) [
      | inl out ↦
          inl (rw f (rw q (rw fresh (rw w (rw out (find-delete identifier (touch el s.cache)))))))
      | inr more ↦ inr (
        rw f (rw q (rw fresh (rw w (rw more (find-touch identifier s.cache el f))))),
        rw f (rw q (rw fresh (rw w (rw more (written-same el.ref (one_more e) s.entries))))),
        ground arith,
      )
    ]
  ]

  missing-verify :
      (now : ℕ) (identifier code : String) (s : OtpState)
      → find identifier s.cache ≡ none
      → let v = verify_otp mac now identifier code s in
        (v.accepted ≡ false) × (find identifier v.state.cache ≡ none)
  unfolding verify_otp look_up get
  missing-verify now identifier code s f = rw f (refl, f)

  missing-verify_all :
      (identifier : String) (gs : List (ℕ × String)) (s : OtpState)
      → find identifier s.cache ≡ none
      → find identifier (verify_all identifier gs s).cache ≡ none
  missing-verify_all identifier [] s f = f
  missing-verify_all identifier ((now, code) ∷ gs) s f =
      missing-verify_all identifier gs (verify_otp mac now identifier code s).state
        (missing-verify now identifier code s f).1

  wrong-verify_all :
      (identifier : String) (gs : List (ℕ × String)) (s : OtpState) (el : OtpElement) (e : OtpEntry)
      → find identifier s.cache ≡ some el
      → s.entries el.ref ≡ e
      → e.attempts ≤ 2
      → All (IsWrong e) gs
      → 3 ≤ e.attempts + length gs
      → find identifier (verify_all identifier gs s).cache ≡ none
  wrong-verify_all identifier [] s el e f q a w n = absurd (omega (arith, a, n))
  wrong-verify_all identifier ((now, code) ∷ gs) s el e f q a w n =
      let after = (verify_otp mac now identifier code s).state in
      elim (wrong-verify now identifier code s el e f q w.0) [
        | inl gone ↦ missing-verify_all identifier gs after gone
        | inr (left, more, few) ↦
            wrong-verify_all identifier gs after el (one_more e) left more few w.1
              (omega (arith, n))
      ]

  -- Once the wrong guesses at a code have come to three, no verification for the identifier is
  -- accepted, not even of the code itself, as long as all calls are verifications for it, one
  -- after the other.
  pub guess_limit :
      (identifier : String) (gs hs : List (ℕ × String)) (s : OtpState) (el : OtpElement)
      → find identifier s.cache ≡ some el
      → (s.entries el.ref).attempts ≤ 2
      → All (IsWrong (s.entries el.ref)) gs
      → 3 ≤ (s.entries el.ref).attempts + length gs
      → (now : ℕ) (code : String)
      → (verify_otp mac now identifier code
          (verify_all identifier hs (verify_all identifier gs s))).accepted
        ≡ false
  guess_limit identifier gs hs s el f a w n now code =
      (missing-verify now identifier code (verify_all identifier hs (verify_all identifier gs s)) (
        missing-verify_all identifier hs (verify_all identifier gs s)
          (wrong-verify_all identifier gs s el (s.entries el.ref) f refl a w n))).0

  missing-request :
      (now : ℕ) (ttl : ℤ) (code identifier payload : String) (s : OtpState)
      → find identifier s.cache ≡ none
      → (request_otp mac now ttl code identifier payload s).0 ≡ none
  unfolding request_otp hold issue get_or_create
  missing-request now ttl code identifier payload s f = rw f (ground arith)

  -- Once the wrong guesses at a code have come to three, one call after the other, the next call
  -- is granted if it is a request for the identifier, at any time, however many codes were issued
  -- before the guesses.
  pub guess_limit-request :
      (identifier : String) (gs : List (ℕ × String)) (s : OtpState) (el : OtpElement)
      → find identifier s.cache ≡ some el
      → (s.entries el.ref).attempts ≤ 2
      → All (IsWrong (s.entries el.ref)) gs
      → 3 ≤ (s.entries el.ref).attempts + length gs
      → (now : ℕ) (ttl : ℤ) (code payload : String)
      → (request_otp mac now ttl code identifier payload (verify_all identifier gs s)).0 ≡ none
  guess_limit-request identifier gs s el f a w n now ttl code payload =
      missing-request now ttl code identifier payload (verify_all identifier gs s)
        (wrong-verify_all identifier gs s el (s.entries el.ref) f refl a w n)
