-- ===== src/Otp/Valid.antt =====
-- auth_cache.go: the size of the cache of one-time codes, and its map against its list.
use xraytool_go.Prelude.{ℕ, Option, none, some, String, Bool-cases, inl, inr, leb, ltb}
use xraytool_go.Prelude.Int.{ℤ}
use xraytool_go.Otp.{
  OtpState, hold, issue, look_up, check, drop, finish, verify_found, Check, expired, right, wrong,
  sweep_expired, refreshed, request_otp, verify_otp, hmac_equal, Step, holds, issues, looks_up,
  checks, drops, sweeps, Reach, here, next,
}
use xraytool_go.Otp.Invariant.{IsValid, delete-IsValid, get-IsValid, get_or_create-IsValid}
use xraytool_go.Otp.Sweep.{sweep_expired-IsValid}

module _ (mac : String → String) where
  hold-IsValid : (i : String) (s : OtpState) → IsValid s.cache → IsValid (hold i s).1.cache
  unfolding hold
  hold-IsValid i s v = get_or_create-IsValid i s.next s.cache v

  pub look_up-IsValid :
      (i : String) (s : OtpState) → IsValid s.cache → IsValid (look_up i s).1.cache
  unfolding look_up
  look_up-IsValid i s v = get-IsValid i s.cache v

  drop-IsValid : (i : String) (s : OtpState) → IsValid s.cache → IsValid (drop i s).cache
  unfolding drop
  drop-IsValid i s v = delete-IsValid i s.cache v

  issue-IsValid :
      (now : ℕ) (ttl : ℤ) (code payload : String) (ref : ℕ) (s : OtpState)
      → IsValid s.cache
      → IsValid (issue mac now ttl code payload ref s).1.cache
  unfolding issue
  issue-IsValid now ttl code payload ref s v =
      elim (Bool-cases (leb 2 (refreshed now (s.entries ref)).request_count)) [
        | inl limited ↦ rw limited v
        | inr allowed ↦ rw allowed v
      ]

  pub check-IsValid :
      (now : ℕ) (code : String) (ref : ℕ) (s : OtpState)
      → IsValid s.cache
      → IsValid (check mac now code ref s).1.cache
  unfolding check
  check-IsValid now code ref s v = elim (Bool-cases (ltb (s.entries ref).expires_at now)) [
    | inl old ↦ rw old v
    | inr fresh ↦ rw fresh (elim (Bool-cases (hmac_equal (s.entries ref).code_hmac (mac code))) [
      | inl same ↦ rw same v
      | inr other ↦ rw other v
    ])
  ]

  step-IsValid : {s t : OtpState} → Step mac s t → IsValid s.cache → IsValid t.cache
  step-IsValid (holds i s) v = hold-IsValid i s v
  step-IsValid (issues now ttl code payload ref s) v = issue-IsValid now ttl code payload ref s v
  step-IsValid (looks_up i s) v = look_up-IsValid i s v
  step-IsValid (checks now code ref s) v = check-IsValid now code ref s v
  step-IsValid (drops i s) v = drop-IsValid i s v
  step-IsValid (sweeps now s) v = sweep_expired-IsValid now s v

  pub run-IsValid : {s t : OtpState} → Reach mac s t → IsValid s.cache → IsValid t.cache
  run-IsValid here v = v
  run-IsValid (next step run) v = run-IsValid run (step-IsValid step v)

  finish-IsValid :
      (i : String) (result : Check) (s : OtpState)
      → IsValid s.cache
      → IsValid (finish i result s).state.cache
  unfolding finish
  finish-IsValid i expired s v = drop-IsValid i s v
  finish-IsValid i (right payload) s v = drop-IsValid i s v
  finish-IsValid i (wrong attempts) s v = elim (Bool-cases (leb 3 attempts)) [
    | inl out ↦ rw out (drop-IsValid i s v)
    | inr more ↦ rw more v
  ]

  verify_found-IsValid :
      (now : ℕ) (i code : String) (known : Option ℕ) (s : OtpState)
      → IsValid s.cache
      → IsValid (verify_found mac now i code known s).state.cache
  verify_found-IsValid now i code none s v = v
  verify_found-IsValid now i code (some ref) s v =
      finish-IsValid i (check mac now code ref s).0 (check mac now code ref s).1
        (check-IsValid now code ref s v)

  request-IsValid :
      (now : ℕ) (ttl : ℤ) (code i payload : String) (s : OtpState)
      → IsValid s.cache
      → IsValid (request_otp mac now ttl code i payload s).1.cache
  unfolding request_otp
  request-IsValid now ttl code i payload s v =
      issue-IsValid now ttl code payload (hold i s).0 (hold i s).1 (hold-IsValid i s v)

  verify-IsValid :
      (now : ℕ) (i code : String) (s : OtpState)
      → IsValid s.cache
      → IsValid (verify_otp mac now i code s).state.cache
  unfolding verify_otp
  verify-IsValid now i code s v =
      verify_found-IsValid now i code (look_up i s).0 (look_up i s).1 (look_up-IsValid i s v)

-- A cache is valid again after any interleaving of the critical sections of requests,
-- verifications and sweeps, and then also after a whole request for any identifier, whatever its
-- outcome, after a whole verification, and after a sweep.
pub cache-IsValid :
    (mac : String → String) (now : ℕ) (ttl : ℤ) (code identifier payload : String) (s t : OtpState)
    → IsValid s.cache
    → Reach mac s t
    → IsValid t.cache
      × IsValid (request_otp mac now ttl code identifier payload t).1.cache
      × IsValid (verify_otp mac now identifier code t).state.cache
      × IsValid (sweep_expired now t).cache
cache-IsValid mac now ttl code identifier payload s t v r =
    let w = run-IsValid mac r v in
    (
      w,
      request-IsValid mac now ttl code identifier payload t w,
      verify-IsValid mac now identifier code t w,
      sweep_expired-IsValid now t w,
    )
