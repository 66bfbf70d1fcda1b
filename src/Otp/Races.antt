-- ===== src/Otp/Races.antt =====
-- auth_cache.go: verifications that overlap with other calls.
use xraytool_go.Prelude.{
  ℕ, ◌<◌, ◌≤◌, ◌==◌, Bool, true, false, ◌≡◌, refl, sym, ◌∙◌, some, String, arith, leb, Bool-cases,
  inl, inr, ap,
}
use mathlib.Core.Path.{subst}
use xraytool_go.Otp.{
  OtpState, Check, expired, right, wrong, hold, issue, look_up, check, finish, drop, sweep_expired,
  hmac_equal, start, Step, holds, issues, looks_up, checks, drops, sweeps, Reach, here, next,
}
use xraytool_go.Otp.Invariant.{IsValid}
use xraytool_go.Otp.Valid.{run-IsValid}
use xraytool_go.Otp.Lost.{IsLost, run-IsLost}
use xraytool_go.Otp.Owned.{
  IsOwned, drop-IsLost, run-IsOwned, run-IsNamed, look_up-IsNamed, lost-look_up, lost-hold,
}

start-IsValid : (max_size : ℕ) → 1 ≤ max_size → IsValid (start max_size).cache
start-IsValid max_size h = record {
  sized = h;
  bounded = omega arith;
  synced = λ j. refl;
  distinct = tt;
}

-- A verification after which the entry is to go: the code was right or has expired, or the attempt
-- was the third wrong one.
abbrev pub ends : Check → Bool
ends expired = true
ends (right payload) = true
ends (wrong attempts) = leb 3 attempts

finish-ends :
    (i : String) (result : Check) (s : OtpState)
    → ends result ≡ true
    → (finish i result s).state ≡ drop i s
unfolding finish
finish-ends i expired s e = refl
finish-ends i (right payload) s e = refl
finish-ends i (wrong attempts) s e = rw e refl

module _ (mac : String → String) where
  -- In any interleaving of calls on a new cache with room for an entry: once a verification has
  -- ended whose code was right or had expired, or whose attempt was the third wrong one, no
  -- verification and no request that starts later goes on with the entry that it held, under any
  -- identifier.
  pub accepted_once :
      (max_size now ref : ℕ) (identifier code : String) {s t u w : OtpState}
      → 1 ≤ max_size
      → Reach mac (start max_size) s
      → (look_up identifier s).0 ≡ some ref
      → Reach mac (look_up identifier s).1 t
      → ends (check mac now code ref t).0 ≡ true
      → Reach mac (check mac now code ref t).1 u
      → Reach mac (finish identifier (check mac now code ref t).0 u).state w
      → (other : String) → (¬ ((look_up other w).0 ≡ some ref)) × (¬ ((hold other w).0 ≡ ref))
  accepted_once max_size now ref identifier code {s} {t} {u} {w} m before known between e late after
        other =
      let owned : IsOwned s = run-IsOwned mac before refl in
      let named = run-IsNamed mac identifier ref late (
        run-IsNamed mac identifier ref (next (checks now code ref t) here) (
          run-IsNamed mac identifier ref between
            (look_up-IsNamed mac identifier ref s owned known))) in
      let on = next (looks_up identifier s) here in
      let checked = next (checks now code ref t) here in
      let owned_then =
        run-IsOwned mac late
          (run-IsOwned mac checked (run-IsOwned mac between (run-IsOwned mac on owned))) in
      let valid = run-IsValid mac late (
        run-IsValid mac checked (
          run-IsValid mac between
            (run-IsValid mac on (run-IsValid mac before (start-IsValid max_size m))))) in
      let gone : IsLost ref (finish identifier (check mac now code ref t).0 u).state =
        subst (λ v. IsLost ref v) (sym (finish-ends identifier (check mac now code ref t).0 u e))
          (drop-IsLost identifier ref u valid owned_then named.0 named.1) in
      let lost = run-IsLost mac ref after gone in
      (lost-look_up mac other ref w lost, lost-hold mac other ref w lost)

  -- The section issues a code on the entry.
  abbrev pub is_issue_on : ℕ → {s t : OtpState} → Step mac s t → Bool
  is_issue_on ref (holds _ _) = false
  is_issue_on ref (issues _ _ _ _ r _) = r == ref
  is_issue_on ref (looks_up _ _) = false
  is_issue_on ref (checks _ _ _ _) = false
  is_issue_on ref (drops _ _) = false
  is_issue_on ref (sweeps _ _) = false

  abbrev pub HasNoIssue : ℕ → {s t : OtpState} → Reach mac s t → Type 0
  HasNoIssue ref here = Unit
  HasNoIssue ref (next step run) = (is_issue_on ref step ≡ false) × HasNoIssue ref run

  -- What a code is accepted by.
  record IsSame (ref : ℕ) (s t : OtpState) : Type 0 where
    code_hmac : (t.entries ref).code_hmac ≡ (s.entries ref).code_hmac
    payload : (t.entries ref).payload ≡ (s.entries ref).payload
    expires_at : (t.entries ref).expires_at ≡ (s.entries ref).expires_at
    used : s.next ≤ t.next

  step-IsSame :
      (ref : ℕ) {s t : OtpState} (step : Step mac s t)
      → ref < s.next
      → is_issue_on ref step ≡ false
      → IsSame ref s t
  unfolding hold issue look_up check drop sweep_expired
  step-IsSame ref (holds i s) l n = record {
    code_hmac = ground arith;
    payload = ground arith;
    expires_at = ground arith;
    used = ground arith;
  }
  step-IsSame ref (issues now ttl code payload r s) l n = record {
    code_hmac = ground arith;
    payload = ground arith;
    expires_at = ground arith;
    used = ground arith;
  }
  step-IsSame ref (looks_up i s) l n = record {
    code_hmac = refl;
    payload = refl;
    expires_at = refl;
    used = omega arith;
  }
  step-IsSame ref (checks now code r s) l n = elim (Bool-cases (r == ref)) [
    | inr other ↦ record {
      code_hmac = ground arith;
      payload = ground arith;
      expires_at = ground arith;
      used = ground arith;
    }
    | inl same ↦
        let at : r ≡ ref = ground arith in
        let e : s.entries r ≡ s.entries ref = ap s.entries at in
        record {
          code_hmac = ground (arith, ap (λ x. x.code_hmac) e);
          payload = ground (arith, ap (λ x. x.payload) e);
          expires_at = ground (arith, ap (λ x. x.expires_at) e);
          used = ground arith;
        }
  ]
  step-IsSame ref (drops i s) l n = record {
    code_hmac = refl;
    payload = refl;
    expires_at = refl;
    used = omega arith;
  }
  step-IsSame ref (sweeps now s) l n = record {
    code_hmac = refl;
    payload = refl;
    expires_at = refl;
    used = omega arith;
  }

  run-IsSame :
      (ref : ℕ) {s t : OtpState} (run : Reach mac s t)
      → ref < s.next
      → HasNoIssue ref run
      → IsSame ref s t
  run-IsSame ref here l n = record {
    code_hmac = refl;
    payload = refl;
    expires_at = refl;
    used = omega arith;
  }
  run-IsSame ref (next step run) l n =
      let one = step-IsSame ref step l n.0 in
      let more = run-IsSame ref run (omega (arith, one.used)) n.1 in
      record {
        code_hmac = more.code_hmac ∙ one.code_hmac;
        payload = more.payload ∙ one.payload;
        expires_at = more.expires_at ∙ one.expires_at;
        used = omega (arith, one.used, more.used);
      }

  -- A verification that holds an entry: after any sections of other calls that issue no code on
  -- the entry, three wrong guesses or a verification accepted with the same code possibly among
  -- them, it accepts the code that the entry had, with its payload, at a time within that code's.
  pub overlap-accepted :
      (now ref : ℕ) (identifier code : String) {s t : OtpState} (u : OtpState) (run : Reach mac s t)
      → ref < s.next
      → HasNoIssue ref run
      → hmac_equal (s.entries ref).code_hmac (mac code) ≡ true
      → now ≤ (s.entries ref).expires_at
      → let v = finish identifier (check mac now code ref t).0 u in
        (v.accepted ≡ true) × (v.payload ≡ (s.entries ref).payload)
  unfolding check finish
  overlap-accepted now ref identifier code {s} {t} u run l n m h =
      let same = run-IsSame ref run l n in
      ground (
        arith,
        same.code_hmac,
        same.payload,
        same.expires_at,
        ap (λ x. hmac_equal x (mac code)) same.code_hmac,
      )
