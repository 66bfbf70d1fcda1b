-- ===== src/Tests/Codes.antt =====
-- One-time codes in a cache of two entries.
use xraytool_go.Prelude.{◌≡◌, refl, true, false, none, some, List, [], ◌∷◌, ℕ, String, arith}
use xraytool_go.Prelude.Int.{pos}
use xraytool_go.Otp.{
  OtpElement, OtpEntry, OtpState, get, get_or_create, evict, new_entry, written, hold, issue,
  look_up, check, finish, drop, start, request_otp, sweep_expired, verify_otp, Reach, here, next,
  holds, issues, drops,
}
use xraytool_go.Otp.Invariant.{IsValid}
use xraytool_go.Otp.Valid.{cache-IsValid}
use xraytool_go.Otp.Limits.{request-verify}
use xraytool_go.Otp.Guesses.{guess_limit, guess_limit-request, verify_all}
use xraytool_go.Otp.Races.{ends, accepted_once, overlap-accepted}

-- Any function serves as the code of a message here.
abbrev mac : String → String
mac code = code

abbrev element : OtpElement
element = record { identifier = "anna"; ref = 0 }

abbrev entry : OtpEntry
entry = record {
  identifier = "anna";
  payload = "login";
  code_hmac = some "123456";
  expires_at = 900;
  attempts = 0;
  request_count = 2;
}

abbrev codes : OtpState
codes = record {
  cache = record { max_size = 2; items = "anna" ∷ []; order = element ∷ [] };
  entries = written 0 entry (λ ref. new_entry "");
  next = 1;
}

start_two-IsValid : IsValid (start 2).cache
start_two-IsValid = record {
  sized = omega arith;
  bounded = omega arith;
  synced = λ j. refl;
  distinct = tt;
}

-- Two requests that overlap.
cache-IsValid_example :
    let s = (hold "boris" (hold "anna" (start 2)).1).1 in
    IsValid s.cache
    × IsValid (request_otp mac 100 (pos 600) "123456" "anna" "login" s).1.cache
    × IsValid (verify_otp mac 100 "anna" "123456" s).state.cache
    × IsValid (sweep_expired 100 s).cache
cache-IsValid_example =
    cache-IsValid mac 100 (pos 600) "123456" "anna" "login" (start 2) _ start_two-IsValid
      (next (holds "anna" (start 2)) (next (holds "boris" (hold "anna" (start 2)).1) here))

abbrev asked : OtpState
asked = (issue mac 100 (pos 600) "123456" "login" 0 (hold "anna" (start 2)).1).1

asked-Reach : Reach mac (start 2) asked
asked-Reach =
    next (holds "anna" (start 2))
      (next (issues 100 (pos 600) "123456" "login" 0 (hold "anna" (start 2)).1) here)

asked-known : (look_up "anna" asked).0 ≡ some 0
unfolding look_up get hold issue get_or_create evict
asked-known = refl

asked-ends : ends (check mac 200 "123456" 0 (look_up "anna" asked).1).0 ≡ true
unfolding look_up get hold issue get_or_create evict check
asked-ends = refl

accepted_once_example :
    let held = (look_up "anna" asked).1 in
    let checked = check mac 200 "123456" 0 held in
    let w = (finish "anna" checked.0 checked.1).state in
    (¬ ((look_up "anna" w).0 ≡ some 0)) × (¬ ((hold "anna" w).0 ≡ 0))
accepted_once_example =
    accepted_once mac 2 200 0 "anna" "123456" (omega arith) asked-Reach asked-known here asked-ends
      here here "anna"

-- The second of two overlapping verifications, after the first has deleted the entry.
overlap-accepted_example :
    let u = drop "anna" codes in
    let v = finish "anna" (check mac 101 "123456" 0 u).0 u in
    (v.accepted ≡ true) × (v.payload ≡ "login")
overlap-accepted_example =
    overlap-accepted mac 101 0 "anna" "123456" (drop "anna" codes) (next (drops "anna" codes) here)
      (omega arith) (refl, tt) refl (omega arith)

code_issued : (request_otp mac 100 (pos 600) "123456" "anna" "login" (start 2)).0 ≡ none
unfolding request_otp hold issue get_or_create
code_issued = refl

request-verify_example :
    let r = request_otp mac 100 (pos 600) "123456" "anna" "login" (start 2) in
    let v = verify_otp mac 700 "anna" "123456" r.1 in (v.accepted ≡ true) × (v.payload ≡ "login")
request-verify_example =
    request-verify mac 100 700 (pos 600) "123456" "anna" "login" (start 2) code_issued (omega arith)

abbrev guesses : List (ℕ × String)
guesses = (101, "000000") ∷ (102, "111111") ∷ (103, "222222") ∷ []

guess_limit_example :
    (verify_otp mac 104 "anna" "123456"
      (verify_all mac "anna" ((104, "123456") ∷ []) (verify_all mac "anna" guesses codes))).accepted
    ≡ false
guess_limit_example =
    guess_limit mac "anna" guesses ((104, "123456") ∷ []) codes element refl (omega arith)
      (refl, (refl, (refl, tt))) (omega arith) 104 "123456"

guess_limit-request_example :
    (request_otp mac 104 (pos 600) "333333" "anna" "login" (verify_all mac "anna" guesses codes)).0
    ≡ none
guess_limit-request_example =
    guess_limit-request mac "anna" guesses codes element refl (omega arith)
      (refl, (refl, (refl, tt))) (omega arith) 104 (pos 600) "333333" "login"
