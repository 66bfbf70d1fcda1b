-- ===== src/Traffic/Runs.antt =====
-- The upload counter of a user over the readings of two runs of the engine.
use xraytool_go.Prelude.{
  ℕ, ◌+◌, ◌-◌, ◌<◌, ◌≤◌, ◌^◌, false, ◌≡◌, refl, List, [], ◌∷◌, ◌++◌, String, arith, str_eq, eq_iff,
  if◌then◌else◌, ap, ◌∙◌, All,
}
use mathlib.Core.Path.{subst}
use xraytool_go.Prelude.Int.{ℤ, pos, add64-pos, sub64-pos}
use xraytool_go.Traffic.{
  UserState, LiveSample, State, user_of, set_user, sampled, counted, update_users, update,
}

user_of-set_user :
    (e f : String) (u : UserState) (users : List (String × UserState))
    → user_of f (set_user e u users) ≡ (if str_eq e f then u else user_of f users)
user_of-set_user e f u [] = ground arith
user_of-set_user e f u ((g, v) ∷ users) =
    ground (arith, user_of-set_user e f u users, eq_iff e f, eq_iff g e, eq_iff g f)

update_users-append :
    (xs ys : List LiveSample) (users : List (String × UserState))
    → update_users (xs ++ ys) users ≡ update_users ys (update_users xs users)
update_users-append [] ys users = refl
update_users-append (x ∷ xs) ys users = update_users-append xs ys _

-- The samples of one user, from readings of its two counters.
abbrev pub samples_of : String → List (ℕ × ℕ) → List LiveSample
samples_of email [] = []
samples_of email ((u, d) ∷ rs) =
    record { email = email; up = pos u; down = pos d } ∷ samples_of email rs

-- The upload readings never fall, from a first value on.
abbrev pub IsRising : ℕ → List (ℕ × ℕ) → Type 0
IsRising l [] = Unit
IsRising l ((u, d) ∷ rs) = (l ≤ u) × IsRising u rs

abbrev pub last_reading : ℕ → List (ℕ × ℕ) → ℕ
last_reading l [] = l
last_reading l ((u, d) ∷ rs) = last_reading u rs

-- The first reading lies below the last one of the run before.
abbrev pub Restarts : ℕ → List (ℕ × ℕ) → Type 0
Restarts l [] = Unit
Restarts l ((u, d) ∷ rs) = u < l

last-le : (l : ℕ) (rs : List (ℕ × ℕ)) → IsRising l rs → l ≤ last_reading l rs
last-le l [] h = omega arith
last-le l ((u, d) ∷ rs) h = omega (arith, h.0, last-le u rs h.1)

risen :
    (c l r : ℕ)
    → l ≤ r
    → r < 2 ^ 63
    → c + (r - l) < 2 ^ 63
    → counted (pos c) (pos l) (pos r) ≡ pos (c + (r - l))
unfolding counted
risen c l r h k b = ground (arith, sub64-pos r l, add64-pos c (r - l))

restarted : (c l r : ℕ) → r < l → c + r < 2 ^ 63 → counted (pos c) (pos l) (pos r) ≡ pos (c + r)
unfolding counted
restarted c l r h b = ground (arith, add64-pos c r)

-- The upload counter of a user, and the reading that it was last brought up to.
pub record IsAt (email : String) (c l : ℕ) (users : List (String × UserState)) : Type 0 where
  pub total : (user_of email users).cumulative_up ≡ pos c
  pub reading : (user_of email users).last_raw_up ≡ pos l

module _ (email : String) (users : List (String × UserState)) where
  -- One sample of the user itself.
  step-IsAt :
      (c l u d n : ℕ)
      → IsAt email c l users
      → counted (pos c) (pos l) (pos u) ≡ pos n
      → let s : LiveSample = record { email = email; up = pos u; down = pos d } in
        IsAt email n u (set_user email (sampled s (user_of email users)) users)
  step-IsAt c l u d n h e =
      let s : LiveSample = record { email = email; up = pos u; down = pos d } in
      let next = sampled s (user_of email users) in
      let new : user_of email (set_user email next users) ≡ next =
        user_of-set_user email email next users ∙ ground (arith, eq_iff email email) in
      record {
        total = ap (λ v. v.cumulative_up) new ∙ rw h.total (rw h.reading e);
        reading = ap (λ v. v.last_raw_up) new;
      }

run-IsAt :
    (email : String) (rs : List (ℕ × ℕ)) (users : List (String × UserState)) (c l : ℕ)
    → IsAt email c l users
    → IsRising l rs
    → last_reading l rs < 2 ^ 63
    → c + (last_reading l rs - l) < 2 ^ 63
    → IsAt email
        (c + (last_reading l rs - l))
        (last_reading l rs)
        (update_users (samples_of email rs) users)
run-IsAt email [] users c l h r k b = rw (same c l) h
  where
    same : (c l : ℕ) → c + (l - l) ≡ c
    same c l = omega arith
run-IsAt email ((u, d) ∷ rs) users c l h r k b =
    let top : u ≤ last_reading u rs = last-le u rs r.1 in
    let n = c + (u - l) in
    let grown : n + (last_reading u rs - u) ≡ c + (last_reading u rs - l) =
      omega (arith, top, r.0) in
    subst
      (λ k. IsAt email k (last_reading u rs) (update_users (samples_of email ((u, d) ∷ rs)) users))
      grown
      (run-IsAt email rs _ n u
        (step-IsAt email users c l u d n h
          (risen c l u r.0 (omega (arith, top, k)) (omega (arith, top, b))))
        r.1 k (omega (arith, top, b, r.0)))

restart-IsAt :
    (email : String) (rs : List (ℕ × ℕ)) (users : List (String × UserState)) (c l : ℕ)
    → IsAt email c l users
    → IsRising 0 rs
    → Restarts l rs
    → c + last_reading 0 rs < 2 ^ 63
    → (user_of email (update_users (samples_of email rs) users)).cumulative_up
      ≡ pos (c + last_reading 0 rs)
restart-IsAt email [] users c l h r s b = ground (arith, h.total)
restart-IsAt email ((u, d) ∷ rs) users c l h r s b =
    let top : u ≤ last_reading u rs = last-le u rs r.1 in
    let n = c + u in
    let grown : n + (last_reading u rs - u) ≡ c + last_reading u rs = omega (arith, top) in
    (run-IsAt email rs _ n u
      (step-IsAt email users c l u d n h (restarted c l u s (omega (arith, top, b)))) r.1
      (omega (arith, b)) (omega (arith, top, b))).total
    ∙ ap pos grown

-- A user's upload counter stands at `c`, brought up to the reading `l`. After the readings of one
-- run of the engine, which never fall, and then those of a second run, which start below the last
-- of the first one and never fall either, it has grown by what the first run added to `l` and by
-- the last reading of the second run, as long as that is an int64.
pub update-two_runs :
    (now : ℤ) (email : String) (first_run second_run : List (ℕ × ℕ)) (state : State) (c l : ℕ)
    → IsAt email c l state.users
    → IsRising l first_run
    → IsRising 0 second_run
    → Restarts (last_reading l first_run) second_run
    → c + last_reading l first_run + last_reading 0 second_run < 2 ^ 63
    → (user_of email
        (update now state
          (samples_of email first_run ++ samples_of email second_run)).users).cumulative_up
      ≡ pos (c + (last_reading l first_run - l) + last_reading 0 second_run)
unfolding update
update-two_runs now email first_run second_run state c l h r r' s b =
    rw (update_users-append (samples_of email first_run) (samples_of email second_run) state.users)
      (restart-IsAt email second_run _ (c + (last_reading l first_run - l))
        (last_reading l first_run)
        (run-IsAt email first_run state.users c l h r (omega (arith, b)) (omega (arith, b))) r' s
        (omega (arith, b)))

-- The samples of other users leave a user's counters as they are.
update-others :
    (now : ℤ) (email : String) (samples : List LiveSample) (state : State)
    → All (λ s. str_eq s.email email ≡ false) samples
    → user_of email (update now state samples).users ≡ user_of email state.users
unfolding update
update-others now email samples state h = others samples state.users h
  where
    others :
        (samples : List LiveSample) (users : List (String × UserState))
        → All (λ s. str_eq s.email email ≡ false) samples
        → user_of email (update_users samples users) ≡ user_of email users
    others [] users h = refl
    others (s ∷ ss) users h =
        others ss _ h.1
        ∙ user_of-set_user s.email email (sampled s (user_of s.email users)) users
        ∙ rw h.0 refl
