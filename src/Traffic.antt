-- ===== src/Traffic.antt =====
-- internal/plugins/traffic_file/state.go: Update and Cumulative, the traffic of each user.
pub mod Runs
use xraytool_go.Prelude.{ℕ, Bool, List, [], ◌∷◌, Option, none, some, String, str_eq, if◌then◌else◌}
use xraytool_go.Prelude.Int.{ℤ, pos, leb_ℤ, add64, sub64}

pub record UserState : Type 0 where
  pub cumulative_up : ℤ
  pub cumulative_down : ℤ
  pub last_raw_up : ℤ
  pub last_raw_down : ℤ

pub record LiveSample : Type 0 where
  pub email : String
  pub up : ℤ
  pub down : ℤ

pub record State : Type 0 where
  pub version : ℤ
  pub last_sample_ts : ℤ
  pub users : List (String × UserState)

abbrev zero_user : UserState
zero_user = record {
  cumulative_up = pos 0;
  cumulative_down = pos 0;
  last_raw_up = pos 0;
  last_raw_down = pos 0;
}

-- The user's state, and the zero state of one that is new.
abbrev pub user_of : String → List (String × UserState) → UserState
user_of email [] = zero_user
user_of email ((e, u) ∷ users) = if str_eq e email then u else user_of email users

abbrev pub set_user : String → UserState → List (String × UserState) → List (String × UserState)
set_user email u [] = (email, u) ∷ []
set_user email u ((e, v) ∷ users) =
    if str_eq e email then (e, u) ∷ users else (e, v) ∷ set_user email u users

-- A counter below its last reading was started again.
unfoldable pub counted : ℤ → ℤ → ℤ → ℤ
counted cumulative last raw =
    if leb_ℤ last raw then add64 cumulative (sub64 raw last) else add64 cumulative raw

abbrev pub sampled : LiveSample → UserState → UserState
sampled s u = record {
  cumulative_up = counted u.cumulative_up u.last_raw_up s.up;
  cumulative_down = counted u.cumulative_down u.last_raw_down s.down;
  last_raw_up = s.up;
  last_raw_down = s.down;
}

abbrev pub update_users : List LiveSample → List (String × UserState) → List (String × UserState)
update_users [] users = users
update_users (s ∷ ss) users =
    update_users ss (set_user s.email (sampled s (user_of s.email users)) users)

-- `now` is time.Now().Unix().
unfoldable pub update : ℤ → State → List LiveSample → State
update now state samples = record {
  version = pos 2;
  last_sample_ts = now;
  users = update_users samples state.users;
}

-- The two groups of counters of a row hold the same numbers.
pub record CumulativeUser : Type 0 where
  pub email : String
  pub up : ℤ
  pub down : ℤ
  pub total : ℤ

unfoldable pub cumulative : List (String × UserState) → List CumulativeUser
cumulative [] = []
cumulative ((email, u) ∷ users) =
    record {
      email = email;
      up = u.cumulative_up;
      down = u.cumulative_down;
      total = add64 u.cumulative_up u.cumulative_down;
    }
    ∷ cumulative users
