-- ===== src/Tests/Counters.antt =====
-- A user's counter over a restart of the engine.
use xraytool_go.Prelude.{ℕ, ◌≡◌, refl, List, [], ◌∷◌, ◌++◌, arith}
use xraytool_go.Prelude.Int.{pos}
use xraytool_go.Traffic.{State, update, user_of}
use xraytool_go.Traffic.Runs.{IsAt, samples_of, update-two_runs}

abbrev counters : State
counters = record {
  version = pos 2;
  last_sample_ts = pos 0;
  users =
      (
        "anna",
        record {
          cumulative_up = pos 100;
          cumulative_down = pos 0;
          last_raw_up = pos 40;
          last_raw_down = pos 0;
        },
      )
      ∷ [];
}

abbrev first_run : List (ℕ × ℕ)
first_run = (60, 1) ∷ (90, 2) ∷ []

abbrev second_run : List (ℕ × ℕ)
second_run = (5, 0) ∷ (25, 1) ∷ []

anna-IsAt : IsAt "anna" 100 40 counters.users
anna-IsAt = record { total = refl; reading = refl }

update-two_runs_example :
    (user_of "anna"
      (update
        (pos 9)
        counters
        (samples_of "anna" first_run ++ samples_of "anna" second_run)).users).cumulative_up
    ≡ pos 175
update-two_runs_example =
    update-two_runs (pos 9) "anna" first_run second_run counters 100 40 anna-IsAt
      (omega arith, (omega arith, tt)) (omega arith, (omega arith, tt)) (omega arith) (omega arith)
