-- ===== src/GoLib.antt =====
-- What the program calls of Go's standard library on Unicode text, calendar dates and IEEE floats.
-- The model takes these functions as a parameter; a `float64` is its 64-bit pattern.
use xraytool_go.Prelude.{ℕ, ◌-◌, ◌^◌, Bool, Option, String, min}
use xraytool_go.Prelude.Int.{ℤ, pos, negsuc, sub_ℕ}

pub record GoLib : Type 0 where
  -- strings.TrimSpace, strings.ToUpper, strings.ToLower, strconv.FormatInt in base 10
  pub trim_space : String → String
  pub to_upper : String → String
  pub to_lower : String → String
  pub format_int : ℤ → String
  -- time.ParseDuration, in nanoseconds
  pub parse_duration : String → Option ℤ
  -- t.AddDate(0, months, 0)
  pub add_months : ℕ → ℤ → ℕ
  -- d.Hours(), `/`, `<`, math.Ceil, int(x) and float64(n)
  pub hours : ℤ → ℕ
  pub div_float : ℕ → ℕ → ℕ
  pub lt_float : ℕ → ℕ → Bool
  pub ceil : ℕ → ℕ
  pub int_of_float : ℕ → ℤ
  pub float_of_int : ℤ → ℕ

-- `time.Now()`: the reading at each call in the text of a function, counted from 0.
abbrev pub Clock : Type 0
Clock = ℕ → ℕ

abbrev saturated : ℤ → ℤ
saturated (pos n) = pos (min n (2 ^ 63 - 1))
saturated (negsuc n) = negsuc (min n (2 ^ 63 - 1))

-- `a.Sub(b)`, a Duration that saturates at the ends of an int64.
unfoldable pub time_sub : ℕ → ℕ → ℤ
time_sub a b = saturated (sub_ℕ a b)
