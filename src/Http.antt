-- ===== src/Http.antt =====
-- What the program uses of `net/http` and `time`: header maps, and times as nanoseconds.
pub mod Headers
pub mod Mux
use locaccel.Prelude.{ℕ, String, Option, ◌≡◌, ◌≢◌}
use locaccel.Prelude.Int.{ℤ}

-- `time.Time` is the number of nanoseconds since the zero time `time.Time{}`, and `time.Duration`
-- is an int64 number of nanoseconds.
abbrev pub Time : Type 0
Time = ℤ

abbrev pub Duration : Type 0
Duration = ℤ

abbrev pub second : ℕ
second = 1_000_000_000

-- `http.ParseTime` and `Time.Format(http.TimeFormat)`, whose grammar of dates is not modelled.
pub record HttpDates : Type 0 where
  pub parse_time : String → Option Time
  pub format_time : Time → String
