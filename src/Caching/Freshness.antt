-- ===== src/Caching/Freshness.antt =====
-- freshness.go: how long a stored response is fresh, and how old it is (RFC 9111, section 4.2).
pub mod Expiry
use locaccel.Prelude.{
  ℕ, String, Option, none, some, Bool, true, false, not, if◌then◌else◌, ◌≡◌, refl,
}
use locaccel.Prelude.Int.{
  ℤ, pos, ◌+ℤ◌, ◌-ℤ◌, ◌*ℤ◌, neg_ℤ, eqb_ℤ, ltb_ℤ, max_ℤ, quot_ℤ, wrap64, clamp64,
}
use locaccel.Prelude.Text.{is_empty, atoi}
use locaccel.Http.{Time, Duration, HttpDates, second}
use locaccel.Http.Headers.{Header, get}
use locaccel.Caching.CacheControl.{CacheControlResponseDirective}

-- `t.Sub(u)`
abbrev pub sub_time : Time → Time → Duration
sub_time t u = clamp64 (t -ℤ u)

-- `d.Truncate(time.Second)`: towards zero, in int64
abbrev pub truncate_second : Duration → Duration
truncate_second d = quot_ℤ d second *ℤ second

-- `time.Since(t)` at the time `now`
abbrev pub since : Time → Time → Duration
since now t = sub_time now t

module _ (dates : HttpDates) where
  open dates use {parse_time}

  abbrev between : (Time → Time → Duration) → Option Time → Option Time → Option Duration
  between f (some t) (some date) = some (f t date)
  between f _ _ = none

  -- Expires and Last-Modified count only if they are there and parse, and Date parses too.
  unfoldable pub expires_lifetime : Header → Option Duration
  expires_lifetime headers =
      if is_empty (get headers "Expires")
      then none
      else between (λ expiry date. sub_time expiry date) (parse_time (get headers "Expires"))
          (parse_time (get headers "Date"))

  unfoldable pub heuristic_lifetime : Header → Option Duration
  heuristic_lifetime headers =
      if is_empty (get headers "Last-Modified")
      then none
      else between (λ modified date. quot_ℤ (sub_time date modified) 10)
          (parse_time (get headers "Last-Modified")) (parse_time (get headers "Date"))

  abbrev pub or_lifetime : Option Duration → Duration → Duration
  or_lifetime none d = d
  or_lifetime (some t) d = t

  unfoldable pub get_freshness_lifetime : Header → CacheControlResponseDirective → Duration
  get_freshness_lifetime headers cache_control =
      if not (eqb_ℤ cache_control.s_max_age (pos 0))
      then cache_control.s_max_age
      else if not (eqb_ℤ cache_control.max_age (pos 0))
      then cache_control.max_age
      else or_lifetime (expires_lifetime headers) (or_lifetime (heuristic_lifetime headers) (pos 0))

  abbrev pub or_now : Time → Option Time → Time
  or_now now none = now
  or_now now (some date) = date

  -- the Age header, zero if it is missing; a header that is no number reads as what `Atoi` returns
  abbrev pub age_of : Header → ℤ
  age_of headers = if is_empty (get headers "Age") then pos 0 else (atoi (get headers "Age")).0

  -- `now` is the clock when the Date header does not parse.
  unfoldable pub get_estimated_response_creation : Header → Time → Time → Time → Time
  get_estimated_response_creation headers request_time response_time now =
      let date = or_now now (parse_time (get headers "Date")) in
      let apparent_age = max_ℤ (pos 0) (sub_time response_time date) in
      let response_delay = sub_time response_time request_time in
      let corrected_age_value = wrap64 (wrap64 (age_of headers *ℤ second) +ℤ response_delay) in
      response_time +ℤ wrap64 (neg_ℤ (max_ℤ apparent_age corrected_age_value))

  -- `now` is the clock of `since`.
  unfoldable pub get_current_age : Time → Time → Duration
  get_current_age response_creation_time now = truncate_second (since now response_creation_time)

  unfoldable pub is_fresh : Header → CacheControlResponseDirective → Time → Time → Duration × Bool
  is_fresh headers cache_control response_creation_time now =
      let age = get_current_age response_creation_time now in
      (age, ltb_ℤ age (get_freshness_lifetime headers cache_control))
