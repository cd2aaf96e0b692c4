-- ===== src/Caching/Freshness/Expiry.antt =====
-- Freshness over time.
use locaccel.Prelude.{true, ◌≡◌, arith}
use locaccel.Prelude.Int.{◌≤ℤ◌, ◌-ℤ◌, -ℤ_parts, quot_ℤ, ◌*ℤ◌, clamp64_mono}
use locaccel.Http.{Time, Duration, HttpDates}
use locaccel.Http.Headers.{Header}
use locaccel.Caching.CacheControl.{CacheControlResponseDirective}
use locaccel.Caching.Freshness.{truncate_second, get_current_age, is_fresh}

truncate_mono : (a b : Duration) → a ≤ℤ b → truncate_second a ≤ℤ truncate_second b
unfolding quot_ℤ ◌*ℤ◌
truncate_mono a b h = ground arith

sub_mono : (t now later : Time) → now ≤ℤ later → now -ℤ t ≤ℤ later -ℤ t
sub_mono t now later h = omega (arith, -ℤ_parts now t, -ℤ_parts later t)

module _ (dates : HttpDates) where
  -- A response does not get younger.
  pub get_current_age_mono :
      (created now later : Time)
      → now ≤ℤ later
      → get_current_age dates created now ≤ℤ get_current_age dates created later
  unfolding get_current_age
  get_current_age_mono created now later h =
      truncate_mono _ _ (clamp64_mono _ _ (sub_mono created now later h))

  -- Once a stored response is stale it stays stale: what is fresh at a time was fresh at each
  -- earlier one.
  pub is_fresh_earlier :
      (headers : Header) (cc : CacheControlResponseDirective) (created now later : Time)
      → now ≤ℤ later
      → (is_fresh dates headers cc created later).1 ≡ true
      → (is_fresh dates headers cc created now).1 ≡ true
  unfolding is_fresh
  is_fresh_earlier headers cc created now later h fresh =
      let older = get_current_age_mono created now later h in ground arith
