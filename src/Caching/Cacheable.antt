-- ===== src/Caching/Cacheable.antt =====
-- caching.go: whether a response may be stored (RFC 9111, section 3).
pub mod Rules
use locaccel.Prelude.{
  ℕ, String, Option, none, some, Bool, true, false, not, ◌&&◌, ◌||◌, if◌then◌else◌, eqb, ◌≡◌, refl,
}
use locaccel.Prelude.Int.{pos, eqb_ℤ}
use locaccel.Prelude.Text.{is_empty}
use locaccel.Http.{HttpDates, Time}
use locaccel.Http.Headers.{Header, get, has, values}
use locaccel.Caching.CacheControl.{CacheControlResponseDirective, parse_cache_control_directive}

abbrev pub status_ok : ℕ
status_ok = 200

abbrev pub is_some {ℓ} : {A : Type ℓ} → Option A → Bool
is_some none = false
is_some (some a) = true

module _ (dates : HttpDates) where
  -- What follows once the directives are parsed.
  unfoldable pub decide_cacheable : Header → Bool → CacheControlResponseDirective → Bool × Bool
  decide_cacheable header is_private cache_control =
      if has header "Range"
      then (false, true)
      else if has header "Content-Range"
      then (false, true)
      else if cache_control.no_store
      then (false, true)
      else if cache_control.private
      then (is_private, true)
      else if has header "Authorization"
          && not is_private
          && not cache_control.must_revalidate
          && not cache_control.public
          && eqb_ℤ cache_control.s_max_age (pos 0)
      then (false, true)
      else if cache_control.public
          || not (eqb_ℤ cache_control.max_age (pos 0))
          || not (eqb_ℤ cache_control.s_max_age (pos 0))
      then (true, true)
      else if has header "Expires"
      then (true, true)
      else if not (is_empty (get header "Etag"))
      then (true, true)
      else if not (is_empty (get header "Last-Modified"))
          && is_some (dates.parse_time (get header "Last-Modified"))
      then (true, true)
      else (false, false)

  -- The two results are `cacheable` and `explicitlyConfigured`.
  unfoldable pub is_cacheable : ℕ → Header → Bool → Bool × Bool
  is_cacheable status_code header is_private =
      if not (eqb status_code status_ok)
      then (false, true)
      else let (cache_control, valid) =
          parse_cache_control_directive (values header "Cache-Control") in
        if valid then decide_cacheable header is_private cache_control else (false, true)
