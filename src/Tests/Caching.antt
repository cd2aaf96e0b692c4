-- ===== src/Tests/Caching.antt =====
-- The rules of RFC 9111 at concrete headers.
use locaccel.Prelude.{
  if◌then◌else◌, String, List, [], ◌∷◌, Option, none, some, true, false, ◌≡◌, ◌≢◌, ◌↔◌, ◌⊎◌, refl,
  arith, any, All, ◌==◌,
}
use locaccel.Prelude.Int.{pos, clamp64, ◌-ℤ◌, quot_ℤ, ◌*ℤ◌}
use locaccel.Prelude.Panic.{returns, panics}
use locaccel.Prelude.Text.{split_seq, atoi}
use locaccel.Http.{HttpDates, Time}
use locaccel.Http.Headers.{Header, get}
use locaccel.Etag.{
  etags_match, etags_match-opaque, etags_match-panics, IsShort, begins_weak, prefix_of,
}
use locaccel.Caching.CacheControl.{
  no_directive, parse_cache_control_directive, scan_headers, scan_directives, scan_directive,
  key_and_value, apply_argument, apply_bare, seconds,
}
use locaccel.Caching.CacheControl.Joined.{parse-joined}
use locaccel.Caching.CacheControl.Duplicates.{directives_of}
use locaccel.Caching.CacheControl.First.{parse-first, ReadsFirst}
use locaccel.Caching.Vary.{get_vary_header_names, extract_vary_headers, match_vary_headers}
use locaccel.Caching.Vary.Matching.{Agree, match-extract}
use locaccel.Caching.Freshness.{get_freshness_lifetime, is_fresh, get_current_age, expires_lifetime}
use locaccel.Caching.Freshness.Expiry.{is_fresh_earlier}
use locaccel.Caching.Cacheable.{is_cacheable, status_ok}
use locaccel.Caching.Cacheable.Rules.{is_cacheable_iff, MayStore, directives}

-- A calendar with two days.
abbrev day : String → Option Time
day s =
    if s == "monday"
    then some (pos 1000)
    else if s == "tuesday"
    then some (pos 86_400_000_001_000)
    else none

abbrev pub dates : HttpDates
dates = record { parse_time = day; format_time = λ t. "monday" }

etags_match-opaque_example : etags_match "W/\"a\"" "\"a\"" ≡ returns true
unfolding prefix_of
etags_match-opaque_example = etags_match-opaque "W/\"a\"" "\"a\"" refl refl

abbrev tag : String
tag = "\"a\""

abbrev star : String
star = "*"

-- An `If-None-Match: *` is such a short tag.
etags_match-panics_example :
    (etags_match tag star ≡ panics)
    ↔ ((tag ≢ star) × (IsShort tag ⊎ ((begins_weak tag ≡ false) × IsShort star)))
etags_match-panics_example = etags_match-panics tag star

star_panics : etags_match tag star ≡ panics
unfolding etags_match
star_panics = refl

parse-joined_example :
    parse_cache_control_directive ("no-store" ∷ "max-age=5" ∷ [])
    ≡ parse_cache_control_directive ("no-store,max-age=5" ∷ [])
parse-joined_example = parse-joined "no-store" "max-age=5" []

abbrev lines : List String
lines = "no-cache=x, max-age=60" ∷ "no-store, max-age=9" ∷ []

parse-first_example :
    ReadsFirst
      (record no_directive { no_cache = true; no_store = true; max_age = pos 60_000_000_000 })
      (directives_of lines)
unfolding parse_cache_control_directive scan_headers scan_directives scan_directive key_and_value
    apply_argument apply_bare seconds split_seq atoi
parse-first_example = parse-first lines refl

abbrev req : Header
req = ("Accept", "a" ∷ "b" ∷ []) ∷ []

abbrev other_req : Header
other_req = ("Accept", "a, b" ∷ []) ∷ ("Te", "x" ∷ []) ∷ []

abbrev varies : Header
varies = ("Vary", "Accept" ∷ []) ∷ []

match-extract_example : (match_vary_headers other_req (extract_vary_headers req varies) ≡ true) ↔ (
    (any (λ name. name == "*") (get_vary_header_names varies) ≡ false)
    × All (Agree other_req req) (get_vary_header_names varies))
match-extract_example = match-extract req other_req varies

abbrev expires_tuesday : Header
expires_tuesday = ("Date", "monday" ∷ []) ∷ ("Expires", "tuesday" ∷ []) ∷ []

is_fresh_earlier_example :
    (is_fresh dates expires_tuesday no_directive (pos 1000) (pos 3_000_001_000)).1 ≡ true
unfolding is_fresh get_current_age get_freshness_lifetime expires_lifetime get clamp64 ◌-ℤ◌ quot_ℤ
    ◌*ℤ◌
is_fresh_earlier_example =
    is_fresh_earlier dates expires_tuesday no_directive (pos 1000) (pos 3_000_001_000)
      (pos 80_000_000_001_000) (omega arith) refl

is_cacheable_iff_example :
    ((is_cacheable dates 200 expires_tuesday false ≡ (true, true)) ↔ (
      (200 ≡ status_ok)
      × ((directives dates 200 expires_tuesday false).1 ≡ true)
      × MayStore dates 200 expires_tuesday false (directives dates 200 expires_tuesday false).0))
    × (is_cacheable dates 200 expires_tuesday false ≢ (true, false))
is_cacheable_iff_example = is_cacheable_iff dates 200 expires_tuesday false
