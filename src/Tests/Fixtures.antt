-- ===== src/Tests/Fixtures.antt =====
-- What the runs of the client share: requests, stored responses, a clock that stands still, and an
-- upstream; and which of the stored responses are served.
use locaccel.Prelude.{
  ℕ, String, [], ◌∷◌, Option, none, some, Bool, true, false, if◌then◌else◌, arith, ◌≡◌, ◌≢◌, refl,
  ◌==◌, eq_iff,
}
use locaccel.Prelude.Int.{pos, quot_ℤ, clamp64, ◌-ℤ◌}
use locaccel.Http.{Time, HttpDates}
use locaccel.Caching.CacheControl.{
  parse_cache_control_directive, scan_headers, scan_directives, scan_directive, key_and_value,
  apply_argument, apply_bare, seconds,
}
use locaccel.Caching.Freshness.{is_fresh, get_current_age, get_freshness_lifetime}
use locaccel.Prelude.Text.{split_seq, atoi}
use locaccel.Client.Conditional.{add_conditional_request_information}
use locaccel.Client.Forward.Down.{without_hop_by_hop}
use locaccel.Caching.Vary.{match_vary_headers, relevant, same_values, normalize_vary_headers}
use locaccel.Http.Headers.{Header, get, del}
use locaccel.Database.{Entry}
use locaccel.Client.{
  CachedResponse, CachedResponses, Url, HttpRequest, Response, Body, UpstreamCache, Env, World,
  build_key,
}
use locaccel.Client.Select.{
  is_usable, served, serve_from_cached_candidates, serve_first, most_recent_from,
  select_most_recent_candidates, serve_from_cache, select_response_candidates,
}
use locaccel.Client.Forward.{remove_hop_by_hop_headers}
use locaccel.Client.Ingest.{Pending}
use locaccel.Tests.Store.{Shelf, shelf, same}

abbrev pub dates : HttpDates
dates = record {
  parse_time = λ s.
      if s == "noon"
      then some (pos 43_200_000_000_000)
      else if s == "one"
      then some (pos 46_800_000_000_000)
      else none;
  format_time = λ t. "noon";
}

pub formatted_parses : (t : Time) → dates.parse_time (dates.format_time t) ≢ none
formatted_parses t e = absurd (ground (arith, e))

abbrev pub url : Url
url = record { scheme = "https"; host = "h"; path = "/p"; rest = "" }

-- Each answer is `answer`, and a request is sent and answered at one.
abbrev pub env : Option (ℕ × Header) → Env
env answer = record {
  dates = dates;
  badger = shelf CachedResponses;
  codec = same CachedResponses;
  url_string = λ u. u.path;
  is_private = false;
  upstream = λ n req. record {
    sent_at = pos 46_800_000_000_000;
    received_at = pos 46_800_000_000_000;
    checked_at = pos 46_800_000_000_000;
    answer = answer;
  };
  now = λ n. pos 46_800_000_000_000;
  has_file = λ n hash. hash == "f1";
}

abbrev pub req : HttpRequest
req = record {
  method = "GET";
  host = "h";
  url = url;
  header = ("Accept", "a" ∷ []) ∷ ("Te", "x" ∷ []) ∷ [];
  proxy = none;
}

-- a response of noon that is good for `seconds`
abbrev pub of_noon : String → String → CachedResponse
of_noon control hash = record {
  content_hash = hash;
  status_code = 200;
  headers = ("Date", "noon" ∷ []) ∷ ("Cache-Control", control ∷ []) ∷ [];
  vary_headers = ("Accept", "a" ∷ []) ∷ [];
  time_at_response_creation = pos 43_200_000_000_000;
}

abbrev pub long : CachedResponse
long = of_noon "max-age=7200" "f1"

abbrev pub short : CachedResponse
short = of_noon "max-age=60" "f1"

abbrev pub gone : CachedResponse
gone = of_noon "max-age=7200" "f0"

abbrev pub undated : CachedResponse
undated = record long { headers = [] }

abbrev pub now : Time
now = pos 46_800_000_000_000

abbrev pub is_f1 : String → Bool
is_f1 hash = hash == "f1"

abbrev pub answered : Response
answered = served dates now is_f1 false long

pub long_is_served :
    serve_from_cache dates now is_f1 false req (undated ∷ gone ∷ long ∷ []) ≡ some answered
unfolding serve_from_cache serve_from_cached_candidates serve_first select_response_candidates
    match_vary_headers relevant same_values normalize_vary_headers select_most_recent_candidates
    most_recent_from get is_usable parse_cache_control_directive scan_headers scan_directives
    scan_directive key_and_value apply_argument apply_bare seconds split_seq atoi is_fresh
    get_current_age get_freshness_lifetime add_conditional_request_information
    remove_hop_by_hop_headers del quot_ℤ clamp64 ◌-ℤ◌
long_is_served = refl

pub long_is_fresh : serve_from_cache dates now is_f1 false req (long ∷ []) ≡ some answered
unfolding serve_from_cache serve_from_cached_candidates serve_first select_response_candidates
    match_vary_headers relevant same_values normalize_vary_headers select_most_recent_candidates
    most_recent_from get is_usable parse_cache_control_directive scan_headers scan_directives
    scan_directive key_and_value apply_argument apply_bare seconds split_seq atoi is_fresh
    get_current_age get_freshness_lifetime add_conditional_request_information
    remove_hop_by_hop_headers del quot_ℤ clamp64 ◌-ℤ◌
long_is_fresh = refl

pub short_is_not_fresh : serve_from_cache dates now is_f1 false req (short ∷ []) ≡ none
unfolding serve_from_cache serve_from_cached_candidates serve_first select_response_candidates
    match_vary_headers relevant same_values normalize_vary_headers select_most_recent_candidates
    most_recent_from get is_usable parse_cache_control_directive scan_headers scan_directives
    scan_directive key_and_value apply_argument apply_bare seconds split_seq atoi is_fresh
    get_current_age get_freshness_lifetime add_conditional_request_information
    remove_hop_by_hop_headers del quot_ℤ clamp64 ◌-ℤ◌
short_is_not_fresh = refl

abbrev pub asked : HttpRequest
asked = without_hop_by_hop (add_conditional_request_information dates req (short ∷ [])).0

pub short_is_stale :
    serve_from_cache dates now is_f1 true asked (short ∷ [])
    ≡ some (served dates now is_f1 true short)
unfolding serve_from_cache serve_from_cached_candidates serve_first select_response_candidates
    match_vary_headers relevant same_values normalize_vary_headers select_most_recent_candidates
    most_recent_from get is_usable parse_cache_control_directive scan_headers scan_directives
    scan_directive key_and_value apply_argument apply_bare seconds split_seq atoi is_fresh
    get_current_age get_freshness_lifetime add_conditional_request_information
    remove_hop_by_hop_headers del quot_ℤ clamp64 ◌-ℤ◌
short_is_stale = refl

abbrev pub ok_answer : Option (ℕ × Header)
ok_answer = some (200, ("Connection", "close" ∷ []) ∷ ("Vary", "Accept" ∷ []) ∷ [])

abbrev pub idle : World (Shelf CachedResponses)
idle = record { db = []; sent = []; notified = [] }

abbrev pub resp : Response
resp = record {
  status_code = 200;
  header = ("Date", "one" ∷ []) ∷ ("Vary", "Accept" ∷ []) ∷ [];
  body = Body.upstream_body 0;
}

abbrev pub pending : Pending
pending = record {
  req = req;
  resp = resp;
  forwarded = record {
    response = some resp;
    time_at_request_created = now;
    time_at_response_received = now;
  };
  cache_key = "GET+/p";
  db_entry = record { value = undated ∷ long ∷ []; version = 1 };
}

abbrev pub holding : CachedResponses → Shelf CachedResponses
holding value = ("GET+/p", some value) ∷ []

abbrev pub busy : World (Shelf CachedResponses)
busy = record { db = holding (long ∷ []); sent = []; notified = [] }

abbrev pub pooled : Entry CachedResponses
pooled = record { value = []; version = 0 }

abbrev pub caches : UpstreamCache
caches = record { uris = url ∷ []; proxy = true }

pub other_key : build_key (λ u. u.path) req ≢ "HEAD+/p"
unfolding build_key
other_key e =
    let same_test : ("GET+/p" == "HEAD+/p") ≡ true = (eq_iff "GET+/p" "HEAD+/p").1 e in
    absurd (ground (arith, same_test))

abbrev pub of_db : CachedResponse → Entry CachedResponses
of_db c = record { value = c ∷ []; version = 1 }

abbrev pub aging : World (Shelf CachedResponses)
aging = record { db = holding (short ∷ []); sent = []; notified = [] }
