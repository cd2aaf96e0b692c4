-- ===== src/Client/Select.antt =====
-- Choosing a stored response for a request, and serving it.
pub mod Recent
pub mod Served
use locaccel.Prelude.{
  ℕ, String, List, [], ◌∷◌, ◌++◌, Option, none, some, Bool, true, false, not, ◌&&◌, ◌||◌, keep_if,
  if◌then◌else◌,
}
use locaccel.Prelude.Int.{ℤ, pos, ltb_ℤ, eqb_ℤ, quot_ℤ}
use locaccel.Prelude.Text.Decimal.{itoa_ℤ}
use locaccel.Http.{Time, Duration, HttpDates, second}
use locaccel.Http.Headers.{Header, get, values, set}
use locaccel.Caching.CacheControl.{CacheControlResponseDirective, parse_cache_control_directive}
use locaccel.Caching.Vary.{match_vary_headers}
use locaccel.Caching.Freshness.{is_fresh}
use locaccel.Client.{CachedResponse, CachedResponses, HttpRequest, Response, file_body}

unfoldable pub select_response_candidates : HttpRequest → CachedResponses → CachedResponses
select_response_candidates req value =
    keep_if (λ resp. match_vary_headers req.header resp.vary_headers) value

-- `strconv.FormatFloat(age.Seconds(), 'f', 0, 64)` of a whole number of seconds
unfoldable pub format_age : Duration → String
unfolding itoa_ℤ quot_ℤ
format_age age = itoa_ℤ (quot_ℤ age second)

abbrev pub or_zero_time : Option Time → Time
or_zero_time none = pos 0
or_zero_time (some t) = t

module _ (dates : HttpDates) where
  -- A Date that does not parse counts as the zero time.
  abbrev pub date_of : CachedResponse → Time
  date_of candidate = or_zero_time (dates.parse_time (get candidate.headers "Date"))

  unfoldable pub most_recent_from : CachedResponses → CachedResponses → Time → CachedResponses
  most_recent_from [] most_recent max_date = most_recent
  most_recent_from (candidate ∷ candidates) most_recent max_date =
      let date = date_of candidate in
      elim (ltb_ℤ max_date date) [
        | true ↦ most_recent_from candidates (candidate ∷ []) date
        | false ↦
            most_recent_from candidates
              (if eqb_ℤ date max_date then most_recent ++ candidate ∷ [] else most_recent) max_date
      ]

  unfoldable pub select_most_recent_candidates : CachedResponses → CachedResponses
  unfolding most_recent_from
  select_most_recent_candidates candidates = most_recent_from candidates [] (pos 0)

  -- The directives that were read before an error count.
  abbrev pub directives_of : CachedResponse → CacheControlResponseDirective
  directives_of resp = (parse_cache_control_directive (values resp.headers "Cache-Control")).0

  -- `now` is the clock of `c.since`, and `has_file` tells whether `c.cache.Open` finds the file.
  module _ (now : Time) (has_file : String → Bool) (force_stale : Bool) where
    abbrev pub age_of : CachedResponse → Duration × Bool
    age_of resp =
        is_fresh dates resp.headers (directives_of resp) resp.time_at_response_creation now

    abbrev pub served : CachedResponse → Response
    served resp = record {
      status_code = resp.status_code;
      header = set resp.headers "Age" (format_age (age_of resp).0);
      body = file_body resp.content_hash;
    }

    -- the body of the loop: whether this candidate is returned
    unfoldable pub is_usable : CachedResponse → Bool
    is_usable resp =
        not (
          not force_stale
          && ((directives_of resp).no_cache || (directives_of resp).must_revalidate))
        && ((age_of resp).1 || force_stale)
        && has_file resp.content_hash

    unfoldable pub serve_first : CachedResponses → Option Response
    serve_first [] = none
    serve_first (resp ∷ rest) =
        let more = serve_first rest in if is_usable resp then some (served resp) else more

    unfoldable pub serve_from_cached_candidates : CachedResponses → Option Response
    unfolding serve_first
    serve_from_cached_candidates candidates = serve_first (select_most_recent_candidates candidates)

    -- No candidate is no response.
    unfoldable pub serve_from_cache : HttpRequest → CachedResponses → Option Response
    unfolding serve_from_cached_candidates
    serve_from_cache req value = elim (select_response_candidates req value) [
      | [] ↦ none
      | c ∷ cs ↦ serve_from_cached_candidates (c ∷ cs)
    ]
