-- ===== src/Client/Revalidate.antt =====
-- `updateCache` and `refreshResponseAndServe`: an answer 304 to a conditional request refreshes the
-- stored response that it is about.
pub mod Matched
pub mod Answered
use locaccel.Prelude.{
  ℕ, zero, suc, String, [], ◌∷◌, Option, none, some, Bool, true, false, length, ◌==◌, if◌then◌else◌,
}
use locaccel.Prelude.Panic.{Run, returns, panics}
use locaccel.Prelude.Text.{is_empty}
use locaccel.Http.{Time}
use locaccel.Http.Headers.{Header, get, put, set}
use locaccel.Etag.{etags_match}
use locaccel.Caching.Freshness.{get_estimated_response_creation, get_current_age}
use locaccel.Database.{Entry, save}
use locaccel.Client.{
  CachedResponse, CachedResponses, Response, Env, Action, file_body, ◌>>=◌, ◌>>◌, lift, pure, panic,
  gets, modify,
}
use locaccel.Client.Select.{format_age}
use locaccel.Client.Forward.{Forwarded}

-- A stored response and its place.
abbrev pub Match : Type 0
Match = Option (ℕ × CachedResponse)

abbrev pub found_or : Match → Run Bool → Run Match → Run Match
found_or here panics rest = panics
found_or here (returns true) rest = returns here
found_or here (returns false) rest = rest

-- the first stored response whose Etag matches; comparing may panic
unfoldable pub match_etag : String → CachedResponses → ℕ → Run Match
match_etag etag [] idx = returns none
match_etag etag (cached ∷ rest) idx =
    found_or (some (idx, cached)) (etags_match etag (get cached.headers "Etag"))
      (match_etag etag rest (suc idx))

unfoldable pub match_last_modified : String → CachedResponses → ℕ → Match
match_last_modified last_modified [] idx = none
match_last_modified last_modified (cached ∷ rest) idx =
    let more = match_last_modified last_modified rest (suc idx) in
    if last_modified == get cached.headers "Last-Modified" then some (idx, cached) else more

abbrev pub or_last_modified : Header → CachedResponses → Match → Match
or_last_modified header value (some m) = some m
or_last_modified header value none =
    if is_empty (get header "Last-Modified")
    then none
    else match_last_modified (get header "Last-Modified") value 0

abbrev pub run_map : (Match → Match) → Run Match → Run Match
run_map f panics = panics
run_map f (returns m) = returns (f m)

-- the place that `updateCache` finds, by Etag and else by Last-Modified
unfoldable pub find_match : Header → CachedResponses → Run Match
unfolding match_etag match_last_modified
find_match header value =
    let by_etag =
      if is_empty (get header "Etag")
      then returns none
      else match_etag (get header "Etag") value 0 in
    run_map (or_last_modified header value) by_etag

-- The loop over the headers of the answer, which is a map with distinct names.
unfoldable pub refresh_headers : Header → Header → Header
refresh_headers [] cached = cached
refresh_headers ((key, val) ∷ header) cached =
    refresh_headers header (if key == "Content-Length" then cached else put cached key val)

unfoldable pub replace_at : ℕ → CachedResponse → CachedResponses → CachedResponses
replace_at idx resp [] = []
replace_at zero resp (c ∷ cs) = resp ∷ cs
replace_at (suc idx) resp (c ∷ cs) = c ∷ replace_at idx resp cs

module _ (env : Env) where
  abbrev Do : Type 0 → Type 0
  Do A = Action env.badger.Db A

  abbrev pub clock : Do Time
  clock = gets (λ w. env.now (length w.sent))

  -- An error of the save is logged.
  abbrev pub save_entry : String → Entry CachedResponses → Do (Unit {0})
  save_entry key entry =
      modify (λ w. record w { db = (save env.badger env.codec w.db key entry).0 })

  abbrev pub open_file : String → Do Bool
  open_file hash = gets (λ w. env.has_file (length w.sent) hash)

  unfoldable pub refreshed : Forwarded → Response → Time → CachedResponse → CachedResponse
  unfolding refresh_headers
  refreshed f resp now cached = record cached {
    headers = refresh_headers resp.header cached.headers;
    time_at_response_creation =
        get_estimated_response_creation env.dates resp.header f.time_at_request_created
          f.time_at_response_received now;
  }

  abbrev pub revalidated : CachedResponse → Time → Response
  revalidated cached now = record {
    status_code = 200;
    header =
        set cached.headers "Age"
          (format_age (get_current_age env.dates cached.time_at_response_creation now));
    body = file_body cached.content_hash;
  }

  -- A file that cannot be opened is a panic, after the entry is saved.
  unfoldable pub refresh_response_and_serve :
      String → Entry CachedResponses → ℕ → CachedResponse → Forwarded → Response → Do Response
  unfolding refreshed replace_at
  refresh_response_and_serve cache_key db_entry idx cached f resp = do
    now ← clock
    let cached' = refreshed f resp now cached
    save_entry cache_key (record db_entry { value = replace_at idx cached' db_entry.value })
    opened ← open_file cached'.content_hash
    if opened then pure (revalidated cached' now) else panic

  abbrev pub serve_match :
      String → Entry CachedResponses → Forwarded → Response → Match → Do (Option Response)
  serve_match cache_key db_entry f resp none = pure none
  serve_match cache_key db_entry f resp (some (idx, cached)) =
      refresh_response_and_serve cache_key db_entry idx cached f resp >>= (λ r. pure (some r))

  -- None is `errNoMatchingEntryInCache`.
  unfoldable pub update_cache :
      String → Entry CachedResponses → Forwarded → Response → Do (Option Response)
  unfolding refresh_response_and_serve find_match
  update_cache cache_key db_entry f resp =
      lift (find_match resp.header db_entry.value) >>= serve_match cache_key db_entry f resp
