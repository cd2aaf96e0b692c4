-- ===== src/Client/Ingest.antt =====
-- The callback of `setupIngestion`: storing a response whose body was read to the end.
pub mod Replaced
use locaccel.Prelude.{ℕ, String, List, [], ◌∷◌, Bool, true, false, eqb, not, if◌then◌else◌, Option}
use locaccel.Http.{Time}
use locaccel.Http.Headers.{Header}
use locaccel.Caching.Vary.{match_vary_headers, extract_vary_headers}
use locaccel.Caching.Freshness.{get_estimated_response_creation}
use locaccel.Database.{Entry, save, new, DbError}
use locaccel.Client.{CachedResponse, CachedResponses, HttpRequest, Response, Env}
use locaccel.Client.Forward.{Forwarded}

-- What the callback holds.
pub record Pending : Type 0 where
  pub req : HttpRequest
  pub resp : Response
  pub forwarded : Forwarded
  pub cache_key : String
  pub db_entry : Entry CachedResponses

-- The first response that matches the request is replaced; if none does, the new one is added.
unfoldable pub replace_or_append : Header → CachedResponse → CachedResponses → CachedResponses
replace_or_append req_header cache_resp [] = cache_resp ∷ []
replace_or_append req_header cache_resp (c ∷ cs) =
    let rest = replace_or_append req_header cache_resp cs in
    if match_vary_headers req_header c.vary_headers then cache_resp ∷ cs else c ∷ rest

module _ (env : Env) where
  unfoldable pub cached_response : Pending → String → Time → CachedResponse
  cached_response p hash now = record {
    content_hash = hash;
    status_code = p.resp.status_code;
    headers = p.resp.header;
    vary_headers = extract_vary_headers p.req.header p.resp.header;
    time_at_response_creation =
        get_estimated_response_creation env.dates p.resp.header p.forwarded.time_at_request_created
          p.forwarded.time_at_response_received now;
  }

  -- An error is logged.
  unfoldable pub on_ingest :
      Pending → String → Time → env.badger.Db → env.badger.Db × Option DbError
  unfolding cached_response replace_or_append
  on_ingest p hash now db =
      let cache_resp = cached_response p hash now in
      if not (eqb p.db_entry.version 0)
      then save env.badger env.codec db p.cache_key (record (p.db_entry) {
        value = replace_or_append p.req.header cache_resp p.db_entry.value;
      })
      else new env.badger env.codec db p.cache_key (cache_resp ∷ [])
