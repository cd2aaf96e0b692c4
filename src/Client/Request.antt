-- ===== src/Client/Request.antt =====
-- `Client.Do`: answering a request from the cache or from the upstream.
pub mod Quiet
pub mod Callees
pub mod Effects
pub mod Outcomes
use locaccel.Prelude.{
  ℕ, String, Option, none, some, Bool, true, false, not, ◌&&◌, ◌==◌, eqb, leb, length,
  if◌then◌else◌,
}
use locaccel.Caching.Cacheable.{is_cacheable}
use locaccel.Database.{Entry, DbError, get}
use locaccel.Client.{
  CachedResponses, HttpRequest, Response, UpstreamCache, Env, Action, build_key, ◌>>=◌, ◌>>◌, pure,
  gets, notify,
}
use locaccel.Client.Select.{serve_from_cache}
use locaccel.Client.Conditional.{add_conditional_request_information}
use locaccel.Client.Forward.{Forwarded, forward_request, forward_request_with_upstream}
use locaccel.Client.Revalidate.{update_cache}
use locaccel.Client.Ingest.{Pending}

-- The response, or the error of the upstream, and the callback of a response whose body is ingested
-- while it is read.
pub record Answer : Type 0 where
  pub response : Option Response
  pub pending : Option Pending

abbrev pub respond : Response → Answer
respond r = record { response = some r; pending = none }

abbrev pub server_error : ℕ
server_error = 500

-- `err != nil || resp.StatusCode >= 500`
abbrev pub is_failure : Option Response → Bool
is_failure none = true
is_failure (some resp) = leb server_error resp.status_code

module _ (env : Env) where
  abbrev pub Do : Type 0 → Type 0
  Do A = Action env.badger.Db A

  -- `c.serveFromCache` at the clock of the moment
  abbrev pub serve : HttpRequest → CachedResponses → Bool → Do (Option Response)
  serve req value force_stale = gets (λ w.
      serve_from_cache env.dates (env.now (length w.sent)) (env.has_file (length w.sent))
        force_stale req value)

  abbrev pub notify_and : {A : Type 0} → String → A → Do A
  notify_and status a = notify status >>= (λ _. pure a)

  abbrev pub hit_or : Do Answer → Option Response → Do Answer
  hit_or otherwise none = otherwise
  hit_or otherwise (some r) = notify_and "hit" (respond r)

  -- A stale response in place of a failure, if there is one in the entry; else `otherwise`.
  unfoldable pub stale_or : HttpRequest → Entry CachedResponses → Do Answer → Do Answer
  stale_or req db_entry otherwise =
      if not (eqb db_entry.version 0)
      then serve req db_entry.value true >>= hit_or otherwise
      else otherwise

  abbrev pub failed : Forwarded → Do Answer
  failed f = pure (record { response = f.response; pending = none })

  abbrev pub revalidated_or : Do Answer → Option Response → Do Answer
  revalidated_or otherwise none = otherwise
  revalidated_or otherwise (some r) = notify_and "revalidated" (respond r)

  abbrev not_modified : ℕ
  not_modified = 304

  abbrev too_many_requests : ℕ
  too_many_requests = 429

  module _ (cache_key : String) (db_entry : Entry CachedResponses) where
    -- The end of `Do`: a response that is not to be stored is handed on, any other is ingested.
    unfoldable pub ingested : HttpRequest → Forwarded → Response → Answer
    ingested req f resp =
        let (cacheable, explicitly_configured) =
          is_cacheable env.dates resp.status_code resp.header env.is_private in
        if not cacheable && explicitly_configured then respond resp else record {
          response = some resp;
          pending = some (record {
            req = req;
            resp = resp;
            forwarded = f;
            cache_key = cache_key;
            db_entry = db_entry;
          });
        }

    unfoldable pub store : HttpRequest → Forwarded → Response → Do Answer
    unfolding ingested
    store req f resp = notify_and "miss" (ingested req f resp)

    abbrev pub stored : HttpRequest → Forwarded → Option Response → Do Answer
    stored req f none = failed f
    stored req f (some resp) = store req f resp

    -- What follows the answer to the second try.
    abbrev pub after_retry : HttpRequest → Forwarded × HttpRequest → Do Answer
    after_retry req (f, original) =
        if is_failure f.response then stale_or req db_entry (failed f) else stored req f f.response

    module _ (original : HttpRequest) (cache : UpstreamCache) where
      -- The second try, with the request as it came.
      unfoldable pub retry : HttpRequest → Do Answer
      unfolding store stale_or
      retry req = forward_request_with_upstream env original cache >>= after_retry req

      -- An answer that is no failure, and that no stale response stands in for. The flags tell
      -- whether the request has conditional information, and whether it was conditional before.
      unfoldable pub settle : HttpRequest → Bool × Bool → Forwarded → Response → Do Answer
      unfolding retry
      settle req (has_conditional, was_conditional) f resp =
          if has_conditional && eqb resp.status_code not_modified
          then update_cache env cache_key db_entry f resp
            >>= revalidated_or
                (if was_conditional then notify_and "miss" (respond resp) else retry req)
          else store req f resp

      abbrev pub settled : HttpRequest → Bool × Bool → Forwarded → Option Response → Do Answer
      settled req flags f none = failed f
      settled req flags f (some resp) =
          let next = settle req flags f resp in
          if eqb resp.status_code too_many_requests then stale_or req db_entry next else next

      abbrev pub after_answer : Bool × Bool → Forwarded × HttpRequest → Do Answer
      after_answer flags (f, req) =
          if is_failure f.response
          then stale_or req db_entry (failed f)
          else settled req flags f f.response

    -- The request to the upstream, conditional if there is an entry.
    unfoldable pub ask_upstream : HttpRequest → UpstreamCache → Do Answer
    unfolding settle
    ask_upstream req cache =
        let (sent, has_conditional, was_conditional) =
          if not (eqb db_entry.version 0)
          then add_conditional_request_information env.dates req db_entry.value
          else (req, false, false) in
        forward_request_with_upstream env sent cache
        >>= after_answer req cache (has_conditional, was_conditional)

  abbrev pub forwarded_answer : Forwarded × HttpRequest → Do Answer
  forwarded_answer (f, req) = notify "miss" >> failed f

  -- An error of the database leaves the entry as it is.
  abbrev pub looked_up :
      String → HttpRequest → UpstreamCache → Entry CachedResponses × Option DbError → Do Answer
  looked_up cache_key req cache (db_entry, some err) = ask_upstream cache_key db_entry req cache
  looked_up cache_key req cache (db_entry, none) =
      serve req db_entry.value false >>= hit_or (ask_upstream cache_key db_entry req cache)

  -- `pooled` is the entry that the pool hands out, as its last use left it.
  unfoldable pub do_request : Entry CachedResponses → HttpRequest → UpstreamCache → Do Answer
  unfolding ask_upstream
  do_request pooled req cache =
      let cache_key = build_key env.url_string req in
      if not (req.method == "GET") && not (req.method == "HEAD")
      then forward_request env req >>= forwarded_answer
      else gets (λ w. get env.badger env.codec w.db cache_key pooled)
        >>= looked_up cache_key req cache
