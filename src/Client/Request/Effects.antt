-- ===== src/Client/Request/Effects.antt =====
-- What any run of `Client.Do` leaves behind: which keys it may write, and how often it notifies.
use locaccel.Prelude.{
  String, Option, none, some, Bool, true, false, not, ◌&&◌, eqb, if◌then◌else◌, ◌≡◌, ◌≢◌, refl,
  ◌==◌,
}
use locaccel.Database.{Entry, DbError, get}
use locaccel.Database.Laws.{BadgerLaws, CodecLaws}
use locaccel.Client.{
  CachedResponses, HttpRequest, Response, UpstreamCache, Env, World, Action, build_key, ◌>>=◌, pure,
  gets, notify,
}
use locaccel.Client.Conditional.{add_conditional_request_information}
use locaccel.Client.Request.Quiet.{
  is_known, IsQuiet, Does, pure-Does, gets-Does, notify-Does, bind-Does, Does-if,
}
use locaccel.Client.Forward.{Forwarded, forward_request, forward_request_with_upstream}
use locaccel.Client.Revalidate.{update_cache}
use locaccel.Client.Request.Callees.{forward_request-Does, try_upstreams-Does, update_cache-Does}
use locaccel.Client.Request.{
  Answer, respond, serve, notify_and, hit_or, stale_or, failed, store, stored, after_retry, retry,
  revalidated_or, settle, settled, after_answer, ask_upstream, looked_up, do_request, is_failure,
  ingested, forwarded_answer,
}

module _ (env : Env) (laws : BadgerLaws env.badger) (codec_laws : CodecLaws env.codec)
    (other : String) where
  module _ (cache_key : String) (db_entry : Entry CachedResponses) (ne : cache_key ≢ other) where
    serve-Does :
        (req : HttpRequest) (value : CachedResponses) (force : Bool)
        → Does env other 0 (serve env req value force)
    serve-Does req value force w = gets-Does env other (λ w. (serve env req value force w).0) w

    notify_and-Does :
        (status : String) (a : Answer)
        → is_known status ≡ true
        → Does env other 1 (notify_and env status a)
    notify_and-Does status a known w =
        bind-Does env other 1 0 (notify status) (λ u. pure a) (notify-Does env other status known)
          (λ u. pure-Does env other 0 a) w

    hit_or-Does :
        (next : Action env.badger.Db Answer) (r : Option Response)
        → Does env other 1 next
        → Does env other 1 (hit_or env next r)
    unfolding is_known
    hit_or-Does next none d = d
    hit_or-Does next (some r) d = notify_and-Does "hit" (respond r) refl

    stale_or-Does :
        (req : HttpRequest) (next : Action env.badger.Db Answer)
        → Does env other 1 next
        → Does env other 1 (stale_or env req db_entry next)
    unfolding stale_or
    stale_or-Does req next d =
        Does-if env other 1 (not (eqb db_entry.version 0)) _ next
          (bind-Does env other 0 1 (serve env req db_entry.value true) (hit_or env next)
            (serve-Does req db_entry.value true) (λ r. hit_or-Does next r d))
          d

    failed-Does : (f : Forwarded) → Does env other 1 (failed env f)
    failed-Does f =
        pure-Does env other {A = Answer} 1 (record { response = f.response; pending = none })

    store-Does :
        (req : HttpRequest) (f : Forwarded) (resp : Response)
        → Does env other 1 (store env cache_key db_entry req f resp)
    unfolding store is_known
    store-Does req f resp = notify_and-Does "miss" (ingested env cache_key db_entry req f resp) refl

    stored-Does :
        (req : HttpRequest) (f : Forwarded) (r : Option Response)
        → Does env other 1 (stored env cache_key db_entry req f r)
    stored-Does req f none = failed-Does f
    stored-Does req f (some resp) = store-Does req f resp

    module _ (original : HttpRequest) (cache : UpstreamCache) where
      forward-Does :
          (req : HttpRequest) → Does env other 0 (forward_request_with_upstream env req cache)
      unfolding forward_request_with_upstream
      forward-Does req = try_upstreams-Does env laws codec_laws other cache.proxy req cache.uris

      retry-Does :
          (req : HttpRequest) → Does env other 1 (retry env cache_key db_entry original cache req)
      unfolding retry
      retry-Does req =
          bind-Does env other 0 1 (forward_request_with_upstream env original cache)
            (after_retry env cache_key db_entry req) (forward-Does original)
            (λ (f, req').
              Does-if env other 1 (is_failure f.response) (stale_or env req db_entry (failed env f))
                (stored env cache_key db_entry req f f.response)
                (stale_or-Does req (failed env f) (failed-Does f)) (stored-Does req f f.response))

      revalidated_or-Does :
          (next : Action env.badger.Db Answer) (r : Option Response)
          → Does env other 1 next
          → Does env other 1 (revalidated_or env next r)
      unfolding is_known
      revalidated_or-Does next none d = d
      revalidated_or-Does next (some r) d = notify_and-Does "revalidated" (respond r) refl

      settle-Does :
          (req : HttpRequest) (has_conditional was_conditional : Bool) (f : Forwarded)
          (resp : Response)
          → Does env other 1 (
              settle env cache_key db_entry original cache req
                (has_conditional, was_conditional)
                f
                resp)
      unfolding settle is_known
      settle-Does req has_conditional was_conditional f resp =
          let again =
            if was_conditional
            then notify_and env "miss" (respond resp)
            else retry env cache_key db_entry original cache req in
          Does-if env other 1 (has_conditional && eqb resp.status_code 304)
            (update_cache env cache_key db_entry f resp >>= revalidated_or env again)
            (store env cache_key db_entry req f resp)
            (bind-Does env other 0 1 (update_cache env cache_key db_entry f resp)
              (revalidated_or env again)
              (update_cache-Does env laws codec_laws other cache_key db_entry ne f resp)
              (λ r. revalidated_or-Does again r (
                Does-if env other 1 was_conditional (notify_and env "miss" (respond resp))
                  (retry env cache_key db_entry original cache req)
                  (notify_and-Does "miss" (respond resp) refl) (retry-Does req))))
            (store-Does req f resp)

      settled-Does :
          (req : HttpRequest) (flags : Bool × Bool) (f : Forwarded) (r : Option Response)
          → Does env other 1 (settled env cache_key db_entry original cache req flags f r)
      settled-Does req flags f none = failed-Does f
      settled-Does req flags f (some resp) =
          let next = settle env cache_key db_entry original cache req flags f resp in
          Does-if env other 1 (eqb resp.status_code 429) (stale_or env req db_entry next) next
            (stale_or-Does req next (settle-Does req flags.0 flags.1 f resp))
            (settle-Does req flags.0 flags.1 f resp)

      after_answer-Does :
          (flags : Bool × Bool) (f : Forwarded) (req : HttpRequest)
          → Does env other 1 (after_answer env cache_key db_entry original cache flags (f, req))
      after_answer-Does flags f req =
          Does-if env other 1 (is_failure f.response) (stale_or env req db_entry (failed env f))
            (settled env cache_key db_entry original cache req flags f f.response)
            (stale_or-Does req (failed env f) (failed-Does f)) (settled-Does req flags f f.response)

      ask_upstream-Does : Does env other 1 (ask_upstream env cache_key db_entry original cache)
      unfolding ask_upstream
      ask_upstream-Does =
          let (sent, has_conditional, was_conditional) =
            if not (eqb db_entry.version 0)
            then add_conditional_request_information env.dates original db_entry.value
            else (original, false, false) in
          bind-Does env other 0 1 (forward_request_with_upstream env sent cache)
            (after_answer env cache_key db_entry original cache (has_conditional, was_conditional))
            (forward-Does sent)
            (λ (f, req). after_answer-Does (has_conditional, was_conditional) f req)

  looked_up-Does :
      (cache_key : String) (req : HttpRequest) (cache : UpstreamCache)
      (found : Entry CachedResponses × Option DbError)
      → cache_key ≢ other
      → Does env other 1 (looked_up env cache_key req cache found)
  looked_up-Does cache_key req cache (db_entry, some err) ne =
      ask_upstream-Does cache_key db_entry ne req cache
  looked_up-Does cache_key req cache (db_entry, none) ne =
      bind-Does env other 0 1 (serve env req db_entry.value false)
        (hit_or env (ask_upstream env cache_key db_entry req cache))
        (serve-Does cache_key db_entry ne req db_entry.value false)
        (λ r.
          hit_or-Does cache_key db_entry ne (ask_upstream env cache_key db_entry req cache) r
            (ask_upstream-Does cache_key db_entry ne req cache))

  -- Whatever the database, the upstream and the request do, errors and panics included, a run of
  -- `Do` leaves every key of the database but that of the request as it is, and notifies at most
  -- one state, which is "hit", "miss" or "revalidated"; what was notified before stays.
  pub do_request-IsQuiet :
      (pooled : Entry CachedResponses) (req : HttpRequest) (cache : UpstreamCache)
      (w : World env.badger.Db)
      → build_key env.url_string req ≢ other
      → IsQuiet env other 1 w (do_request env pooled req cache w).1
  unfolding do_request is_known
  do_request-IsQuiet pooled req cache w ne =
      let cache_key = build_key env.url_string req in
      Does-if env other 1 (not (req.method == "GET") && not (req.method == "HEAD"))
        (forward_request env req >>= forwarded_answer env)
        (gets (λ w. get env.badger env.codec w.db cache_key pooled)
          >>= looked_up env cache_key req cache)
        (bind-Does env other 0 1 (forward_request env req) (forwarded_answer env)
          (forward_request-Does env laws codec_laws other req)
          (λ (f, req').
            notify_and-Does cache_key pooled ne "miss"
              (record { response = f.response; pending = none }) refl))
        (bind-Does env other 0 1 (gets (λ w. get env.badger env.codec w.db cache_key pooled))
          (looked_up env cache_key req cache)
          (gets-Does env other (λ w. get env.badger env.codec w.db cache_key pooled))
          (λ found. looked_up-Does cache_key req cache found ne))
        w
