-- ===== src/Client/Request/Outcomes.antt =====
-- What `Client.Do` answers from the cache when no upstream answers.
use locaccel.Prelude.{
  ℕ, ◌+◌, List, [], ◌∷◌, ◌++◌, Option, none, some, Bool, true, false, not, ◌&&◌, eqb, length,
  length-append, ◌≡◌, ◌≢◌, ◌⊎◌, refl, ap, ◌∙◌, ◌==◌, inl, inr,
}
use locaccel.Prelude.Panic.{Run, returns}
use locaccel.Database.{Entry, DbError, get}
use locaccel.Client.{
  CachedResponses, HttpRequest, Response, UpstreamCache, Env, World, build_key, ◌>>=◌,
}
use locaccel.Client.Select.{serve_from_cache}
use locaccel.Client.Conditional.{add_conditional_request_information}
use locaccel.Client.Forward.{Forwarded, forward_request_with_upstream}
use locaccel.Client.Forward.Down.{
  IsDown, AreFor, without_hop_by_hop, forward_request_with_upstream-Failed,
}
use locaccel.Client.Request.{
  respond, hit_or, stale_or, after_answer, ask_upstream, looked_up, do_request,
}

module _ (env : Env) (pooled : Entry CachedResponses) (req : HttpRequest) (cache : UpstreamCache)
    (w : World env.badger.Db) where
  abbrev db_get : Entry CachedResponses × Option DbError
  db_get = get env.badger env.codec w.db (build_key env.url_string req) pooled

  -- `serve_from_cache` once `n` requests were sent
  abbrev serve_at : ℕ → Bool → HttpRequest → CachedResponses → Option Response
  serve_at n force_stale r value =
      serve_from_cache env.dates (env.now n) (env.has_file n) force_stale r value

  looked_up_lem :
      not (req.method == "GET") && not (req.method == "HEAD") ≡ false
      → do_request env pooled req cache w
        ≡ looked_up env (build_key env.url_string req) req cache db_get w
  unfolding do_request
  looked_up_lem m = rw m refl

  -- the request with the conditional information of an entry, as it goes to the origin
  abbrev asked : Entry CachedResponses → HttpRequest
  asked entry = without_hop_by_hop (add_conditional_request_information env.dates req entry.value).0

  looked_up_stale :
      (entry : Entry CachedResponses) (err : Option DbError)
      → (err ≢ none) ⊎ (serve_at (length w.sent) false req entry.value ≡ none)
      → looked_up env (build_key env.url_string req) req cache (entry, err) w
        ≡ ask_upstream env (build_key env.url_string req) entry req cache w
  looked_up_stale entry (some e) h = refl
  looked_up_stale entry none (inl h) = absurd (h refl)
  looked_up_stale entry none (inr h) =
      ap (λ o. hit_or env (ask_upstream env (build_key env.url_string req) entry req cache) o w) h

  -- What happens behind the failed request.
  stale_after :
      (entry : Entry CachedResponses) (flags : Bool × Bool) (r : Response) (f : Forwarded)
      (out : HttpRequest) (w' : World env.badger.Db)
      → eqb entry.version 0 ≡ false
      → f.response ≡ none
      → serve_at (length w'.sent) true out entry.value ≡ some r
      → after_answer env (build_key env.url_string req) entry req cache flags (f, out) w'
        ≡ (returns (respond r), record w' { notified = w'.notified ++ "hit" ∷ [] })
  unfolding stale_or
  stale_after entry flags r f out w' v e s = rw (e, v, s) refl

  ask_upstream_fails :
      (entry : Entry CachedResponses) (result : Run (Forwarded × HttpRequest) × World env.badger.Db)
      → eqb entry.version 0 ≡ false
      → forward_request_with_upstream env
          (add_conditional_request_information env.dates req entry.value).0
          cache
          w
        ≡ result
      → (flags : Bool × Bool) × (ask_upstream env (build_key env.url_string req) entry req cache w
          ≡ ((λ v. result)
                >>= after_answer env (build_key env.url_string req) entry req cache flags)
              w)
  unfolding ask_upstream
  ask_upstream_fails entry result v e =
      let (sent, has_conditional, was_conditional) =
        add_conditional_request_information env.dates req entry.value in
      ((has_conditional, was_conditional), rw (v, e) refl)

  -- A stored response is answered when no upstream does, fresh or not: if every upstream fails, and
  -- the entry has a stored response that can be served stale to the request as it goes to the origin,
  -- then `Do` answers it and notifies "hit", and the database stays as it is. Before, the request with
  -- the conditional information, without the hop-by-hop headers, went to each upstream cache, in order,
  -- as its proxy or moved to its URL, and at last, where it was asked for, once each.
  -- The entry is the one of the database, or, if the lookup failed with an error other than
  -- a missing key, the pooled one.
  pub stale_if_down :
      (entry : Entry CachedResponses) (err : Option DbError) (r : Response)
      → IsDown env
      → not (req.method == "GET") && not (req.method == "HEAD") ≡ false
      → db_get ≡ (entry, err)
      → (err ≢ none) ⊎ (serve_at (length w.sent) false req entry.value ≡ none)
      → eqb entry.version 0 ≡ false
      → serve_at (length w.sent + (length cache.uris + 1)) true (asked entry) entry.value ≡ some r
      → (tried : List HttpRequest) × (length tried ≡ length cache.uris + 1)
        × AreFor cache.proxy
            (add_conditional_request_information env.dates req entry.value).0
            cache.uris
            tried
        × (do_request env pooled req cache w ≡ (
          returns (respond r),
          record w { sent = w.sent ++ tried; notified = w.notified ++ "hit" ∷ [] },
        ))
  stale_if_down entry err r down m found stale v s =
      let key = build_key env.url_string req in
      let sent = (add_conditional_request_information env.dates req entry.value).0 in
      let (tried, len, are, (f, none_f, e)) =
        forward_request_with_upstream-Failed env down sent cache w in
      let (flags, asks) = ask_upstream_fails entry _ v e in
      (
        tried,
        len,
        are,
        looked_up_lem m
            ∙ ap (λ g. looked_up env key req cache g w) found
            ∙ looked_up_stale entry err stale
            ∙ asks
            ∙ stale_after entry flags r f (without_hop_by_hop sent)
                (record w { sent = w.sent ++ tried }) v none_f
                (ap (λ n. serve_at n true (asked entry) entry.value)
                    (length-append w.sent tried ∙ ap (λ n. length w.sent + n) len)
                  ∙ s),
      )
