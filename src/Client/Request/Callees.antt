-- ===== src/Client/Request/Callees.antt =====
-- The parts of the client that `Do` calls notify nothing, and write under the key that they are given.
use locaccel.Prelude.{
  ℕ, String, List, [], ◌∷◌, Option, none, some, Bool, true, false, length, if◌then◌else◌, arith,
  ◌≢◌, sym, append-nil,
}
use locaccel.Prelude.Panic.{Run, returns}
use locaccel.Database.{Entry}
use locaccel.Database.Laws.{BadgerLaws, CodecLaws}
use locaccel.Database.Versions.{txn_get-save_ne}
use locaccel.Client.{
  CachedResponse, CachedResponses, Url, HttpRequest, Response, Env, World, Action, ◌>>◌, pure, lift,
  panic,
}
use locaccel.Client.Request.Quiet.{IsQuiet, Does, pure-Does, gets-Does, bind-Does, lift-Does}
use locaccel.Client.Forward.{
  Forwarded, forward_request, or_next, build_upstream_request, try_upstreams,
}
use locaccel.Client.Revalidate.{
  Match, find_match, serve_match, refresh_response_and_serve, update_cache, save_entry, refreshed,
  revalidated, replace_at,
}

module _ (env : Env) (laws : BadgerLaws env.badger) (codec_laws : CodecLaws env.codec)
    (other : String) where
  pub forward_request-Does : (req : HttpRequest) → Does env other 0 (forward_request env req)
  unfolding forward_request
  forward_request-Does req w = gets-Does env other (λ w. w) w

  or_next-Does :
      (proxy : Bool) (req : HttpRequest) (next : Action env.badger.Db (Forwarded × HttpRequest))
      (f : Forwarded) (copy : HttpRequest)
      → Does env other 0 next
      → Does env other 0 (or_next env proxy req next (f, copy))
  or_next-Does proxy req next f copy d w =
      elim f.response
        as (λ r.
          IsQuiet env other 0 w
            (elim r as (λ x. Run (Forwarded × HttpRequest) × World env.badger.Db) [
              | none ↦ next w
              | some resp ↦ (returns (f, req), w)
            ]).1) [
              | none ↦ d w
              | some resp ↦ pure-Does env other {A = Forwarded × HttpRequest} 0 (f, req) w
            ]

  pub try_upstreams-Does :
      (proxy : Bool) (req : HttpRequest) (uris : List Url)
      → Does env other 0 (try_upstreams env proxy req uris)
  unfolding try_upstreams
  try_upstreams-Does proxy req [] w = forward_request-Does req w
  try_upstreams-Does proxy req (upstream ∷ uris) w =
      bind-Does env other 0 0 (forward_request env (build_upstream_request proxy req upstream))
        (or_next env proxy req (try_upstreams env proxy req uris))
        (forward_request-Does (build_upstream_request proxy req upstream))
        (λ (f, copy).
          or_next-Does proxy req (try_upstreams env proxy req uris) f copy
            (try_upstreams-Does proxy req uris))
        w

  module _ (cache_key : String) (db_entry : Entry CachedResponses) (ne : cache_key ≢ other) where
    save_entry-Does :
        (entry : Entry CachedResponses) → Does env other 0 (save_entry env cache_key entry)
    save_entry-Does entry w = (
      [],
      sym (append-nil w.notified),
      omega arith,
      txn_get-save_ne env.badger env.codec laws codec_laws w.db cache_key other entry ne,
      tt,
    )

    after_save-Does :
        (entry : Entry CachedResponses) (opened : Bool) (r : Response) (w : World env.badger.Db)
        → IsQuiet env other 0 w
            ((save_entry env cache_key entry >> (if opened then pure r else panic)) w).1
    after_save-Does entry true r w = save_entry-Does entry w
    after_save-Does entry false r w = save_entry-Does entry w

    refresh-Does :
        (idx : ℕ) (cached : CachedResponse) (f : Forwarded) (resp : Response)
        → Does env other 0 (refresh_response_and_serve env cache_key db_entry idx cached f resp)
    unfolding refresh_response_and_serve
    refresh-Does idx cached f resp w =
        let now = env.now (length w.sent) in
        let cached' = refreshed env f resp now cached in
        after_save-Does (record db_entry { value = replace_at idx cached' db_entry.value })
          (env.has_file (length w.sent) cached.content_hash) (revalidated env cached' now) w

    serve_match-Does :
        (f : Forwarded) (resp : Response) (m : Match)
        → Does env other 0 (serve_match env cache_key db_entry f resp m)
    serve_match-Does f resp none w = pure-Does env other {A = Option Response} 0 none w
    serve_match-Does f resp (some (idx, cached)) w =
        bind-Does env other 0 0
          (refresh_response_and_serve env cache_key db_entry idx cached f resp) (λ r. pure (some r))
          (refresh-Does idx cached f resp) (λ r. pure-Does env other 0 (some r)) w

    pub update_cache-Does :
        (f : Forwarded) (resp : Response)
        → Does env other 0 (update_cache env cache_key db_entry f resp)
    unfolding update_cache
    update_cache-Does f resp =
        bind-Does env other 0 0 (lift (find_match resp.header db_entry.value)) _
          (lift-Does env other (find_match resp.header db_entry.value)) (serve_match-Does f resp)
